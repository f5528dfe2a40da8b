-- ===== src/Segment/Meta/RoundTrip.antt =====
-- jni/KvDB/SMDMetaSegment.cpp: the pairs that `save` saves are those that `read` reads when the file
-- is opened again.
use leveldblib.Prelude.{
  ℕ, suc, ◌+◌, ◌^◌, ◌≤◌, ◌<◌, ◌≡◌, refl, sym, ap, subst, true, false, List, [], ◌∷◌, ◌++◌,
  append-nil, append_assoc, length, ltb, arith,
}
use leveldblib.Order.{All}
use leveldblib.Order.Sorted.{All-append_inv}
use leveldblib.Value.{put_int}
use leveldblib.Stream.{MemStream, done, u32, new}
use leveldblib.Stream.Format.{at}
use leveldblib.Stream.Unchecked.{rounds}
use leveldblib.Stream.Chain.{
  Puts, Gets, Puts-Writes, Gets-Reads, >>-Puts, write_int-Puts, >>=-Gets, pure-Gets, read_int-Gets,
  read_checked-Gets, rounds_of_small,
}
use leveldblib.PageTable.{Inner, PageNo}
use leveldblib.PageTable.Format.{
  FitsAttribute, attributes_bytes, extern_bytes, write_attributes-Puts,
}
use leveldblib.Page.{Page}
use leveldblib.PageManager.{Manager}
use leveldblib.PageManager.Save.{reopened}
use leveldblib.PageFile.{returned}
use leveldblib.TableDef.Parts.{Differs, DistinctKeys}
use leveldblib.Segment.{store, fetch}
use leveldblib.Segment.Kept.{rewind_lem, Cleared, Reopens, kept_in, store_lem, fetch_lem}
use leveldblib.Segment.Meta.{
  Metas, meta_key, max_meta_info_count, add_meta_info, write_metas, read_pairs, read_metas,
  read_fetched, save, read,
}

write_metas-Puts :
    (metas : Metas)
    → length metas < 2 ^ 31
    → All FitsAttribute metas
    → Puts (write_metas metas) (extern_bytes metas)
unfolding write_metas
write_metas-Puts metas h f =
    let e : u32 (length metas) ≡ length metas = omega (arith, h) in
    rw e (>>-Puts (write_int-Puts (length metas)) (write_attributes-Puts metas f))

-- A pair with a new key is put behind the others.
add_meta_info_last :
    (k v : List ℕ) (acc rest : Metas)
    → DistinctKeys (acc ++ ((k, v) ∷ rest))
    → add_meta_info k v acc ≡ acc ++ ((k, v) ∷ [])
unfolding add_meta_info
add_meta_info_last k v [] rest d = refl
add_meta_info_last k v ((j, w) ∷ acc) rest (d, ds) =
    let n = (All-append_inv (Differs j) acc ((k, v) ∷ rest) d).1.0 in
    rw n (ap (λ xs. (j, w) ∷ xs) (add_meta_info_last k v acc rest ds))

read_pairs-Gets :
    (metas acc : Metas)
    → All FitsAttribute metas
    → DistinctKeys (acc ++ metas)
    → Gets (read_pairs (length metas) acc) (attributes_bytes metas) (true, acc ++ metas)
unfolding read_pairs
read_pairs-Gets [] acc f d = rw (append-nil acc) pure-Gets
read_pairs-Gets ((k, v) ∷ metas) acc (f, fs) d =
    let moved : acc ++ ((k, v) ∷ []) ++ metas ≡ acc ++ ((k, v) ∷ metas) =
      append_assoc acc ((k, v) ∷ []) metas in
    let next = read_pairs-Gets metas (acc ++ ((k, v) ∷ [])) fs (subst DistinctKeys (sym moved) d) in
    >>=-Gets _ (read_checked-Gets k f.0) (
      >>=-Gets _ (read_checked-Gets v f.1)
        (rw (add_meta_info_last k v acc metas d) (rw moved at next)))

read_metas-Gets :
    (metas : Metas)
    → length metas ≤ max_meta_info_count
    → All FitsAttribute metas
    → DistinctKeys metas
    → Gets (read_metas []) (extern_bytes metas) (true, metas)
unfolding read_metas
read_metas-Gets metas h f d =
    let n = length metas in
    let few : rounds n ≡ n = rounds_of_small n (omega (arith, h)) in
    let allowed : ltb 256 n ≡ false = ground (arith, h) in
    >>=-Gets _ (read_int-Gets n (omega (arith, h)))
      (rw (few, allowed) (read_pairs-Gets metas [] f d))

-- The steps of `save` and `read`.
save_steps :
    (garbage : ℕ → List ℕ) (fuel : ℕ) (e : List ℕ × List ℕ) (metas : Metas) (s : MemStream)
    (m m2 : Manager)
    → write_metas (e ∷ metas) (new 0) ≡ (true, s)
    → store garbage fuel meta_key s m ≡ returned (true, m2)
    → save garbage fuel (e ∷ metas) m ≡ returned (true, m2)
unfolding save
save_steps garbage fuel e metas s m m2 w h = rw (w, h) refl

read_steps :
    (garbage : ℕ → List ℕ) (fuel : ℕ) (bytes : List ℕ) (r : MemStream) (metas : Metas)
    (m m2 : Manager)
    → fetch garbage fuel meta_key m ≡ returned (true, at bytes 0, m2)
    → read_metas [] (at bytes 0) ≡ (done (true, metas), r)
    → read garbage fuel [] m ≡ returned (true, metas, m2)
unfolding read read_fetched
read_steps garbage fuel bytes r metas m m2 f e = rw (f, rewind_lem bytes, e) refl

extern_bytes_some : (metas : Metas) → 0 < length (extern_bytes metas)
unfolding put_int
extern_bytes_some metas = omega arith

-- A segment of 1 up to 256 pairs whose strings are shorter than 2 ^ 31 and whose keys are distinct.
-- `clearPage` of its page file leaves a last page that is valid and empty, and the bytes of the
-- pairs with their length fit that page; the file is opened again with a table that has this page as
-- the first of the page file. `save` succeeds, and `read` into a new segment then succeeds and gives
-- exactly the pairs.
pub read-save_metas :
    (garbage : ℕ → List ℕ) (fuel n max_buffer_num : ℕ) (inner : Inner) (m m1 : Manager)
    (v v' : PageNo) (p : Page) (e : List ℕ × List ℕ) (metas : Metas)
    → Cleared garbage fuel meta_key m v p m1
    → Reopens meta_key inner max_buffer_num p m1 v' (extern_bytes (e ∷ metas))
    → length (e ∷ metas) ≤ max_meta_info_count
    → All FitsAttribute (e ∷ metas)
    → DistinctKeys (e ∷ metas)
    → length (extern_bytes (e ∷ metas)) < 2 ^ 31
    → length (extern_bytes (e ∷ metas)) + 4 ≤ p.space
    → (m2 : Manager) × (save garbage fuel (e ∷ metas) m ≡ returned (true, m2))
      × (m3 : Manager) × (read garbage (suc n) [] (reopened inner max_buffer_num m2)
          ≡ returned (true, e ∷ metas, m3))
unfolding new
read-save_metas garbage fuel n nb inner m m1 v v' p e metas c r few fits distinct small room =
    let bytes = extern_bytes (e ∷ metas) in
    let full = extern_bytes_some (e ∷ metas) in
    let m2 = kept_in bytes p m1 in
    let wrote =
      Puts-Writes (write_metas-Puts (e ∷ metas) (omega (arith, few)) fits) []
        (omega (arith, small)) in
    let stored' =
      store_lem garbage fuel meta_key m m1 v p (at bytes (0 + length bytes)) c full room in
    let (m3, got) =
      fetch_lem garbage fuel n nb meta_key inner m m1 v v' p bytes c r full small room in
    let whole : bytes ++ [] ≡ bytes = append-nil bytes in
    let back =
      Gets-Reads (read_metas-Gets (e ∷ metas) few fits distinct) [] [] (omega (arith, small)) in
    (
      m2,
      save_steps garbage fuel e metas (at bytes (0 + length bytes)) m m2 wrote stored',
      m3,
      read_steps garbage (suc n) bytes (at bytes (0 + length bytes)) (e ∷ metas)
          (reopened inner nb m2) m3 got (rw whole at back),
    )
