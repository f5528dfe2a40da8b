-- ===== src/PageFile/Catalogue/Saving.antt =====
-- jni/KvDB/SMDPageManagement.cpp: `saveInnerInfoToFile` in a file whose table stays on page 0.
use leveldblib.Prelude.{
  ℕ, suc, ◌+◌, ◌-◌, ◌*◌, ◌^◌, ◌≤◌, ◌<◌, ◌≡◌, refl, sym, ap, ◌∙◌, true, false, none, some, List, [],
  ◌∷◌, ◌++◌, ◌==◌, length, take, drop, replicate, arith, length-replicate,
}
use leveldblib.Memory.{store_fits, replaced, length-replaced}
use leveldblib.Page.{
  Page, storage_flag, no_page, flag_length, head_size, sub16, check_first_page, free_space,
  is_last_page,
}
use leveldblib.Page.Inv.{blank, IsValid}
use leveldblib.Page.Head.{pushed, length-pushed}
use leveldblib.Stream.{MemStream}
use leveldblib.Cache.Coherent.{IsCoherent}
use leveldblib.PageTable.{
  PageNo, Inner, manager_key, find_info, save_inner, get_first_page_no, get_last_page_no,
}
use leveldblib.PageManager.{Manager, put_bytes, get_page_by_page_no}
use leveldblib.PageManager.Loading.{load_lem}
use leveldblib.PageManager.Save.{save_lem}
use leveldblib.PageFile.{returned, State, held, set_to_first_page_file}
use leveldblib.PageFile.Put.{put}
use leveldblib.PageFile.Put.Store.{stored, put_lem}
use leveldblib.PageFile.Walk.{clear_page, clear_loop, clear_turn}
use leveldblib.PageFile.Catalogue.{opened, get_page_file, store_info, save_inner_info_to_file}
use leveldblib.PageFile.Catalogue.First.{from_null}

-- A file whose page 0 holds `p`, the only page of its chain, with a cache of the file's pages.
pub record Begins (m : Manager) (p : Page) : Type 0 where
  pub valid : IsValid p
  pub number : p.pageno ≡ 0
  pub last : p.next ≡ no_page
  pub reserved : p.reserve1 < 2 ^ 16
  pub size : p.size ≡ m.inner.page_size
  pub coherent : IsCoherent m.cache
  pub cache_size : m.cache.page_size ≡ m.inner.page_size
  pub counted : 0 < m.cache.max_page_num
  pub on_file : take m.inner.page_size m.cache.file ≡ pushed p

-- Page 0 emptied.
abbrev pub emptied : Page → Page
emptied q = record q {
  modify = true;
  space = sub16 (sub16 q.size head_size) flag_length;
  block = replaced 0 (storage_flag ++ (0 ∷ [])) (replicate (length q.block) 0);
}

-- It is saved.
abbrev pub made_of : Page → Page
made_of q = record (emptied q) { block = pushed (emptied q); modify = false }

-- What loading gives of page 0.
pub record Loaded (m m1 : Manager) (q : Page) : Type 0 where
  pub valid : IsValid q
  pub number : q.pageno ≡ 0
  pub last : q.next ≡ no_page
  pub reserved : q.reserve1 < 2 ^ 16
  pub size : q.size ≡ m.inner.page_size
  pub inner : m1.inner ≡ m.inner
  pub writable : m1.writable ≡ m.writable
  pub same_file : m1.cache.file ≡ m.cache.file

emptied-IsValid : (q : Page) → IsValid q → q.pageno ≡ 0 → IsValid (emptied q)
emptied-IsValid q v z =
    let n = length-replicate {A = ℕ} (length q.block) 0 in
    record {
      block =
          length-replaced 0 (storage_flag ++ (0 ∷ [])) (replicate (length q.block) 0)
            (omega (arith, n, v.block, v.room))
          ∙ n
          ∙ v.block;
      room = v.room;
      size = v.size;
      space = rw z (omega (arith, v.room, v.size));
    }

pub made_of-IsValid : (q : Page) → IsValid q → q.pageno ≡ 0 → IsValid (made_of q)
made_of-IsValid q v z =
    let w = emptied-IsValid q v z in
    record { block = length-pushed (emptied q) w; room = w.room; size = w.size; space = w.space }

free_lem : (q : Page) → IsValid q → q.pageno ≡ 0 → free_space q ≡ some (emptied q)
unfolding free_space check_first_page
free_lem q v z =
    let n = length-replicate {A = ℕ} (length q.block) 0 in
    let t : (q.pageno == 0) ≡ true = ground (arith, z) in
    let fits =
      store_fits 0 (storage_flag ++ (0 ∷ [])) (replicate (length q.block) 0)
        (omega (arith, n, v.block, v.room)) in
    rw (t, fits) refl

load_zero :
    (garbage : ℕ → List ℕ) (k : ℕ) (m : Manager) (p : Page)
    → k ≡ 0
    → Begins m p
    → (q : Page) × (m1 : Manager) × (get_page_by_page_no garbage k none m ≡ some (true, q, m1))
      × Loaded m m1 q
unfolding get_page_by_page_no
load_zero garbage k m p z b =
    let ps = m.inner.page_size in
    let v = b.valid in
    let other : (no_page == p.pageno) ≡ false = ground (arith, b.number) in
    let at : p.pageno * m.cache.page_size ≡ 0 = rw b.number (omega arith) in
    let there : take m.cache.page_size (drop (p.pageno * m.cache.page_size) m.cache.file)
        ≡ pushed p =
      rw (at, b.cache_size) b.on_file in
    let (q, m1, found, block, number, next, space, size, inner, _, file, _, _, reserve1, writable) =
      load_lem garbage p (blank ps ps no_page) m v (omega (arith, b.last)) b.reserved (sym b.size)
        other (length-replicate {A = ℕ} ps 0 ∙ sym b.size) b.coherent
        (omega (arith, b.number, b.counted)) there in
    (
      q,
      m1,
      ap (λ (n : ℕ). get_page_by_page_no garbage n none m) (z ∙ sym b.number)
          ∙ from_null garbage p.pageno m
          ∙ found,
      record {
        valid = record {
          block = ap (λ (xs : List ℕ). length xs) block ∙ length-pushed p v ∙ sym size;
          room = rw size v.room;
          size = rw size v.size;
          space = rw (size, number, space) v.space;
        };
        number = number ∙ b.number;
        last = next ∙ b.last;
        reserved = rw reserve1 b.reserved;
        size = size ∙ b.size;
        inner = inner;
        writable = writable;
        same_file = file;
      },
    )

-- `clearPage` of the table: page 0 is emptied and saved.
clear_zero :
    (garbage : ℕ → List ℕ) (fuel : ℕ) (m m1 : Manager) (q : Page)
    → m.writable ≡ true
    → get_page_by_page_no garbage (get_first_page_no manager_key m.inner) none m
      ≡ some (true, q, m1)
    → Loaded m m1 q
    → clear_page garbage manager_key (suc fuel) (opened m)
      ≡ returned (
        true,
        held (made_of q) (record m1 {
          cache = record m1.cache {
            file = put_bytes (q.pageno * q.size) (pushed (emptied q)) m1.cache.file;
          };
        }),
      )
unfolding clear_page clear_loop clear_turn set_to_first_page_file is_last_page
clear_zero garbage fuel m m1 q w found l =
    let v = emptied-IsValid q l.valid l.number in
    let small : q.pageno * q.size < 2 ^ 31 = rw l.number (omega arith) in
    let saved =
      save_lem (emptied q) m1 v refl (l.writable ∙ w)
        (l.size ∙ ap (λ (i : Inner). i.page_size) (sym l.inner)) small in
    let last : (q.next == no_page) ≡ true = ground (arith, l.last) in
    rw (found, free_lem q l.valid l.number, saved, last) refl

-- The steps of `saveInnerInfoToFile`.
info_steps :
    (garbage : ℕ → List ℕ) (fuel o : ℕ) (m m2 : Manager) (v : PageNo) (t : MemStream) (s1 : State)
    (q : Page)
    → find_info manager_key m.inner.page_info ≡ some v
    → save_inner m.inner ≡ (true, t)
    → clear_page garbage manager_key fuel (opened m) ≡ returned (true, s1)
    → put garbage manager_key v.min_unit fuel t s1 ≡ returned (some o, held q m2)
    → save_inner_info_to_file garbage fuel m ≡ returned (true, m2)
unfolding save_inner_info_to_file store_info get_page_file
info_steps garbage fuel o m m2 v t s1 q found e c d = rw (found, e, c, d) refl

-- `saveInnerInfoToFile` in such a file, where the saved table fits page 0.
pub save_info_lem :
    (garbage : ℕ → List ℕ) (fuel : ℕ) (m : Manager) (p : Page) (v : PageNo) (t : MemStream)
    → m.writable ≡ true
    → Begins m p
    → find_info manager_key m.inner.page_info ≡ some v
    → v.root_page_no ≡ 0
    → v.last_page_no ≡ 0
    → save_inner m.inner ≡ (true, t)
    → 0 < length t.buf
    → length t.buf + 32 ≤ m.inner.page_size
    → (q : Page) × (m1 : Manager) × Loaded m m1 q
      × (save_inner_info_to_file garbage (suc fuel) m
          ≡ returned (
            true,
            record m1 {
              cache = record m1.cache {
                file =
                    put_bytes
                      (q.pageno * q.size)
                      (pushed (stored t.buf (made_of q)))
                      (put_bytes (q.pageno * q.size) (pushed (emptied q)) m1.cache.file);
              };
            },
          ))
unfolding get_first_page_no get_last_page_no
save_info_lem garbage fuel m p v t w b found root last e some_bytes room =
    let k = get_first_page_no manager_key m.inner in
    let zero_k : k ≡ 0 = rw found root in
    let (q, m1, loaded, l) = load_zero garbage k m p zero_k b in
    let last_q : get_last_page_no manager_key m1.inner ≡ q.pageno =
      ap (get_last_page_no manager_key) l.inner ∙ rw found last ∙ sym l.number in
    let made = made_of q in
    let vm = made_of-IsValid q l.valid l.number in
    let m2 : Manager = record m1 {
      cache = record m1.cache {
        file = put_bytes (q.pageno * q.size) (pushed (emptied q)) m1.cache.file;
      };
    } in
    let small : q.pageno * q.size < 2 ^ 31 = rw l.number (omega arith) in
    let space : made.space ≡ q.size - 28 = omega (arith, l.valid.room, l.valid.size) in
    let put_e =
      put_lem garbage manager_key v.min_unit (suc fuel) t made m2 vm last_q (l.writable ∙ w)
        (l.size ∙ ap (λ (i : Inner). i.page_size) (sym l.inner)) small some_bytes
        (omega (arith, space, room, l.size)) in
    (
      q,
      m1,
      l,
      info_steps garbage (suc fuel) (made.size - made.space + q.pageno * q.size) m
          (record m2 {
            cache = record m2.cache {
              file = put_bytes (q.pageno * q.size) (pushed (stored t.buf made)) m2.cache.file;
            };
          })
          v t (held made m2)
          (record (stored t.buf made) { block = pushed (stored t.buf made); modify = false }) found
          e (clear_zero garbage fuel m m1 q w loaded l) put_e,
    )
