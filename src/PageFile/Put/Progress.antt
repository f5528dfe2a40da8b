-- ===== src/PageFile/Put/Progress.antt =====
-- jni/KvDB/SMDPageFile.cpp: `put` on the last page of a file that can grow ends, and returns an
-- offset.
use leveldblib.Prelude.{
  ℕ, zero, suc, ◌+◌, ◌≤◌, ◌<◌, ◌≡◌, refl, ap, ◌∙◌, true, false, Option, some, List, [], ◌∷◌, length,
  leb, ◌==◌, arith,
}
use leveldblib.Stream.{MemStream}
use leveldblib.Page.{Page, get_space_offset, get_file_offset}
use leveldblib.PageTable.{PageKey, get_last_page_no}
use leveldblib.PageManager.{Manager, get_page_by_page_no, load_page}
use leveldblib.PageFile.Put
use leveldblib.PageFile.{Run, returned, State, held}
use leveldblib.PageFile.Put.{Writing, put_loop, put_whole, put_found, put}
use leveldblib.PageFile.Put.Growing.{
  succeeds, Succeeds, >>=-Succeeds, if-Succeeds, weaker, Growing, none_more, save-Succeeds,
}
use leveldblib.PageFile.Put.Turns.{
  write-Succeeds, start-Succeeds, Roomy, put_turn-Succeeds, put_turn-Roomy,
}

module _ (garbage : ℕ → List ℕ) (n : ℕ) where
  put_loop-Succeeds :
      (min_unit fuel size : ℕ) (left : List ℕ) (w : Writing)
      → min_unit + 16 ≤ n
      → Growing n fuel w.page w.manager
      → length left ≤ fuel
      → (0 < length left → Roomy garbage n min_unit w.page)
      → Succeeds
          (λ (v : Writing). Growing n 0 v.page v.manager)
          (put_loop garbage min_unit size fuel left w)
  unfolding put_loop
  put_loop-Succeeds min_unit fuel size [] w room g enough roomy =
      succeeds (none_more n fuel w.page w.manager g)
  put_loop-Succeeds min_unit zero size (b ∷ bs) w room g enough roomy =
      absurd (omega (arith, enough))
  put_loop-Succeeds min_unit (suc fuel) size (b ∷ bs) w room g enough roomy =
      >>=-Succeeds
        (put_turn-Roomy garbage n min_unit fuel size (b ∷ bs) w room g (roomy (omega arith)))
        λ x y.
          put_loop-Succeeds min_unit fuel size x.0 x.1 room y.1 (omega (arith, y.0, enough)) y.2

  put_loop-Succeeds_from_any :
      (min_unit fuel size : ℕ) (left : List ℕ) (w : Writing)
      → min_unit + 16 ≤ n
      → Growing n fuel w.page w.manager
      → length left < fuel
      → Succeeds
          (λ (v : Writing). Growing n 0 v.page v.manager)
          (put_loop garbage min_unit size fuel left w)
  unfolding put_loop
  put_loop-Succeeds_from_any min_unit fuel size [] w room g enough =
      succeeds (none_more n fuel w.page w.manager g)
  put_loop-Succeeds_from_any min_unit zero size (b ∷ bs) w room g enough =
      absurd (omega (arith, enough))
  put_loop-Succeeds_from_any min_unit (suc fuel) size (b ∷ bs) w room g enough =
      >>=-Succeeds (put_turn-Succeeds garbage n min_unit fuel size (b ∷ bs) w room g) λ x y.
        put_loop-Succeeds min_unit fuel size x.0 x.1 room y.1 (omega (arith, y.0, enough)) y.2

  put_whole-Succeeds :
      (k : ℕ) (bytes : List ℕ) (w : Writing)
      → Growing n k w.page w.manager
      → Succeeds (λ (v : Writing). Growing n k v.page v.manager) (put_whole garbage bytes w)
  unfolding put_whole
  put_whole-Succeeds k bytes w g =
      >>=-Succeeds
        (start-Succeeds garbage n k (length bytes)
          (get_space_offset w.page + get_file_offset w.page) w g)
        λ v u.
          >>=-Succeeds (write-Succeeds garbage n k bytes v.page v.manager u.0) λ r h. succeeds h.0

  -- An offset, and again the last page of a chain.
  abbrev Stored : Option ℕ × State → Type 0
  Stored r =
      (offset : ℕ) × (q : Page) × (r.0 ≡ some offset)
      × (r.1.page ≡ some q)
      × Growing n 0 q r.1.manager

  put_bytes-Succeeds :
      (min_unit fuel : ℕ) (bytes : List ℕ) (p : Page) (m : Manager)
      → min_unit + 16 ≤ n
      → Growing n fuel p m
      → length bytes < fuel
      → Succeeds Stored (Put.put_bytes garbage min_unit fuel bytes p m)
  unfolding Put.put_bytes
  put_bytes-Succeeds min_unit fuel bytes p m room g enough =
      let w : Writing = record { started = false; offset = 0; page = p; manager = m } in
      >>=-Succeeds
        (if-Succeeds (leb (length bytes + 4) p.space)
          (λ t.
            weaker (put_whole-Succeeds fuel bytes w g) λ v h. none_more n fuel v.page v.manager h)
          (λ f. put_loop-Succeeds_from_any min_unit fuel (length bytes) bytes w room g enough))
        λ v h.
          >>=-Succeeds (save-Succeeds n 0 v.page v.manager h)
            λ r i. succeeds (v.offset, r.0, refl, refl, i)

  put-Succeeds :
      (key : PageKey) (min_unit fuel : ℕ) (t : MemStream) (p : Page) (m : Manager)
      → min_unit + 16 ≤ n
      → Growing n fuel p m
      → get_last_page_no key m.inner ≡ p.pageno
      → 0 < length t.buf
      → length t.buf < fuel
      → Succeeds Stored (put garbage key min_unit fuel t (held p m))
  unfolding put put_found get_page_by_page_no load_page
  put-Succeeds key min_unit fuel t p m room g last some_bytes enough =
      let self : (p.pageno == p.pageno) ≡ true = ground arith in
      let more : (length t.buf == 0) ≡ false = ground (arith, some_bytes) in
      rw (last, self, more) (put_bytes-Succeeds min_unit fuel t.buf p m room g enough)

pub Succeeds-returned :
    {A : Type 0} {P : A → Type 0} {m : Run A} → Succeeds P m → (a : A) × (m ≡ returned a) × P a
Succeeds-returned (succeeds {a} e) = (a, refl, e)

-- A stream that is not empty, and a page file whose last page is held: a valid page of `n` bytes that
-- is the last of its chain, in a file open for writing that can grow by one page for each byte of the
-- stream and one more, with offsets below 2 ^ 31, where a page has at least 16 bytes more than the
-- smallest unit. `put` ends, within as many turns of its loop, and returns an offset; the page held
-- afterwards is again a valid page of `n` bytes that is the last of its chain, in a file open for
-- writing.
pub put-terminates :
    (garbage : ℕ → List ℕ) (n : ℕ) (key : PageKey) (min_unit fuel : ℕ) (t : MemStream) (p : Page)
    (m : Manager)
    → min_unit + 16 ≤ n
    → Growing n fuel p m
    → get_last_page_no key m.inner ≡ p.pageno
    → 0 < length t.buf
    → length t.buf < fuel
    → (offset : ℕ) × (q : Page) × (m' : Manager) × (put garbage key min_unit fuel t (held p m)
        ≡ returned (some offset, held q m'))
      × Growing n 0 q m'
put-terminates garbage n key min_unit fuel t p m room g last some_bytes enough =
    let (r, e, stored) =
      Succeeds-returned
        (put-Succeeds garbage n key min_unit fuel t p m room g last some_bytes enough) in
    let (offset, q, off, page, h) = stored in
    (
      offset,
      q,
      r.1.manager,
      e
          ∙ ap (λ (o : Option ℕ). returned (o, r.1)) off
          ∙ ap (λ (s : Option Page). returned (some offset, record r.1 { page = s })) page,
      h,
    )
