-- ===== src/PageFile/Pages/Long.antt =====
-- jni/KvDB/SMDPageFile.cpp: `put` of a stream that does not fit the last page of its file.
use leveldblib.Prelude.{
  ℕ, zero, suc, ◌+◌, ◌*◌, ◌^◌, ◌≤◌, ◌<◌, ◌≡◌, refl, ap, subst, true, false, Option, some, List, [],
  ◌∷◌, length, ltb, leb, ◌==◌, arith, Bool-cases, inl, inr,
}
use leveldblib.Stream.{MemStream}
use leveldblib.Page.{Page}
use leveldblib.PageTable.{PageKey, get_last_page_no}
use leveldblib.PageManager.{Manager, get_page_by_page_no, load_page}
use leveldblib.PageFile.Put
use leveldblib.PageFile.{State, held, ◌>>=◌}
use leveldblib.PageFile.Put.{Writing, put_turn, put_loop, put_found, put}
use leveldblib.PageFile.Put.Growing.{
  cleaned, in_file, save_marked, succeeds, Succeeds, >>=-Succeeds, Growing,
}
use leveldblib.PageFile.Pages.Stored.{Stored, Within}
use leveldblib.PageFile.Pages.Turn.{Ready, skip-Ready, fill-Ready}

module _ (garbage : ℕ → List ℕ) (n limit min_unit : ℕ) (bytes : List ℕ) where
  -- The stream in the file that a page is saved to last.
  abbrev Written : Writing → Type 0
  Written = Ready garbage n limit min_unit bytes

  put_turn-Ready :
      (k : ℕ) (p : Page) (m : Manager)
      → min_unit + 16 ≤ n
      → 4 ≤ min_unit
      → p.reserve1 < 2 ^ 16
      → Within n limit (suc k) p m
      → Growing n (suc k) p m
      → 0 < length bytes
      → length bytes ≤ k
      → Succeeds Written (
          put_turn garbage min_unit
            (length bytes)
            bytes
            (record { started = false; offset = 0; page = p; manager = m })
          >>= λ x. put_loop garbage min_unit (length bytes) k x.0 x.1)
  unfolding put_turn
  put_turn-Ready k p m room four hr within g some_bytes enough =
      elim (Bool-cases (ltb p.space min_unit)) [
        | inl t ↦
            rw t (skip-Ready garbage n limit min_unit bytes k p m room g within some_bytes enough)
        | inr f ↦ rw f (
            fill-Ready garbage n limit min_unit bytes k p m room four (ground (arith, f)) hr within
              g some_bytes enough)
      ]

  put_loop-Ready :
      (fuel : ℕ) (p : Page) (m : Manager) (left : List ℕ)
      → bytes ≡ left
      → min_unit + 16 ≤ n
      → 4 ≤ min_unit
      → p.reserve1 < 2 ^ 16
      → Within n limit fuel p m
      → Growing n fuel p m
      → 0 < length bytes
      → length bytes < fuel
      → Succeeds Written (
          put_loop garbage min_unit
            (length bytes)
            fuel
            left
            (record { started = false; offset = 0; page = p; manager = m }))
  unfolding put_loop
  put_loop-Ready fuel p m [] e room four hr within g some_bytes enough =
      absurd (omega (arith, some_bytes, ap length e))
  put_loop-Ready zero p m (b ∷ bs) e room four hr within g some_bytes enough =
      absurd (omega (arith, enough))
  put_loop-Ready (suc k) p m (b ∷ bs) e room four hr within g some_bytes enough =
      subst
        (λ (left : List ℕ). Succeeds Written (
          put_turn garbage min_unit (length bytes) left
            (record { started = false; offset = 0; page = p; manager = m })
          >>= λ x. put_loop garbage min_unit (length bytes) k x.0 x.1))
        e (put_turn-Ready k p m room four hr within g some_bytes (omega (arith, enough)))

  -- The offset, and the page held in the manager that has the stream.
  abbrev Result : Option ℕ × State → Type 0
  Result r =
      (offset : ℕ) × (q : Page) × (m' : Manager) × (r ≡ (some offset, held q m'))
      × Stored n min_unit bytes m'.cache.file offset
      × (length m'.cache.file ≤ limit * n)

  pub put_of_long :
      (key : PageKey) (fuel : ℕ) (t : MemStream) (p : Page) (m : Manager)
      → t.buf ≡ bytes
      → min_unit + 16 ≤ n
      → 4 ≤ min_unit
      → p.reserve1 < 2 ^ 16
      → Within n limit fuel p m
      → Growing n fuel p m
      → get_last_page_no key m.inner ≡ p.pageno
      → 0 < length bytes
      → p.space < length bytes + 4
      → length bytes < fuel
      → Succeeds Result (put garbage key min_unit fuel t (held p m))
  unfolding put put_found Put.put_bytes get_page_by_page_no load_page
  put_of_long key fuel t p m e room four hr within g last some_bytes long enough =
      let self : (p.pageno == p.pageno) ≡ true = ground arith in
      let more : (length bytes == 0) ≡ false = ground (arith, some_bytes) in
      let in_pieces : leb (length bytes + 4) p.space ≡ false = ground (arith, long) in
      rw (last, self, e, more, in_pieces)
        (>>=-Succeeds (put_loop-Ready fuel p m bytes refl room four hr within g some_bytes enough)
          λ v ready.
            let (h, marked, stored, short) = ready in
            rw (save_marked n 0 v.page v.manager h marked).0 (
              succeeds (v.offset, cleaned v.page, in_file n v.page v.manager, refl, stored, short)))
