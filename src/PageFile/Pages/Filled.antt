-- ===== src/PageFile/Pages/Filled.antt =====
-- jni/KvDB/SMDPageFile.cpp: one turn of the loop of `put` that fills the page behind what it holds, and
-- the page that it goes on to.
use leveldblib.Prelude.{
  ℕ, suc, ◌+◌, ◌-◌, ◌≤◌, ◌<◌, ◌≡◌, refl, sym, ap, ap₂, subst, ◌∙◌, Bool, true, some, List, [], ◌∷◌,
  ◌++◌, leb, length, take, drop, min, ◌==◌, arith, length-take, length-drop, take-append-drop,
  take_of_length-le, drop_of_length-le, Bool-cases, inl, inr,
}
use leveldblib.Page.{Page, write}
use leveldblib.Page.Inv.{IsValid, write_lem}
use leveldblib.Page.Content.{written, write_fits, written-IsValid}
use leveldblib.PageManager.{Manager}
use leveldblib.PageFile.Put.{Writing, put_fill, put_more, start}
use leveldblib.PageFile.Put.Growing.{
  cleaned, in_file, save_marked, succeeds, Succeeds, >>=-Succeeds, weaker, Growing, fewer, changed,
}
use leveldblib.PageFile.Put.Turns.{Moved, next_page_moves}

-- A write behind the length.
abbrev pub writing : ℕ → Page → Manager → Writing
writing offset p m = record { started = true; offset = offset; page = p; manager = m }

-- A buffer that fits, also on a page that is full and marked.
pub write_up_to :
    (bytes : List ℕ) (p : Page)
    → IsValid p
    → length bytes ≤ p.space
    → (p.space ≡ 0 → p.modify ≡ true)
    → write bytes p ≡ some (length bytes, written bytes p)
write_up_to bytes p v h full = elim (Bool-cases (p.space == 0)) [
  | inr f ↦ write_fits bytes p v h (ground (arith, f))
  | inl t ↦
      let none_free : p.space ≡ 0 = ground (arith, t) in
      let no_bytes : bytes ≡ [] = sym (take_of_length-le 0 bytes (omega (arith, h, none_free))) in
      let same : (take (p.size - p.space) p.block ++ drop (p.size - p.space + 0) p.block)
          ≡ p.block =
        ap (λ (k : ℕ). take (p.size - p.space) p.block ++ drop k p.block) (omega arith)
        ∙ take-append-drop (p.size - p.space) p.block in
      let marked : p ≡ written [] p =
        ap (λ (b : List ℕ). record p { block = b }) (sym same)
        ∙ ap
            (λ (f : Bool). record p {
              block = take (p.size - p.space) p.block ++ drop (p.size - p.space + 0) p.block;
              modify = f;
            })
            (full none_free)
        ∙ ap
            (λ (k : ℕ). record p {
              block = take (p.size - p.space) p.block ++ drop (p.size - p.space + 0) p.block;
              modify = true;
              space = k;
            })
            (omega arith) in
      rw (write_lem bytes p v, t, no_bytes)
        (ap (λ (k : ℕ). some (k, p)) (omega arith) ∙ ap (λ (q : Page). some (0, q)) marked)
]

module _ (garbage : ℕ → List ℕ) (n : ℕ) where
  -- What a turn leaves: all bytes on the page, or the page full and saved and the rest for the page
  -- behind it.
  pub data Filled (k offset : ℕ) (left : List ℕ) (p : Page) (m : Manager)
      : List ℕ × Writing → Type 0 where
    whole :
        length left ≤ p.space
        → Growing n k (written left p) m
        → Filled k offset left p m ([], writing offset (written left p) m)
    part :
        {q : Page} {m' : Manager}
        → p.space < length left
        → Growing n (suc k) (written (take p.space left) p) m
        → Moved n k
            (cleaned (written (take p.space left) p))
            (in_file n (written (take p.space left) p) m)
            q
            m'
        → Filled k offset left p m (drop p.space left, writing offset q m')

  more_lem :
      (k offset : ℕ) (left : List ℕ) (c : Page) (m : Manager)
      → Growing n (suc k) c m
      → c.modify ≡ true
      → 0 < length left
      → Succeeds
          (λ r.
            (r.0 ≡ left)
            × (q : Page) × (m' : Manager) × (r.1 ≡ writing offset q m')
            × Moved n k (cleaned c) (in_file n c m) q m')
          (put_more garbage left (writing offset c m))
  unfolding put_more
  more_lem k offset [] c m g dirty some_bytes = absurd (omega (arith, some_bytes))
  more_lem k offset (b ∷ bs) c m g dirty some_bytes =
      let (saved, g1) = save_marked n (suc k) c m g dirty in
      rw saved (
        >>=-Succeeds (next_page_moves garbage n k (cleaned c) (in_file n c m) g1)
          λ r moved. succeeds (refl, r.0, r.1, refl, moved))

  pub put_fill-Filled :
      (size k offset : ℕ) (left : List ℕ) (p : Page) (m : Manager)
      → Growing n (suc k) p m
      → (p.space ≡ 0 → p.modify ≡ true)
      → Succeeds (Filled k offset left p m) (put_fill garbage size left (writing offset p m))
  unfolding put_fill start put_more
  put_fill-Filled size k offset left p m g full = elim (Bool-cases (leb (length left) p.space)) [
    | inl t ↦
        let fits : length left ≤ p.space = ground (arith, t) in
        let c : min p.space (length left) ≡ length left = omega (arith, fits) in
        let g1 : Growing n k (written left p) m = fewer n k (written left p) m (
          changed n (suc k) p (written left p) m g (written-IsValid left p g.valid fits) refl refl
            refl) in
        rw
          (
            c,
            take_of_length-le (length left) left (omega arith),
            drop_of_length-le (length left) left (omega arith),
            write_up_to left p g.valid fits full,
          )
          (succeeds (whole fits g1))
    | inr f ↦
        let over : p.space < length left = ground (arith, f) in
        let c : min p.space (length left) ≡ p.space = omega (arith, over) in
        let xs = take p.space left in
        let fits : length xs ≤ p.space = omega (arith, length-take p.space left) in
        let g1 : Growing n (suc k) (written xs p) m =
          changed n (suc k) p (written xs p) m g (written-IsValid xs p g.valid fits) refl refl
            refl in
        rw (c, write_up_to xs p g.valid fits full)
          (weaker
            (more_lem k offset (drop p.space left) (written xs p) m g1 refl
              (omega (arith, length-drop p.space left, over)))
            λ r h.
              let (same_left, q, m', same, moved) = h in
              subst (Filled k offset left p m) (sym (ap₂ (λ l w. (l, w)) same_left same))
                (part over g1 moved))
  ]
