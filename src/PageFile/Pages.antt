-- ===== src/PageFile/Pages.antt =====
-- A stream of jni/KvDB/SMDPageFile.cpp that spreads over pages of a file: the pages as they are in the
-- file, and what writing one of them leaves of the others.
pub mod Filled
pub mod Landing
pub mod Loop
pub mod Stored
pub mod Turn
pub mod Long
pub mod Serves
pub mod Gather
pub mod Opened
pub mod RoundTrip
use native.Mathlib.Nat.{mul-le-mul_right}
use leveldblib.Prelude.{
  ℕ, zero, suc, ◌+◌, ◌-◌, ◌*◌, ◌^◌, ◌≤◌, ◌<◌, ◌≡◌, refl, sym, ap, subst, ◌∙◌, false, some, List, [],
  ◌∷◌, ltb, ◌++◌, length, take, drop, replicate, ◌==◌, arith, length-append, length-take,
  length-drop, length-replicate, Bool-cases, inl, inr,
}
use leveldblib.Memory.{load, replaced, drop-take, take-replaced, drop-replaced_behind}
use leveldblib.Page.{Page, head_size}
use leveldblib.Page.Inv.{IsValid}
use leveldblib.Page.Head.{pushed}
use leveldblib.PageManager.{put_bytes}
use leveldblib.PageManager.Save.{take-drop-put_bytes}

-- The bytes of a page of `n` bytes in a file.
abbrev pub page_at : ℕ → List ℕ → ℕ → List ℕ
page_at n file j = take n (drop (j * n) file)

-- A page object, and the file that has its block.
pub record OnFile (n : ℕ) (file : List ℕ) (p : Page) : Type 0 where
  pub valid : IsValid p
  pub size : p.size ≡ n
  pub next : p.next < 2 ^ 32
  pub reserve1 : p.reserve1 < 2 ^ 16
  pub there : page_at n file p.pageno ≡ pushed p

-- The bytes from a place of a page on, and on the pages behind it.
pub data Spreads (n : ℕ) (file : List ℕ) : Page → ℕ → List ℕ → Type 0 where
  ends :
      {p : Page} {at : ℕ} {bytes : List ℕ}
      → at + length bytes ≤ n - p.space
      → load at (length bytes) (pushed p) ≡ some bytes
      → Spreads n file p at bytes
  goes_on :
      {p : Page} {at : ℕ} {xs ys : List ℕ} (q : Page)
      → p.space ≡ 0
      → at + length xs ≡ n
      → load at (length xs) (pushed p) ≡ some xs
      → OnFile n file q
      → p.next ≡ q.pageno
      → (p.pageno == q.pageno) ≡ false
      → 0 < q.pageno
      → q.pageno * n < 2 ^ 31
      → 0 < length ys
      → Spreads n file q head_size ys
      → Spreads n file p at (xs ++ ys)

pub page_at-put_bytes :
    (n j : ℕ) (bytes file : List ℕ)
    → length bytes ≡ n
    → page_at n (put_bytes (j * n) bytes file) j ≡ bytes
page_at-put_bytes n j bytes file e =
    subst (λ (k : ℕ). take k (drop (j * n) (put_bytes (j * n) bytes file)) ≡ bytes) e
      (take-drop-put_bytes (j * n) bytes file).0

-- A page that a file has is inside it.
pub page_at-le :
    (n j : ℕ) (file xs : List ℕ)
    → 0 < n
    → length xs ≡ n
    → page_at n file j ≡ xs
    → j * n + n ≤ length file
page_at-le n j file xs pos e h =
    omega (arith, pos, e, ap length h, length-take n (drop (j * n) file), length-drop (j * n) file)

take_of_append : (k : ℕ) (xs ys : List ℕ) → k ≤ length xs → take k (xs ++ ys) ≡ take k xs
take_of_append zero xs ys h = refl
take_of_append (suc k) [] ys h = absurd (omega arith)
take_of_append (suc k) (x ∷ xs) ys h = ap (◌∷◌ x) (take_of_append k xs ys (omega arith))

-- A file of at most `limit` pages stays one where one of those pages is written.
pub length-put_bytes-le :
    (n limit i : ℕ) (bytes file : List ℕ)
    → length bytes ≡ n
    → i < limit
    → length file ≤ limit * n
    → length (put_bytes (i * n) bytes file) ≤ limit * n
unfolding put_bytes
length-put_bytes-le n limit i bytes file e small h =
    let gap = replicate (i * n - length file) 0 in
    let padded = file ++ gap in
    let behind = drop (i * n + length bytes) padded in
    omega (
      arith,
      length-append (take (i * n) padded) (bytes ++ behind),
      length-append bytes behind,
      length-take (i * n) padded,
      length-drop (i * n + length bytes) padded,
      length-append file gap,
      length-replicate {A = ℕ} (i * n - length file) 0,
      mul-le-mul_right n small,
      e,
      h,
    )

-- Writing a page leaves the others.
pub page_at-put_bytes_of_other :
    (n i j : ℕ) (bytes file xs : List ℕ)
    → 0 < n
    → (j == i) ≡ false
    → length bytes ≡ n
    → length xs ≡ n
    → page_at n file j ≡ xs
    → page_at n (put_bytes (i * n) bytes file) j ≡ xs
unfolding put_bytes
page_at-put_bytes_of_other n i j bytes file xs pos other b e h =
    let padded = file ++ replicate (i * n - length file) 0 in
    let inside = page_at-le n j file xs pos e h in
    let room : i * n ≤ length padded = omega (
      arith,
      length-append file (replicate (i * n - length file) 0),
      length-replicate {A = ℕ} (i * n - length file) 0,
    ) in
    let same : take n (drop (j * n) padded) ≡ xs =
      sym (drop-take (j * n) n padded)
      ∙ ap (drop (j * n))
          (take_of_append (j * n + n) file (replicate (i * n - length file) 0) inside)
      ∙ drop-take (j * n) n file
      ∙ h in
    elim (Bool-cases (ltb j i)) [
      | inl t ↦
          let next : suc j ≤ i = ground (arith, t) in
          let before : j * n + n ≤ i * n = omega (arith, mul-le-mul_right n next) in
          sym (drop-take (j * n) n (replaced (i * n) bytes padded))
          ∙ ap (drop (j * n)) (take-replaced (i * n) bytes padded (j * n + n) room before)
          ∙ drop-take (j * n) n padded
          ∙ same
      | inr f ↦
          let next : suc i ≤ j = ground (arith, f, other) in
          let behind : i * n + n ≤ j * n = omega (arith, mul-le-mul_right n next) in
          ap (take n)
            (drop-replaced_behind (i * n) bytes padded (j * n) room (omega (arith, b, behind)))
          ∙ same
    ]
