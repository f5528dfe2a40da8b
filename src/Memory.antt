-- ===== src/Memory.antt =====
-- Blocks of memory as the page code of jni/KvDB uses them: `memcpy`, `memset` and `strcpy` to and
-- from a buffer of a known size. An access that leaves the buffer is undefined in C++, and `none`.
use leveldblib.Prelude.{
  ℕ, zero, suc, ◌+◌, ◌-◌, ◌≤◌, ◌≡◌, refl, sym, ap, ◌∙◌, Option, none, some, List, [], ◌∷◌, ◌++◌,
  leb, if◌then◌else◌, length, take, drop, arith, length-append, length-take, length-drop,
  take-length-append, drop-length-append, take-add, drop-add, drop-take-append, append_assoc,
  take_of_length-le,
}

-- `n` bytes from `buffer + at`.
unfoldable pub load : ℕ → ℕ → List ℕ → Option (List ℕ)
load at n buffer = if leb (at + n) (length buffer) then some (take n (drop at buffer)) else none

-- `bytes` to `buffer + at`.
abbrev pub replaced : ℕ → List ℕ → List ℕ → List ℕ
replaced at bytes buffer = take at buffer ++ (bytes ++ drop (at + length bytes) buffer)

unfoldable pub store : ℕ → List ℕ → List ℕ → Option (List ℕ)
store at bytes buffer =
    if leb (at + length bytes) (length buffer) then some (replaced at bytes buffer) else none

pub store_fits :
    (at : ℕ) (bytes buffer : List ℕ)
    → at + length bytes ≤ length buffer
    → store at bytes buffer ≡ some (replaced at bytes buffer)
unfolding store
store_fits at bytes buffer h = ground (arith, h)

pub load_fits :
    (at n : ℕ) (buffer : List ℕ)
    → at + n ≤ length buffer
    → load at n buffer ≡ some (take n (drop at buffer))
unfolding load
load_fits at n buffer h = ground (arith, h)

pub length-replaced :
    (at : ℕ) (bytes buffer : List ℕ)
    → at + length bytes ≤ length buffer
    → length (replaced at bytes buffer) ≡ length buffer
length-replaced at bytes buffer h = omega (
  arith,
  length-append (take at buffer) (bytes ++ drop (at + length bytes) buffer),
  length-append bytes (drop (at + length bytes) buffer),
  length-take at buffer,
  length-drop (at + length bytes) buffer,
)

-- The bytes written, and what follows them.
pub drop-replaced :
    (at : ℕ) (bytes buffer : List ℕ)
    → at ≤ length buffer
    → drop at (replaced at bytes buffer) ≡ bytes ++ drop (at + length bytes) buffer
drop-replaced at bytes buffer h =
    drop-take-append at buffer (bytes ++ drop (at + length bytes) buffer) h

pub drop-replaced_behind :
    (at : ℕ) (bytes buffer : List ℕ) (from : ℕ)
    → at ≤ length buffer
    → at + length bytes ≤ from
    → drop from (replaced at bytes buffer) ≡ drop from buffer
drop-replaced_behind at bytes buffer from h g =
    let k = from - (at + length bytes) in
    let e : from ≡ at + (length bytes + k) = omega arith in
    let e' : from ≡ (at + length bytes) + k = omega arith in
    let both = at + length bytes in
    ap (λ (n : ℕ). drop n (replaced at bytes buffer)) e
    ∙ drop-add at (length bytes + k) (replaced at bytes buffer)
    ∙ ap (drop (length bytes + k)) (drop-replaced at bytes buffer h)
    ∙ drop-add (length bytes) k (bytes ++ drop both buffer)
    ∙ ap (drop k) (drop-length-append bytes (drop both buffer))
    ∙ sym (drop-add both k buffer)
    ∙ ap (λ (n : ℕ). drop n buffer) (sym e')

pub take-replaced :
    (at : ℕ) (bytes buffer : List ℕ) (n : ℕ)
    → at ≤ length buffer
    → n ≤ at
    → take n (replaced at bytes buffer) ≡ take n buffer
take-replaced at bytes buffer n h g =
    take_of_take n at buffer (bytes ++ drop (at + length bytes) buffer) h g
  where
    take_of_take :
        (n at : ℕ) (xs ys : List ℕ)
        → at ≤ length xs
        → n ≤ at
        → take n (take at xs ++ ys) ≡ take n xs
    take_of_take zero at xs ys h g = refl
    take_of_take (suc n) zero xs ys h g = absurd (omega arith)
    take_of_take (suc n) (suc at) [] ys h g = absurd (omega arith)
    take_of_take (suc n) (suc at) (x ∷ xs) ys h g =
        ap (◌∷◌ x) (take_of_take n at xs ys (omega arith) (omega arith))

pub take-replaced_to_end :
    (at : ℕ) (bytes buffer : List ℕ)
    → at ≤ length buffer
    → take (at + length bytes) (replaced at bytes buffer) ≡ take at buffer ++ bytes
take-replaced_to_end at bytes buffer h =
    let rest = drop (at + length bytes) buffer in
    take-add at (length bytes) (replaced at bytes buffer)
    ∙ ap (λ xs. xs ++ take (length bytes) (drop at (replaced at bytes buffer)))
        (take-replaced at bytes buffer at h (omega arith))
    ∙ ap (λ xs. take at buffer ++ take (length bytes) xs) (drop-replaced at bytes buffer h)
    ∙ ap (λ xs. take at buffer ++ xs) (take-length-append bytes rest)

-- Two writes side by side are one.
pub replaced-replaced :
    (at : ℕ) (xs ys buffer : List ℕ)
    → at ≤ length buffer
    → replaced (at + length xs) ys (replaced at xs buffer) ≡ replaced at (xs ++ ys) buffer
replaced-replaced at xs ys buffer h =
    let both : at + length xs + length ys ≡ at + length (xs ++ ys) =
      omega (arith, length-append xs ys) in
    ap (λ zs. zs ++ (ys ++ drop (at + length xs + length ys) (replaced at xs buffer)))
      (take-replaced_to_end at xs buffer h)
    ∙ ap (λ zs. (take at buffer ++ xs) ++ (ys ++ zs))
        (drop-replaced_behind at xs buffer (at + length xs + length ys) h (omega arith)
          ∙ ap (λ (n : ℕ). drop n buffer) both)
    ∙ simp append_assoc

-- What is read inside the bytes written.
pub load-replaced :
    (at k n : ℕ) (bytes buffer : List ℕ)
    → at + length bytes ≤ length buffer
    → k + n ≤ length bytes
    → load (at + k) n (replaced at bytes buffer)
      ≡ some (take n (drop k (bytes ++ drop (at + length bytes) buffer)))
load-replaced at k n bytes buffer h g =
    load_fits (at + k) n (replaced at bytes buffer)
      (omega (arith, length-replaced at bytes buffer h))
    ∙ ap (λ xs. some (take n xs))
        (drop-add at k (replaced at bytes buffer)
          ∙ ap (drop k) (drop-replaced at bytes buffer (omega arith)))

pub drop-take : (a n : ℕ) (xs : List ℕ) → drop a (take (a + n) xs) ≡ take n (drop a xs)
drop-take zero n xs = ap (λ (k : ℕ). take k xs) (omega arith)
drop-take (suc a) n [] =
    ap (drop (suc a)) (take_of_length-le {A = ℕ} (suc a + n) [] (omega arith))
    ∙ sym (take_of_length-le {A = ℕ} n [] (omega arith))
drop-take (suc a) n (x ∷ xs) =
    let e : suc a + n ≡ suc (a + n) = omega arith in rw e (drop-take a n xs)

-- What is read before the bytes written, or behind them, is what was there.
pub load-replaced_before :
    (at : ℕ) (bytes buffer : List ℕ) (from n : ℕ)
    → at + length bytes ≤ length buffer
    → from + n ≤ at
    → load from n (replaced at bytes buffer) ≡ load from n buffer
load-replaced_before at bytes buffer from n h g =
    load_fits from n (replaced at bytes buffer) (omega (arith, length-replaced at bytes buffer h))
    ∙ ap some (
        sym (drop-take from n (replaced at bytes buffer))
        ∙ ap (drop from) (take-replaced at bytes buffer (from + n) (omega arith) g)
        ∙ drop-take from n buffer)
    ∙ sym (load_fits from n buffer (omega arith))

pub load-replaced_behind :
    (at : ℕ) (bytes buffer : List ℕ) (from n : ℕ)
    → at + length bytes ≤ length buffer
    → at + length bytes ≤ from
    → from + n ≤ length buffer
    → load from n (replaced at bytes buffer) ≡ load from n buffer
load-replaced_behind at bytes buffer from n h g e =
    load_fits from n (replaced at bytes buffer) (omega (arith, length-replaced at bytes buffer h))
    ∙ ap (λ xs. some (take n xs)) (drop-replaced_behind at bytes buffer from (omega arith) g)
    ∙ sym (load_fits from n buffer e)

-- All that was written is read back.
pub load-replaced_same :
    (at : ℕ) (bytes buffer : List ℕ)
    → at + length bytes ≤ length buffer
    → load at (length bytes) (replaced at bytes buffer) ≡ some bytes
load-replaced_same at bytes buffer h =
    load_fits at (length bytes) (replaced at bytes buffer)
      (omega (arith, length-replaced at bytes buffer h))
    ∙ ap (λ xs. some (take (length bytes) xs)) (drop-replaced at bytes buffer (omega arith))
    ∙ ap some (take-length-append bytes (drop (at + length bytes) buffer))
