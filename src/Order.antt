-- ===== src/Order.antt =====
-- Strict orders given by a Boolean `operator<`, and association lists sorted by one: the abstract
-- view of the index trees of jni/KvDB/SMDIndexSegment.h.
pub mod Sorted
use leveldblib.Prelude.{
  ℕ, Bool, true, false, not, ◌&&◌, ◌≡◌, List, [], ◌∷◌, Option, none, some, if◌then◌else◌,
}

pub record IsOrder {K : Type 0} (lt : K → K → Bool) : Type 0 where
  pub irrefl : (a : K) → lt a a ≡ false
  pub trans : (a b c : K) → lt a b ≡ true → lt b c ≡ true → lt a c ≡ true
  pub connex : (a b : K) → lt a b ≡ false → lt b a ≡ false → a ≡ b

-- Keys with the offsets of their data.
abbrev pub Assoc : Type 0 → Type 0
Assoc K = List (K × ℕ)

abbrev pub All {ℓ κ} : {A : Type ℓ} (holds : A → Type κ) → List A → Type κ
All holds (e ∷ es) = holds e × All holds es
All holds [] = Unit

module _ {K : Type 0} (lt : K → K → Bool) where
  abbrev pub Below : K → Assoc K → Type 0
  Below k = All (λ e. lt e.0 k ≡ true)

  abbrev pub Above : K → Assoc K → Type 0
  Above k = All (λ e. lt k e.0 ≡ true)

  abbrev pub Sorted : Assoc K → Type 0
  Sorted [] = Unit {0}
  Sorted (e ∷ xs) = Above e.0 xs × Sorted xs

  -- The first entry whose key is neither below nor above `k`.
  unfoldable pub lookup : K → Assoc K → Option ℕ
  lookup k [] = none
  lookup k ((j, v) ∷ xs) =
      let rest = lookup k xs in if not (lt j k) && not (lt k j) then some v else rest

  -- A new entry in its place.
  unfoldable pub put : K → ℕ → Assoc K → Assoc K
  put k v [] = (k, v) ∷ []
  put k v ((j, w) ∷ xs) =
      let rest = put k v xs in if lt j k then (j, w) ∷ rest else (k, v) ∷ ((j, w) ∷ xs)

  -- A new entry in its place, unless its key is present.
  unfoldable pub put_new : K → ℕ → Assoc K → Assoc K
  put_new k v xs = elim (lookup k xs) [ none ↦ put k v xs | some w ↦ xs ]

abbrev pub is_none {ℓ} : {A : Type ℓ} → Option A → Bool
is_none none = true
is_none (some a) = false
