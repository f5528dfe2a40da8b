-- ===== src/Order/Sorted.antt =====
-- Laws of sorted association lists.
use leveldblib.Prelude.{
  ℕ, Bool, true, false, not, ◌&&◌, ◌≡◌, refl, List, [], ◌∷◌, ◌++◌, Option, none, some,
  if◌then◌else◌, arith, Bool-cases, Option-cases, inl, inr, sym, subst,
}
use leveldblib.Order.{IsOrder, Assoc, All, Below, Above, Sorted, lookup, put, put_new}

module _ {ℓ κ} {E : Type ℓ} (holds : E → Type κ) where
  -- What holds of the entries of two lists holds of those of both in a row, and back.
  pub All-append : (es fs : List E) → All holds es → All holds fs → All holds (es ++ fs)
  All-append (e ∷ es) fs (one, more) last = (one, All-append es fs more last)
  All-append [] fs more last = last

  pub All-append_inv : (es fs : List E) → All holds (es ++ fs) → All holds es × All holds fs
  All-append_inv (e ∷ es) fs (one, more) =
      let (left, right) = All-append_inv es fs more in ((one, left), right)
  All-append_inv [] fs more = (tt, more)

  All-imp :
      (other : E → Type κ) (es : List E)
      → ((e : E) → holds e → other e)
      → All holds es
      → All other es
  All-imp other (e ∷ es) step (one, more) = (step e one, All-imp other es step more)
  All-imp other [] step more = tt

module _ {K : Type 0} (lt : K → K → Bool) (ord : IsOrder lt) where
  open ord use {irrefl, trans, connex}

  pub lt_asymm : (a b : K) → lt a b ≡ true → lt b a ≡ false
  lt_asymm a b h = elim (Bool-cases (lt b a)) [
    | inl t ↦ ground (arith, trans a b a h t, irrefl a)
    | inr f ↦ f
  ]

  pub Above-trans : (a b : K) (xs : Assoc K) → lt a b ≡ true → Above lt b xs → Above lt a xs
  Above-trans a b xs h =
      All-imp (λ e. lt b e.0 ≡ true) (λ e. lt a e.0 ≡ true) xs (λ e. trans a b e.0 h)

  pub Below-trans : (a b : K) (xs : Assoc K) → lt a b ≡ true → Below lt a xs → Below lt b xs
  Below-trans a b xs h =
      All-imp (λ e. lt e.0 a ≡ true) (λ e. lt e.0 b ≡ true) xs (λ e p. trans e.0 a b p h)

  -- A sorted list that has an entry in the middle.
  pub record Around (k : K) (v : ℕ) (xs ys : Assoc K) : Type 0 where
    pub left : Sorted lt xs
    pub right : Sorted lt ys
    pub below : Below lt k xs
    pub above : Above lt k ys

  pub Sorted-append_inv : (xs ys : Assoc K) → Sorted lt (xs ++ ys) → Sorted lt xs × Sorted lt ys
  Sorted-append_inv [] ys h = (tt, h)
  Sorted-append_inv (x ∷ xs) ys h =
      let (l, r) = Sorted-append_inv xs ys h.1 in
      (((All-append_inv (λ e. lt x.0 e.0 ≡ true) xs ys h.0).0, l), r)

  pub Sorted-Around :
      (xs : Assoc K) (k : K) (v : ℕ) (ys : Assoc K)
      → Sorted lt (xs ++ ((k, v) ∷ ys))
      → Around k v xs ys
  Sorted-Around [] k v ys h = record { left = tt; right = h.1; below = tt; above = h.0 }
  Sorted-Around (x ∷ xs) k v ys h =
      let r = Sorted-Around xs k v ys h.1 in
      let (a, b) = All-append_inv (λ e. lt x.0 e.0 ≡ true) xs ((k, v) ∷ ys) h.0 in
      record { left = (a, r.left); right = r.right; below = (b.0, r.below); above = r.above }

  pub lookup-append-Below :
      (k : K) (xs ys : Assoc K) → Below lt k xs → lookup lt k (xs ++ ys) ≡ lookup lt k ys
  unfolding lookup
  lookup-append-Below k [] ys h = refl
  lookup-append-Below k (x ∷ xs) ys h = ground (arith, lookup-append-Below k xs ys h.1)

  pub lookup_of_Above : (k : K) (xs : Assoc K) → Above lt k xs → lookup lt k xs ≡ none
  unfolding lookup
  lookup_of_Above k [] h = refl
  lookup_of_Above k (x ∷ xs) h = ground (arith, lookup_of_Above k xs h.1)

  pub lookup-append-Above :
      (k : K) (xs ys : Assoc K) → Above lt k ys → lookup lt k (xs ++ ys) ≡ lookup lt k xs
  unfolding lookup
  lookup-append-Above k [] ys h = lookup_of_Above k ys h
  lookup-append-Above k (x ∷ xs) ys h = ground (arith, lookup-append-Above k xs ys h)

  pub lookup_here :
      (v : ℕ) (xs ys : Assoc K) (k : K) → Below lt k xs → lookup lt k (xs ++ ((k, v) ∷ ys)) ≡ some v
  unfolding lookup
  lookup_here v [] ys k h = ground (arith, irrefl k)
  lookup_here v (x ∷ xs) ys k h = ground (arith, lookup_here v xs ys k h.1)

  pub put-append-Below :
      (k : K) (v : ℕ) (xs ys : Assoc K)
      → Below lt k xs
      → put lt k v (xs ++ ys) ≡ xs ++ put lt k v ys
  unfolding put
  put-append-Below k v [] ys h = refl
  put-append-Below k v (x ∷ xs) ys h = ground (arith, put-append-Below k v xs ys h.1)

  pub put_of_Above : (k : K) (v : ℕ) (ys : Assoc K) → Above lt k ys → put lt k v ys ≡ (k, v) ∷ ys
  unfolding put
  put_of_Above k v [] h = refl
  put_of_Above k v (y ∷ ys) h = ground (arith, lt_asymm k y.0 h.0)

  pub put-append-Above :
      (k : K) (v : ℕ) (xs ys : Assoc K)
      → Above lt k ys
      → put lt k v (xs ++ ys) ≡ put lt k v xs ++ ys
  unfolding put
  put-append-Above k v [] ys h = put_of_Above k v ys h
  put-append-Above k v (x ∷ xs) ys h = ground (arith, put-append-Above k v xs ys h)

  -- Reading after `put`, and the order it keeps.
  pub lookup-put :
      (j k : K) (v : ℕ) (xs : Assoc K)
      → lookup lt j (put lt k v xs)
        ≡ (if not (lt k j) && not (lt j k) then some v else lookup lt j xs)
  unfolding lookup put
  lookup-put j k v [] = refl
  lookup-put j k v (x ∷ xs) =
      ground (arith, lookup-put j k v xs, connex x.0 j, connex k j, irrefl j)

  pub Above-put :
      (j k : K) (v : ℕ) (xs : Assoc K) → lt j k ≡ true → Above lt j xs → Above lt j (put lt k v xs)
  unfolding put
  Above-put j k v [] h a = (h, tt)
  Above-put j k v (x ∷ xs) h a = elim (Bool-cases (lt x.0 k)) [
    | inl t ↦ rw t (a.0, Above-put j k v xs h a.1)
    | inr f ↦ rw f (h, a)
  ]

  pub Sorted-put :
      (k : K) (v : ℕ) (xs : Assoc K)
      → lookup lt k xs ≡ none
      → Sorted lt xs
      → Sorted lt (put lt k v xs)
  unfolding put lookup
  Sorted-put k v [] n s = (tt, tt)
  Sorted-put k v (x ∷ xs) n s = elim (Bool-cases (lt x.0 k)) [
    | inl t ↦ rw t (Above-put x.0 k v xs t s.0, Sorted-put k v xs (ground arith) s.1)
    | inr f ↦ let g : lt k x.0 ≡ true = ground arith in rw f ((g, Above-trans k x.0 xs g s.0), s)
  ]

  pub put_new_of_none :
      (k : K) (v : ℕ) (xs : Assoc K) → lookup lt k xs ≡ none → put_new lt k v xs ≡ put lt k v xs
  unfolding put_new
  put_new_of_none k v xs n = rw (put_new, n) refl

  pub put_new_of_some :
      (k : K) (v w : ℕ) (xs : Assoc K) → lookup lt k xs ≡ some w → put_new lt k v xs ≡ xs
  unfolding put_new
  put_new_of_some k v w xs n = rw (put_new, n) refl

  -- The first hit of two lists in a row.
  abbrev pub or_else : Option ℕ → Option ℕ → Option ℕ
  or_else none b = b
  or_else (some a) b = some a

  pub lookup-append :
      (k : K) (xs ys : Assoc K) → lookup lt k (xs ++ ys) ≡ or_else (lookup lt k xs) (lookup lt k ys)
  unfolding lookup
  lookup-append k [] ys = refl
  lookup-append k (x ∷ xs) ys = elim (Bool-cases (not (lt x.0 k) && not (lt k x.0))) [
    | inl t ↦ rw t refl
    | inr f ↦ rw f (lookup-append k xs ys)
  ]

  or_else-none : (a : Option ℕ) → or_else a none ≡ a
  or_else-none none = refl
  or_else-none (some v) = refl

  lookup_last :
      (j k : K) (v : ℕ)
      → lookup lt j ((k, v) ∷ []) ≡ (if not (lt k j) && not (lt j k) then some v else none)
  unfolding lookup
  lookup_last j k v = refl

  pub lookup-put_new :
      (j k : K) (v : ℕ) (xs : Assoc K)
      → lookup lt j (put_new lt k v xs) ≡ lookup lt j (xs ++ ((k, v) ∷ []))
  lookup-put_new j k v xs =
      rw (lookup-append j xs ((k, v) ∷ []), lookup_last j k v)
        (elim (Bool-cases (not (lt k j) && not (lt j k))) [
          | inl t ↦
              let e : k ≡ j = connex k j (ground arith) (ground arith) in
              elim (Option-cases (lookup lt k xs)) [
                | inl n ↦
                    let n' = subst (λ i. lookup lt i xs ≡ none) e n in
                    rw (put_new_of_none k v xs n, lookup-put j k v xs, t, n') refl
                | inr (w, s) ↦
                    let s' = subst (λ i. lookup lt i xs ≡ some w) e s in
                    rw (put_new_of_some k v w xs s, t, s') refl
              ]
          | inr f ↦ elim (Option-cases (lookup lt k xs)) [
            | inl n ↦
                rw (put_new_of_none k v xs n, lookup-put j k v xs, f)
                  (sym (or_else-none (lookup lt j xs)))
            | inr (w, s) ↦ rw (put_new_of_some k v w xs s, f) (sym (or_else-none (lookup lt j xs)))
          ]
        ])
