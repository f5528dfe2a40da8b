-- ===== src/BTree/Sort.antt =====
-- The `push_back` and `std::sort` of `SMDIndex::InsertAt` in jni/KvDB/SMDIndexSegment.h put a new key
-- between those below and those above it.
use leveldblib.Prelude.{ℕ, ◌≡◌, refl, ap, ◌∙◌, Bool, true, ◌∷◌, arith}
use leveldblib.Order.{IsOrder, All, Sorted}
use leveldblib.Order.Sorted.{All-append_inv, lt_asymm, Sorted-Around}
use leveldblib.BTree.{Tree, Keys, nil, key, Item, cons, join, push_back, insert_key, sort}
use leveldblib.BTree.Flat.{inorder, flat}

module _ {K : Type 0} where
  -- A predicate on each key of a node.
  abbrev pub AllKeys : (K → Type 0) → Keys K → Type 0
  AllKeys P nil = Unit {0}
  AllKeys P (key l k o ks) = P k × AllKeys P ks

  pub AllKeys-join :
      (P : K → Type 0) (xs ys : Keys K) → AllKeys P xs → AllKeys P ys → AllKeys P (join xs ys)
  unfolding join
  AllKeys-join P nil ys hx hy = hy
  AllKeys-join P (key l k o xs) ys hx hy = (hx.0, AllKeys-join P xs ys hx.1 hy)

  pub AllKeys-imp :
      (P Q : K → Type 0) (xs : Keys K) → ((k : K) → P k → Q k) → AllKeys P xs → AllKeys Q xs
  AllKeys-imp P Q nil f h = tt
  AllKeys-imp P Q (key l k o xs) f h = (f k h.0, AllKeys-imp P Q xs f h.1)

  -- What holds of each entry below a node's keys holds of the keys.
  pub AllKeys-flat : (P : K → Type 0) (ks : Keys K) → All (λ e. P e.0) (flat ks) → AllKeys P ks
  unfolding flat
  AllKeys-flat P nil h = tt
  AllKeys-flat P (key l k o ks) h =
      let (_, r) = All-append_inv (λ (e : K × ℕ). P e.0) (inorder l) ((k, o) ∷ flat ks) h in
      (r.0, AllKeys-flat P ks r.1)

module _ {K : Type 0} (lt : K → K → Bool) where
  abbrev pub SortedKeys : Keys K → Type 0
  SortedKeys nil = Unit {0}
  SortedKeys (key l k o ks) = AllKeys (λ j. lt k j ≡ true) ks × SortedKeys ks

  module _ (ord : IsOrder lt) where
    pub SortedKeys-flat : (ks : Keys K) → Sorted lt (flat ks) → SortedKeys ks
    unfolding flat
    SortedKeys-flat nil h = tt
    SortedKeys-flat (key l k o ks) h =
        let r = Sorted-Around lt ord (inorder l) k o (flat ks) h in
        (AllKeys-flat (λ j. lt k j ≡ true) ks r.above, SortedKeys-flat ks r.right)

    insert_key_least :
        (l : Tree K) (k : K) (o : ℕ) (ks : Keys K)
        → AllKeys (λ j. lt k j ≡ true) ks
        → insert_key lt (record { left = l; name = k; offset = o }) ks ≡ key l k o ks
    unfolding insert_key
    insert_key_least l k o nil h = refl
    insert_key_least l k o (key m j p ks) h = ground (arith, lt_asymm lt ord k j h.0)

    sort-push_back_above :
        (e : Item K) (ks : Keys K)
        → SortedKeys ks
        → AllKeys (λ j. lt e.name j ≡ true) ks
        → sort lt (push_back ks e) ≡ cons e ks
    unfolding sort push_back insert_key
    sort-push_back_above e nil s h = refl
    sort-push_back_above e (key l k o ks) s h =
        ap (insert_key lt (record { left = l; name = k; offset = o }))
          (sort-push_back_above e ks s.1 h.1)
        ∙ ground (arith, lt_asymm lt ord e.name k h.0, h.0, insert_key_least l k o ks s.0)

    -- Keys below and above a new one, sorted with it.
    pub sort-push_back :
        (e : Item K) (before behind : Keys K)
        → SortedKeys before
        → SortedKeys behind
        → AllKeys (λ j. lt j e.name ≡ true) before
        → AllKeys (λ j. lt e.name j ≡ true) behind
        → sort lt (push_back (join before behind) e) ≡ join before (cons e behind)
    unfolding sort push_back join
    sort-push_back e nil behind sb sa b a = sort-push_back_above e behind sa a
    sort-push_back e (key l k o before) behind sb sa b a =
        ap (insert_key lt (record { left = l; name = k; offset = o }))
          (sort-push_back e before behind sb.1 sa b.1 a)
        ∙ insert_key_least l k o (join before (cons e behind)) (
            AllKeys-join (λ j. lt k j ≡ true) before (cons e behind) sb.0
              (
                b.0,
                AllKeys-imp (λ j. lt e.name j ≡ true) (λ j. lt k j ≡ true) behind
                    (λ j. ord.trans k e.name j b.0) a,
              ))
