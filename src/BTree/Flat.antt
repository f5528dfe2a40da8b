-- ===== src/BTree/Flat.antt =====
-- The entries of a B-tree of jni/KvDB/SMDIndexSegment.h in key order, and what the operations on
-- nodes do to them.
use leveldblib.Prelude.{
  ℕ, zero, suc, ◌+◌, ◌<◌, ◌≡◌, refl, ap, ◌∙◌, Bool, false, some, [], ◌∷◌, ◌++◌, append_assoc, arith,
}
use leveldblib.Order.{Assoc}
use leveldblib.BTree.{
  Tree, null, node, Keys, nil, key, in_left, in_right, PathUp, cons, count, join, Split, split_at,
  plug,
}

unfoldable mutual
  pub inorder : {K : Type 0} → Tree K → Assoc K
  inorder null = []
  inorder (node leaf keys right) = flat keys ++ inorder right

  pub flat : {K : Type 0} → Keys K → Assoc K
  flat nil = []
  flat (key l k o ks) = inorder l ++ ((k, o) ∷ flat ks)

module _ {K : Type 0} where
  -- The entries of the tree whose hole holds `xs`.
  unfoldable pub around : PathUp K → Assoc K → Assoc K
  around [] xs = xs
  around (in_left before k o behind right ∷ path) xs =
      around path (flat before ++ (xs ++ ((k, o) ∷ (flat behind ++ inorder right))))
  around (in_right before ∷ path) xs = around path (flat before ++ xs)

  pub inorder-node :
      (leaf : Bool) (keys : Keys K) (right : Tree K)
      → inorder (node leaf keys right) ≡ flat keys ++ inorder right
  unfolding inorder
  inorder-node leaf keys right = refl

  pub inorder-null : inorder {K = K} null ≡ []
  unfolding inorder
  inorder-null = refl

  pub flat-key :
      (l : Tree K) (k : K) (o : ℕ) (ks : Keys K)
      → flat (key l k o ks) ≡ inorder l ++ ((k, o) ∷ flat ks)
  unfolding inorder
  flat-key l k o ks = refl

  pub flat-nil : flat {K = K} nil ≡ []
  unfolding inorder
  flat-nil = refl

  pub flat-join : (xs ys : Keys K) → flat (join xs ys) ≡ flat xs ++ flat ys
  unfolding join flat
  flat-join nil ys = refl
  flat-join (key l k o xs) ys = simp (flat-join xs ys, append_assoc)

  pub join_assoc : (xs ys zs : Keys K) → join (join xs ys) zs ≡ join xs (join ys zs)
  unfolding join
  join_assoc nil ys zs = refl
  join_assoc (key l k o xs) ys zs = ap (key l k o) (join_assoc xs ys zs)

  pub join-nil : (xs : Keys K) → join xs nil ≡ xs
  unfolding join
  join-nil nil = refl
  join-nil (key l k o xs) = ap (key l k o) (join-nil xs)

  pub count-join : (xs ys : Keys K) → count (join xs ys) ≡ count xs + count ys
  unfolding join count
  count-join nil ys = omega arith
  count-join (key l k o xs) ys = omega (arith, count-join xs ys)

  -- A split in range gives back its keys, and as many before as asked for.
  pub split_at_lem :
      (n : ℕ) (ks : Keys K)
      → n < count ks
      → (s : Split K) × (split_at n ks ≡ some s)
        × (join s.before (cons s.middle s.behind) ≡ ks)
        × (count s.before ≡ n)
  unfolding split_at join count
  split_at_lem n nil h = absurd (omega arith)
  split_at_lem zero (key l k o ks) h = (
    record { before = nil; middle = record { left = l; name = k; offset = o }; behind = ks },
    refl,
    refl,
    refl,
  )
  split_at_lem (suc n) (key l k o ks) h =
      let (s, e, j, c) = split_at_lem n ks (omega arith) in
      (record s { before = key l k o s.before }, rw e, ap (key l k o) j, omega arith)

  pub inorder-plug :
      (path : PathUp K) (t : Tree K) → inorder (plug path t) ≡ around path (inorder t)
  unfolding plug around
  inorder-plug [] t = refl
  inorder-plug (in_left before k o behind right ∷ path) t =
      inorder-plug path (node false (join before (key t k o behind)) right)
      ∙ ap (around path) (simp (inorder-node, flat-join, flat-key, append_assoc))
  inorder-plug (in_right before ∷ path) t =
      inorder-plug path (node false before t) ∙ ap (around path) (inorder-node false before t)
