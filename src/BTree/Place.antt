-- ===== src/BTree/Place.antt =====
-- The place of a key in a B-tree of jni/KvDB/SMDIndexSegment.h: what lies on either side of a node's
-- key, and of a node under its parents.
use leveldblib.Prelude.{ℕ, ◌≡◌, refl, ap, subst, ◌∙◌, Bool, true, [], ◌∷◌, ◌++◌, append_assoc}
use leveldblib.Order.{IsOrder, Assoc, Above, Below, Sorted, lookup, put}
use leveldblib.Order.Sorted.{
  Around, Sorted-Around, lookup-append-Below, lookup-append-Above, put-append-Below,
  put-append-Above, put_of_Above,
}
use leveldblib.BTree.{Tree, Keys, key, in_left, in_right, PathUp, join}
use leveldblib.BTree.Flat.{inorder, flat, around, flat-key, flat-join}

module _ {K : Type 0} (lt : K → K → Bool) (ord : IsOrder lt) where
  pub split_entries :
      (bs : Keys K) (l : Tree K) (k : K) (o : ℕ) (ks : Keys K) (right : Tree K)
      → flat (join bs (key l k o ks)) ++ inorder right
        ≡ (flat bs ++ inorder l) ++ ((k, o) ∷ (flat ks ++ inorder right))
  split_entries bs l k o ks right = simp (flat-join, flat-key, append_assoc)

  -- The entries on either side of a node's key.
  pub Around-key :
      (bs : Keys K) (l : Tree K) (k : K) (o : ℕ) (ks : Keys K) (right : Tree K)
      → Sorted lt (flat (join bs (key l k o ks)) ++ inorder right)
      → Around lt ord k o (flat bs ++ inorder l) (flat ks ++ inorder right)
  Around-key bs l k o ks right h =
      Sorted-Around lt ord (flat bs ++ inorder l) k o (flat ks ++ inorder right)
        (subst (Sorted lt) (split_entries bs l k o ks right) h)

  module _ (x : K) where
    -- All that hangs off the parents on the left is below `x`, and on the right above.
    abbrev pub FitsPath : PathUp K → Type 0
    FitsPath [] = Unit {0}
    FitsPath (in_left before k o behind right ∷ path) =
        Below lt x (flat before)
        × (lt x k ≡ true)
        × Above lt x (flat behind ++ inorder right)
        × FitsPath path
    FitsPath (in_right before ∷ path) = Below lt x (flat before) × FitsPath path

    pub lookup-around :
        (path : PathUp K) (xs : Assoc K)
        → FitsPath path
        → lookup lt x (around path xs) ≡ lookup lt x xs
    unfolding around
    lookup-around [] xs f = refl
    lookup-around (in_left before k o behind right ∷ path) xs f =
        let tail = (k, o) ∷ (flat behind ++ inorder right) in
        lookup-around path (flat before ++ (xs ++ tail)) f.3
        ∙ lookup-append-Below lt ord x (flat before) (xs ++ tail) f.0
        ∙ lookup-append-Above lt ord x xs tail (f.1, f.2)
    lookup-around (in_right before ∷ path) xs f =
        lookup-around path (flat before ++ xs) f.1
        ∙ lookup-append-Below lt ord x (flat before) xs f.0

    pub put-around :
        (path : PathUp K) (v : ℕ) (xs : Assoc K)
        → FitsPath path
        → put lt x v (around path xs) ≡ around path (put lt x v xs)
    unfolding around
    put-around [] v xs f = refl
    put-around (in_left before k o behind right ∷ path) v xs f =
        let tail = (k, o) ∷ (flat behind ++ inorder right) in
        put-around path v (flat before ++ (xs ++ tail)) f.3
        ∙ ap (around path) (
            put-append-Below lt ord x v (flat before) (xs ++ tail) f.0
            ∙ ap (λ ys. flat before ++ ys) (put-append-Above lt ord x v xs tail (f.1, f.2)))
    put-around (in_right before ∷ path) v xs f =
        put-around path v (flat before ++ xs) f.1
        ∙ ap (around path) (put-append-Below lt ord x v (flat before) xs f.0)

    pub put_between :
        (v : ℕ) (xs ys : Assoc K)
        → Below lt x xs
        → Above lt x ys
        → put lt x v (xs ++ ys) ≡ xs ++ ((x, v) ∷ ys)
    put_between v xs ys b a =
        put-append-Below lt ord x v xs ys b ∙ ap (λ zs. xs ++ zs) (put_of_Above lt ord x v ys a)
