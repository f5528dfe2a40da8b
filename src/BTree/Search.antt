-- ===== src/BTree/Search.antt =====
-- `SMDIndex::SearchKey` of jni/KvDB/SMDIndexSegment.h reads the tree as the sorted list of its
-- entries.
use leveldblib.Prelude.{
  ℕ, ◌≡◌, sym, ap, subst, ◌∙◌, Bool, true, Option, none, some, [], ◌∷◌, ◌++◌, append_assoc,
  Bool-cases, inl, inr,
}
use leveldblib.Order.{IsOrder, Assoc, Below, Sorted, lookup}
use leveldblib.Order.Sorted.{
  Above-trans, Below-trans, Sorted-append_inv, Sorted-Around, lookup-append-Below,
  lookup-append-Above, lookup_of_Above, lookup_here,
}
use leveldblib.BTree.{Tree, null, node, Keys, nil, key, invalid_index, search_key, search_keys}
use leveldblib.BTree.Flat.{inorder, flat}

abbrev pub or_invalid : Option ℕ → ℕ
or_invalid none = invalid_index
or_invalid (some o) = o

module _ {K : Type 0} (lt : K → K → Bool) (ord : IsOrder lt) (x : K) where
  skip_key :
      (xs : Assoc K) (k : K) (o : ℕ) (ys : Assoc K)
      → lt k x ≡ true
      → Below lt k xs
      → lookup lt x (xs ++ ((k, o) ∷ ys)) ≡ lookup lt x ys
  skip_key xs k o ys t b =
      lookup-append-Below lt ord x xs ((k, o) ∷ ys) (Below-trans lt ord k x xs t b)
      ∙ lookup-append-Below lt ord x ((k, o) ∷ []) ys (t, tt)

  mutual
    unfolding search_key inorder

    search_node_lem :
        (t : Tree K)
        → Sorted lt (inorder t)
        → search_key lt x t ≡ or_invalid (lookup lt x (inorder t))
    search_node_lem null h = ap or_invalid (sym (lookup_of_Above lt ord x [] tt))
    search_node_lem (node leaf keys right) h =
        let (_, r) = Sorted-append_inv lt ord (flat keys) (inorder right) h in
        search_keys_lem keys (inorder right) (search_key lt x right) (search_node_lem right r) h

    search_keys_lem :
        (ks : Keys K) (ys : Assoc K) (last : ℕ)
        → last ≡ or_invalid (lookup lt x ys)
        → Sorted lt (flat ks ++ ys)
        → search_keys lt x last ks ≡ or_invalid (lookup lt x (flat ks ++ ys))
    search_keys_lem nil ys last e h = e
    search_keys_lem (key l k o ks) ys last e h =
        let rest = flat ks ++ ys in
        let shape = append_assoc (inorder l) ((k, o) ∷ flat ks) ys in
        let r = Sorted-Around lt ord (inorder l) k o rest (subst (Sorted lt) shape h) in
        elim (Bool-cases (lt k x)) [
          | inl t ↦
              rw (t, shape)
                (search_keys_lem ks ys last e r.right
                  ∙ ap or_invalid (sym (skip_key (inorder l) k o rest t r.below)))
          | inr f ↦ elim (Bool-cases (lt x k)) [
            | inl u ↦
                rw (f, u, shape)
                  (search_node_lem l r.left
                    ∙ ap or_invalid (
                        sym (
                          lookup-append-Above lt ord x (inorder l) ((k, o) ∷ rest)
                            (u, Above-trans lt ord x k rest u r.above))))
            | inr g ↦
                rw (f, g, shape)
                  (subst (λ y. o ≡ or_invalid (lookup lt y (inorder l ++ ((k, o) ∷ rest))))
                    (ord.connex k x f g)
                    (ap or_invalid (sym (lookup_here lt ord o (inorder l) rest k r.below))))
          ]
        ]

  -- For a strict total order, `SearchKey` on a tree whose entries are sorted gives the offset of
  -- the entry with the key, or 0xffffffff if there is none.
  pub search_key_lem :
      (t : Tree K)
      → Sorted lt (inorder t)
      → search_key lt x t ≡ or_invalid (lookup lt x (inorder t))
  search_key_lem = search_node_lem
