-- ===== src/BTree/Find.antt =====
-- `SMDIndex::FindInsertNode` of jni/KvDB/SMDIndexSegment.h: in a balanced, sorted tree it never meets
-- NULL, and it ends at the leaf where the key belongs, or finds the key.
use leveldblib.Prelude.{
  ℕ, ◌-◌, ◌<◌, ◌≡◌, refl, sym, ap, subst, ◌∙◌, Bool, true, false, some, ◌∷◌, ◌++◌, append_assoc,
  Bool-cases, inl, inr,
}
use leveldblib.Order.{IsOrder, Assoc, Above, Below, Sorted, lookup}
use leveldblib.BTree.{
  Tree, null, node, Keys, nil, key, in_left, in_right, PathUp, join, Found, find_insert_node,
  find_in_keys,
}
use leveldblib.BTree.Flat.{inorder, flat, around, inorder-node, flat-nil, join-nil}
use leveldblib.BTree.Balance.{Balanced, low_at, BalancedPath}
use leveldblib.BTree.Place.{split_entries, Around-key, FitsPath}
use leveldblib.BTree.OnWay.{
  join_next, join_nil_left, null_tall, Reached, OnWay, OnWay-leaf, OnWay-Balanced, down_left,
  down_last, Below-next, leaf-Above, present_here,
}

module _ {K : Type 0} (lt : K → K → Bool) (ord : IsOrder lt) (max_key : ℕ) (x : K) where
  mutual
    unfolding find_insert_node around

    pub find_insert_node_lem :
        (t : Tree K) (path : PathUp K) (h : ℕ)
        → 0 < h
        → Balanced max_key (low_at max_key path) h t
        → BalancedPath max_key h path
        → FitsPath lt ord x path
        → Sorted lt (inorder t)
        → Reached lt ord max_key x (around path (inorder t)) (find_insert_node lt x t path)
    find_insert_node_lem null path h p b bp f s =
        absurd (null_tall lt ord max_key x h (low_at max_key path) p b)
    find_insert_node_lem (node leaf keys right) path h p b bp f s =
        let w = OnWay-Balanced lt ord max_key x h leaf keys right path b bp f s in
        subst
          (λ (es : Assoc K).
            Reached lt ord max_key x (around path es)
              (find_insert_node lt x (node leaf keys right) path))
          (sym (inorder-node leaf keys right))
          (find_in_keys_lem keys leaf keys right path h (find_insert_node lt x right) nil w
            (join_nil_left keys) (subst (Below lt x) (sym flat-nil) tt)
            (λ d below.
              let (p', b', bp', f', s') =
                down_last lt ord max_key x h keys right path
                  (subst (λ c. OnWay lt ord max_key x h c keys right path) d w) below in
              find_insert_node_lem right (in_right keys ∷ path) (h - 1) p' b' bp' f' s'))

    find_in_keys_lem :
        (ks : Keys K) (leaf : Bool) (keys : Keys K) (right : Tree K) (path : PathUp K) (h : ℕ)
        (in_last : PathUp K → Found K) (bs : Keys K)
        → OnWay lt ord max_key x h leaf keys right path
        → join bs ks ≡ keys
        → Below lt x (flat bs)
        → (leaf ≡ false
            → Below lt x (flat keys)
            → Reached lt ord max_key x
                (around (in_right keys ∷ path) (inorder right))
                (in_last (in_right keys ∷ path)))
        → Reached lt ord max_key x
            (around path (flat keys ++ inorder right))
            (find_in_keys lt x leaf keys right in_last path bs ks)
    find_in_keys_lem nil true keys right path h in_last bs w e b ih =
        OnWay-leaf lt ord max_key x h keys right path w bs nil e b
          (subst (Above lt x) (sym flat-nil) tt)
    find_in_keys_lem nil false keys right path h in_last bs w e b ih =
        ih refl (subst (λ ks. Below lt x (flat ks)) (sym (join-nil bs) ∙ e) b)
    find_in_keys_lem (key l k o ks) true keys right path h in_last bs w e b ih =
        let w' = subst (λ zs. OnWay lt ord max_key x h true zs right path) (sym e) w in
        elim (Bool-cases (lt k x)) [
          | inl t ↦ rw t (
              find_in_keys_lem ks true keys right path h in_last (join bs (key l k o nil)) w
                (join_next bs l k o ks ∙ e)
                (Below-next lt ord max_key x bs l k o
                  (Around-key lt ord bs l k o ks right w'.sorted).below t)
                ih)
          | inr f ↦ elim (Bool-cases (lt x k)) [
            | inl u ↦
                rw (f, u)
                  (OnWay-leaf lt ord max_key x h keys right path w bs (key l k o ks) e b
                    (leaf-Above lt ord max_key x h bs l k o ks right path w' u))
            | inr g ↦
                rw (f, g)
                  (
                    o,
                    subst (λ zs. lookup lt x (around path (flat zs ++ inorder right)) ≡ some o) e
                        (present_here lt ord max_key x h true bs l k o ks right path w' f g),
                  )
          ]
        ]
    find_in_keys_lem (key l k o ks) false keys right path h in_last bs w e b ih =
        let w' = subst (λ zs. OnWay lt ord max_key x h false zs right path) (sym e) w in
        elim (Bool-cases (lt k x)) [
          | inl t ↦ rw t (
              find_in_keys_lem ks false keys right path h in_last (join bs (key l k o nil)) w
                (join_next bs l k o ks ∙ e)
                (Below-next lt ord max_key x bs l k o
                  (Around-key lt ord bs l k o ks right w'.sorted).below t)
                ih)
          | inr f ↦ elim (Bool-cases (lt x k)) [
            | inl u ↦
                let (p', b', bp', f', s') =
                  down_left lt ord max_key x h bs l k o ks right path w' u b in
                let here : flat bs ++ (inorder l ++ ((k, o) ∷ (flat ks ++ inorder right)))
                    ≡ flat keys ++ inorder right =
                  sym (append_assoc (flat bs) (inorder l) ((k, o) ∷ (flat ks ++ inorder right)))
                  ∙ sym (split_entries lt ord bs l k o ks right)
                  ∙ ap (λ zs. flat zs ++ inorder right) e in
                rw (f, u)
                  (subst
                    (λ (es : Assoc K).
                      Reached lt ord max_key x (around path es)
                        (find_insert_node lt x l (in_left bs k o ks right ∷ path)))
                    here
                    (find_insert_node_lem l (in_left bs k o ks right ∷ path) (h - 1) p' b' bp' f'
                      s'))
            | inr g ↦
                rw (f, g)
                  (
                    o,
                    subst (λ zs. lookup lt x (around path (flat zs ++ inorder right)) ≡ some o) e
                        (present_here lt ord max_key x h false bs l k o ks right path w' f g),
                  )
          ]
        ]
