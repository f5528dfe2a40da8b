-- ===== src/BTree/Insert.antt =====
-- `SMDIndex::InsertAt` of jni/KvDB/SMDIndexSegment.h: whatever splits on the way up, the entries of
-- the tree are those of before with the new one in its place.
use leveldblib.Prelude.{ℕ, ◌≡◌, sym, ap, subst, ◌∙◌, Bool, false, [], ◌∷◌, ◌++◌, append_assoc}
use leveldblib.Order.{IsOrder, Assoc, Sorted}
use leveldblib.Order.Sorted.{Sorted-append_inv}
use leveldblib.BTree.{
  Tree, node, Keys, nil, key, Item, in_left, in_right, PathUp, cons, join, push_back,
  connect_right_node, unless_leaf, divide, sort, insert_at,
}
use leveldblib.BTree.Flat.{
  inorder, flat, around, inorder-node, flat-key, flat-nil, flat-join, join-nil, inorder-plug,
}
use leveldblib.BTree.Divide.{
  LeafOk, whole, halves, divide-Divided, inorder-halves, insert_at_fits, insert_at_splits_root,
  insert_at_splits_up, sort_in_place,
}

-- The entries of a node with a new key between `before` and `behind`.
abbrev pub entries_with : {K : Type 0} → Keys K → Item K → Keys K → Tree K → Assoc K
entries_with before e behind right = flat (join before (cons e behind)) ++ inorder right

module _ {K : Type 0} where
  inorder-new_root :
      (l : Tree K) (k : K) (o : ℕ) (r : Tree K)
      → inorder (node false (key l k o nil) r) ≡ inorder l ++ ((k, o) ∷ inorder r)
  inorder-new_root l k o r = simp (inorder-node, flat-key, flat-nil, append_assoc)

  -- The parent of a split node, with the key between the halves in its place, holds what it held.
  pub connect_left :
      (before : Keys K) (k : K) (o : ℕ) (behind : Keys K) (right l r : Tree K) (m : K) (p : ℕ)
      (xs : Assoc K)
      → inorder l ++ ((m, p) ∷ inorder r) ≡ xs
      → entries_with before (record { left = l; name = m; offset = p }) (key r k o behind) right
        ≡ flat before ++ (xs ++ ((k, o) ∷ (flat behind ++ inorder right)))
  connect_left before k o behind right l r m p xs e =
      rw (← e) (simp (flat-join, flat-key, append_assoc))

  pub connect_last :
      (before : Keys K) (l r : Tree K) (m : K) (p : ℕ) (xs : Assoc K)
      → inorder l ++ ((m, p) ∷ inorder r) ≡ xs
      → entries_with before (record { left = l; name = m; offset = p }) nil r ≡ flat before ++ xs
  connect_last before l r m p xs e = rw (← e) (simp (flat-join, flat-key, flat-nil, append_assoc))

module _ {K : Type 0} (lt : K → K → Bool) (ord : IsOrder lt) where
  pub Sorted-around : (path : PathUp K) (xs : Assoc K) → Sorted lt (around path xs) → Sorted lt xs
  unfolding around
  Sorted-around [] xs h = h
  Sorted-around (in_left before k o behind right ∷ path) xs h =
      let inner =
        Sorted-around path (flat before ++ (xs ++ ((k, o) ∷ (flat behind ++ inorder right)))) h in
      let (_, rest) =
        Sorted-append_inv lt ord (flat before) (xs ++ ((k, o) ∷ (flat behind ++ inorder right)))
          inner in
      (Sorted-append_inv lt ord xs ((k, o) ∷ (flat behind ++ inorder right)) rest).0
  Sorted-around (in_right before ∷ path) xs h =
      (Sorted-append_inv lt ord (flat before) xs (Sorted-around path (flat before ++ xs) h)).1

  -- The sort of `InsertAt` under its parents.
  pub placed :
      (max_key : ℕ) (path : PathUp K) (leaf : Bool) (before behind : Keys K) (right : Tree K)
      (e : Item K)
      → Sorted lt (around path (entries_with before e behind right))
      → divide max_key leaf (sort lt (push_back (join before behind) e)) right
        ≡ divide max_key leaf (join before (cons e behind)) right
  placed max_key path leaf before behind right e sorted =
      let keys = join before (cons e behind) in
      let own = Sorted-around path (flat keys ++ inorder right) sorted in
      ap (λ ks. divide max_key leaf ks right)
        (sort_in_place lt ord before behind e
          (Sorted-append_inv lt ord (flat keys) (inorder right) own).0)

  -- The tree after `InsertAt` holds what the node and its surroundings held, with the new key in
  -- its place between `before` and `behind`.
  pub inorder-insert_at :
      (max_key : ℕ) (path : PathUp K) (leaf : Bool) (before behind : Keys K) (right : Tree K)
      (e : Item K)
      → LeafOk leaf (join before (cons e behind)) right
      → Sorted lt (around path (entries_with before e behind right))
      → inorder (insert_at lt max_key path leaf (join before behind) right e)
        ≡ around path (entries_with before e behind right)
  unfolding around connect_right_node
  inorder-insert_at max_key [] leaf before behind right e ok sorted =
      let keys = join before (cons e behind) in
      let place = placed max_key [] leaf before behind right e sorted in
      elim (divide-Divided max_key leaf keys right) [
        | whole c f ↦
            ap inorder (
              insert_at_fits lt max_key leaf (join before behind) right e [] (node leaf keys right)
                (place ∙ f))
            ∙ inorder-plug [] (node leaf keys right)
            ∙ inorder-node leaf keys right
        | halves s m f j c ↦
            let l = node leaf s.before (unless_leaf leaf s.middle.left) in
            let r = node leaf s.behind (unless_leaf leaf right) in
            ap inorder (
              insert_at_splits_root lt max_key leaf (join before behind) right e l s.middle.name
                s.middle.offset r (place ∙ f))
            ∙ inorder-new_root l s.middle.name s.middle.offset r
            ∙ inorder-halves leaf keys right s ok j
      ]
  inorder-insert_at max_key (in_left bs k o hs last ∷ path) leaf before behind right e ok sorted =
      let keys = join before (cons e behind) in
      let xs = flat keys ++ inorder right in
      let place =
        placed max_key (in_left bs k o hs last ∷ path) leaf before behind right e sorted in
      elim (divide-Divided max_key leaf keys right) [
        | whole c f ↦
            ap inorder (
              insert_at_fits lt max_key leaf (join before behind) right e
                (in_left bs k o hs last ∷ path) (node leaf keys right) (place ∙ f))
            ∙ inorder-plug (in_left bs k o hs last ∷ path) (node leaf keys right)
            ∙ ap (around (in_left bs k o hs last ∷ path)) (inorder-node leaf keys right)
        | halves s m f j c ↦
            let l = node leaf s.before (unless_leaf leaf s.middle.left) in
            let r = node leaf s.behind (unless_leaf leaf right) in
            let up =
              connect_left bs k o hs last l r s.middle.name s.middle.offset xs
                (inorder-halves leaf keys right s ok j) in
            let item : Item K = record {
              left = l;
              name = s.middle.name;
              offset = s.middle.offset;
            } in
            ap inorder (
              insert_at_splits_up lt max_key leaf (join before behind) right e l s.middle.name
                s.middle.offset r (in_left bs k o hs last) path (place ∙ f))
            ∙ inorder-insert_at max_key path false bs (key r k o hs) last item tt
                (subst (λ ys. Sorted lt (around path ys)) (sym up) sorted)
            ∙ ap (around path) up
      ]
  inorder-insert_at max_key (in_right bs ∷ path) leaf before behind right e ok sorted =
      let keys = join before (cons e behind) in
      let xs = flat keys ++ inorder right in
      let place = placed max_key (in_right bs ∷ path) leaf before behind right e sorted in
      elim (divide-Divided max_key leaf keys right) [
        | whole c f ↦
            ap inorder (
              insert_at_fits lt max_key leaf (join before behind) right e (in_right bs ∷ path)
                (node leaf keys right) (place ∙ f))
            ∙ inorder-plug (in_right bs ∷ path) (node leaf keys right)
            ∙ ap (around (in_right bs ∷ path)) (inorder-node leaf keys right)
        | halves s m f j c ↦
            let l = node leaf s.before (unless_leaf leaf s.middle.left) in
            let r = node leaf s.behind (unless_leaf leaf right) in
            let up =
              connect_last bs l r s.middle.name s.middle.offset xs
                (inorder-halves leaf keys right s ok j) in
            let item : Item K = record {
              left = l;
              name = s.middle.name;
              offset = s.middle.offset;
            } in
            ap inorder (
              insert_at_splits_up lt max_key leaf (join before behind) right e l s.middle.name
                s.middle.offset r (in_right bs) path (place ∙ f))
            ∙ ap (λ ks. inorder (insert_at lt max_key path false ks r item)) (sym (join-nil bs))
            ∙ inorder-insert_at max_key path false bs nil r item tt
                (subst (λ ys. Sorted lt (around path ys)) (sym up) sorted)
            ∙ ap (around path) up
      ]
