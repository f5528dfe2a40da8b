-- ===== src/BTree/Divide.antt =====
-- One step of `SMDIndex::InsertAt` in jni/KvDB/SMDIndexSegment.h: the node with its new key fits, or
-- it is split in two halves and the key between them.
use leveldblib.Prelude.{
  ℕ, ◌/◌, ◌<◌, ◌≤◌, ◌≡◌, sym, subst, Bool, true, false, ltb, [], ◌∷◌, ◌++◌, append_assoc, arith,
  Bool-cases, inl, inr,
}
use leveldblib.Order.{IsOrder, Sorted}
use leveldblib.Order.Sorted.{All-append_inv, Sorted-append_inv, Sorted-Around}
use leveldblib.BTree.{
  Tree, null, node, Keys, nil, key, Item, Frame, PathUp, cons, count, join, push_back, Split, plug,
  connect_right_node, unless_leaf, fits, splits, divide, sort, insert_at,
}
use leveldblib.BTree.Flat.{
  inorder, flat, inorder-node, inorder-null, flat-key, flat-join, split_at_lem,
}
use leveldblib.BTree.Sort.{AllKeys-flat, SortedKeys-flat, sort-push_back}

module _ {K : Type 0} where
  abbrev pub NoLefts : Keys K → Type 0
  NoLefts nil = Unit {0}
  NoLefts (key l k o ks) = (l ≡ null) × NoLefts ks

  -- A leaf has no subtrees.
  abbrev pub LeafOk : Bool → Keys K → Tree K → Type 0
  LeafOk true keys right = NoLefts keys × (right ≡ null)
  LeafOk false keys right = Unit {0}

  pub NoLefts-join_inv : (xs ys : Keys K) → NoLefts (join xs ys) → NoLefts xs × NoLefts ys
  unfolding join
  NoLefts-join_inv nil ys h = (tt, h)
  NoLefts-join_inv (key l k o xs) ys h = let (a, b) = NoLefts-join_inv xs ys h.1 in ((h.0, a), b)

  pub NoLefts-join : (xs ys : Keys K) → NoLefts xs → NoLefts ys → NoLefts (join xs ys)
  unfolding join
  NoLefts-join nil ys hx hy = hy
  NoLefts-join (key l k o xs) ys hx hy = (hx.0, NoLefts-join xs ys hx.1 hy)

  -- What `divide` makes of a node.
  pub data Divided (max_key : ℕ) (leaf : Bool) (keys : Keys K) (right : Tree K) : Type 0 where
    whole :
        count keys ≤ max_key
        → divide max_key leaf keys right ≡ fits (node leaf keys right)
        → Divided max_key leaf keys right
    halves :
        (s : Split K)
        → max_key < count keys
        → divide max_key leaf keys right
          ≡ splits
              (node leaf s.before (unless_leaf leaf s.middle.left))
              s.middle.name
              s.middle.offset
              (node leaf s.behind (unless_leaf leaf right))
        → join s.before (cons s.middle s.behind) ≡ keys
        → count s.before ≡ count keys / 2
        → Divided max_key leaf keys right

  pub divide-Divided :
      (max_key : ℕ) (leaf : Bool) (keys : Keys K) (right : Tree K) → Divided max_key leaf keys right
  unfolding divide
  divide-Divided max_key leaf keys right = elim (Bool-cases (ltb max_key (count keys))) [
    | inl t ↦
        let more : max_key < count keys = ground arith in
        let (s, e, j, c) = split_at_lem (count keys / 2) keys (omega arith) in
        halves s more (rw (t, e)) j c
    | inr f ↦ whole (ground arith) (rw f)
  ]

  -- The halves and the key between them hold the node's entries.
  pub inorder-halves :
      (leaf : Bool) (keys : Keys K) (right : Tree K) (s : Split K)
      → LeafOk leaf keys right
      → join s.before (cons s.middle s.behind) ≡ keys
      → inorder (node leaf s.before (unless_leaf leaf s.middle.left))
          ++ ((s.middle.name, s.middle.offset)
              ∷ inorder (node leaf s.behind (unless_leaf leaf right)))
        ≡ flat keys ++ inorder right
  inorder-halves true keys right s h e =
      let parts = NoLefts-join_inv s.before (cons s.middle s.behind) (subst NoLefts (sym e) h.0) in
      rw (← e, h.1)
        (simp (inorder-node, flat-join, flat-key, append_assoc, parts.1.0, inorder-null))
  inorder-halves false keys right s h e =
      rw (← e) (simp (inorder-node, flat-join, flat-key, append_assoc))

module _ {K : Type 0} (lt : K → K → Bool) where
  -- `InsertAt` by the outcome of its step.
  module _ (max_key : ℕ) (leaf : Bool) (keys : Keys K) (right : Tree K) (e : Item K) where
    pub insert_at_fits :
        (path : PathUp K) (t : Tree K)
        → divide max_key leaf (sort lt (push_back keys e)) right ≡ fits t
        → insert_at lt max_key path leaf keys right e ≡ plug path t
    unfolding insert_at plug
    insert_at_fits [] t h = rw (insert_at, h)
    insert_at_fits (frame ∷ path) t h = rw (insert_at, h)

    module _ (l : Tree K) (k : K) (o : ℕ) (r : Tree K) where
      pub insert_at_splits_root :
          divide max_key leaf (sort lt (push_back keys e)) right ≡ splits l k o r
          → insert_at lt max_key [] leaf keys right e ≡ node false (key l k o nil) r
      unfolding insert_at
      insert_at_splits_root h = rw (insert_at, h)

      pub insert_at_splits_up :
          (frame : Frame K) (path : PathUp K)
          → divide max_key leaf (sort lt (push_back keys e)) right ≡ splits l k o r
          → insert_at lt max_key (frame ∷ path) leaf keys right e
            ≡ insert_at lt max_key path false
                (connect_right_node frame r).0
                (connect_right_node frame r).1
                (record { left = l; name = k; offset = o })
      unfolding insert_at
      insert_at_splits_up frame path h = rw (insert_at, h)

  -- Where the entries with the new key in its place are sorted, sorting the keys puts it there.
  pub sort_in_place :
      IsOrder lt
      → (before behind : Keys K) (e : Item K) → Sorted lt (flat (join before (cons e behind)))
      → sort lt (push_back (join before behind) e) ≡ join before (cons e behind)
  sort_in_place ord before behind e h =
      let xs = flat before ++ inorder e.left in
      let shape : flat (join before (cons e behind)) ≡ xs ++ ((e.name, e.offset) ∷ flat behind) =
        simp (flat-join, flat-key, append_assoc) in
      let r = Sorted-Around lt ord xs e.name e.offset (flat behind) (subst (Sorted lt) shape h) in
      let (sorted_before, _) = Sorted-append_inv lt ord (flat before) (inorder e.left) r.left in
      let (below, _) =
        All-append_inv (λ (x : K × ℕ). lt x.0 e.name ≡ true) (flat before) (inorder e.left)
          r.below in
      sort-push_back lt ord e before behind (SortedKeys-flat lt ord before sorted_before)
        (SortedKeys-flat lt ord behind r.right)
        (AllKeys-flat (λ j. lt j e.name ≡ true) before below)
        (AllKeys-flat (λ j. lt e.name j ≡ true) behind r.above)
