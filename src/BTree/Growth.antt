-- ===== src/BTree/Growth.antt =====
-- `SMDIndex::InsertAt` of jni/KvDB/SMDIndexSegment.h keeps the shape of the tree: splits keep every
-- node within its bounds and all leaves at one depth.
use leveldblib.Prelude.{ℕ, ◌+◌, ◌/◌, ◌<◌, sym, ap, subst, ◌∙◌, Bool, false, [], ◌∷◌, ◌++◌, arith}
use leveldblib.Order.{IsOrder, Sorted}
use leveldblib.BTree.{
  Tree, node, Keys, nil, Item, in_left, in_right, PathUp, cons, count, join, plug,
  connect_right_node, unless_leaf, insert_at,
}
use leveldblib.BTree.Flat.{flat, inorder, around, join-nil}
use leveldblib.BTree.Divide.{
  whole, halves, divide-Divided, inorder-halves, insert_at_fits, insert_at_splits_root,
  insert_at_splits_up,
}
use leveldblib.BTree.Balance.{
  Balanced, BalancedKeys-nil, BalancedKeys-cons, low_at, BalancedPath, inner-Balanced,
  plug-Balanced, LeafOk-Balanced,
}
use leveldblib.BTree.Insert.{entries_with, placed, connect_left, connect_last}
use leveldblib.BTree.Overfull.{
  Receives, Receives-whole, Receives-halves, Receives-left, Receives-last,
}

module _ {K : Type 0} (lt : K → K → Bool) (ord : IsOrder lt) (max_key : ℕ)
    (positive : 0 < max_key) where
  -- `InsertAt` at a node of height `h` under balanced parents leaves a balanced tree.
  pub insert_at-Balanced :
      (path : PathUp K) (h : ℕ) (leaf : Bool) (before behind : Keys K) (right : Tree K) (e : Item K)
      → Receives max_key h (low_at max_key path) leaf (join before (cons e behind)) right
      → BalancedPath max_key h path
      → Sorted lt (around path (entries_with before e behind right))
      → (g : ℕ) × Balanced max_key 1 g (insert_at lt max_key path leaf (join before behind) right e)
  unfolding around connect_right_node count plug
  insert_at-Balanced [] h leaf before behind right e r bp sorted =
      let keys = join before (cons e behind) in
      let place = placed lt ord max_key [] leaf before behind right e sorted in
      elim (divide-Divided max_key leaf keys right) [
        | whole c f ↦ (
          h,
          subst (Balanced max_key 1 h)
              (sym (
                insert_at_fits lt max_key leaf (join before behind) right e []
                  (node leaf keys right) (place ∙ f)))
              (Receives-whole max_key h 1 leaf keys right r c),
        )
        | halves s m f j c ↦
            let l = node leaf s.before (unless_leaf leaf s.middle.left) in
            let t = node leaf s.behind (unless_leaf leaf right) in
            let (bl, bt) = Receives-halves max_key h 1 leaf keys right s r m j c in
            let item : Item K = record {
              left = l;
              name = s.middle.name;
              offset = s.middle.offset;
            } in
            (
              h + 1,
              subst (Balanced max_key 1 (h + 1))
                  (sym (
                    insert_at_splits_root lt max_key leaf (join before behind) right e l
                      s.middle.name s.middle.offset t (place ∙ f)))
                  (inner-Balanced max_key 1 h (cons item nil) t r.tall (omega arith) (omega arith)
                    (BalancedKeys-cons max_key h item nil bl (BalancedKeys-nil K max_key h)) bt),
            )
      ]
  insert_at-Balanced (in_left bs k o hs last ∷ path) h leaf before behind right e r bp sorted =
      let keys = join before (cons e behind) in
      let place =
        placed lt ord max_key (in_left bs k o hs last ∷ path) leaf before behind right e sorted in
      elim (divide-Divided max_key leaf keys right) [
        | whole c f ↦
            let (g, b) =
              plug-Balanced max_key h (in_left bs k o hs last ∷ path) (node leaf keys right) r.tall
                bp (Receives-whole max_key h (max_key / 2) leaf keys right r c) in
            (
              g,
              subst (Balanced max_key 1 g)
                  (sym (
                    insert_at_fits lt max_key leaf (join before behind) right e
                      (in_left bs k o hs last ∷ path) (node leaf keys right) (place ∙ f)))
                  b,
            )
        | halves s m f j c ↦
            let l = node leaf s.before (unless_leaf leaf s.middle.left) in
            let t = node leaf s.behind (unless_leaf leaf right) in
            let ok = LeafOk-Balanced max_key h leaf keys right r.tall r.flag r.below r.last in
            let up =
              connect_left bs k o hs last l t s.middle.name s.middle.offset
                (flat keys ++ inorder right) (inorder-halves leaf keys right s ok j) in
            let (bl, bt) = Receives-halves max_key h (max_key / 2) leaf keys right s r m j c in
            let item : Item K = record {
              left = l;
              name = s.middle.name;
              offset = s.middle.offset;
            } in
            let other : Item K = record { left = t; name = k; offset = o } in
            let (g, b) =
              insert_at-Balanced path (h + 1) false bs (cons other hs) last item
                (Receives-left max_key h bs k o hs last path item t bp r.tall bl bt) bp.5
                (subst (λ ys. Sorted lt (around path ys)) (sym up) sorted) in
            (
              g,
              subst (Balanced max_key 1 g)
                  (sym (
                    insert_at_splits_up lt max_key leaf (join before behind) right e l s.middle.name
                      s.middle.offset t (in_left bs k o hs last) path (place ∙ f)))
                  b,
            )
      ]
  insert_at-Balanced (in_right bs ∷ path) h leaf before behind right e r bp sorted =
      let keys = join before (cons e behind) in
      let place = placed lt ord max_key (in_right bs ∷ path) leaf before behind right e sorted in
      elim (divide-Divided max_key leaf keys right) [
        | whole c f ↦
            let (g, b) =
              plug-Balanced max_key h (in_right bs ∷ path) (node leaf keys right) r.tall bp
                (Receives-whole max_key h (max_key / 2) leaf keys right r c) in
            (
              g,
              subst (Balanced max_key 1 g)
                  (sym (
                    insert_at_fits lt max_key leaf (join before behind) right e (in_right bs ∷ path)
                      (node leaf keys right) (place ∙ f)))
                  b,
            )
        | halves s m f j c ↦
            let l = node leaf s.before (unless_leaf leaf s.middle.left) in
            let t = node leaf s.behind (unless_leaf leaf right) in
            let ok = LeafOk-Balanced max_key h leaf keys right r.tall r.flag r.below r.last in
            let up =
              connect_last bs l t s.middle.name s.middle.offset (flat keys ++ inorder right)
                (inorder-halves leaf keys right s ok j) in
            let (bl, bt) = Receives-halves max_key h (max_key / 2) leaf keys right s r m j c in
            let item : Item K = record {
              left = l;
              name = s.middle.name;
              offset = s.middle.offset;
            } in
            let (g, b) =
              insert_at-Balanced path (h + 1) false bs nil t item
                (Receives-last max_key h bs path item t bp r.tall bl bt) bp.3
                (subst (λ ys. Sorted lt (around path ys)) (sym up) sorted) in
            (
              g,
              subst (Balanced max_key 1 g)
                  (sym (
                    insert_at_splits_up lt max_key leaf (join before behind) right e l s.middle.name
                      s.middle.offset t (in_right bs) path (place ∙ f)
                    ∙ ap (λ ks. insert_at lt max_key path false ks t item) (sym (join-nil bs))))
                  b,
            )
      ]
