-- ===== src/BTree/Overfull.antt =====
-- The node of jni/KvDB/SMDIndexSegment.h that `SMDIndex::InsertAt` puts a key into, in its parents: whole
-- or in the halves of a split.
use leveldblib.Prelude.{
  ℕ, suc, ◌+◌, ◌-◌, ◌/◌, ◌<◌, ◌≤◌, ◌≡◌, sym, ap, subst, ◌∙◌, Bool, false, ◌==◌, ◌∷◌, arith,
}
use leveldblib.BTree.{
  Tree, node, Keys, nil, key, Item, in_left, in_right, PathUp, cons, count, join, Split,
  unless_leaf,
}
use leveldblib.BTree.Flat.{count-join}
use leveldblib.BTree.Balance.{
  Balanced, BalancedKeys, Balanced-node, BalancedKeys-join, BalancedKeys-join_inv, BalancedKeys-nil,
  BalancedKeys-cons, BalancedKeys-cons_inv, unless_leaf-Balanced, low_at, BalancedPath,
}

module _ {K : Type 0} (max_key : ℕ) where
  -- The node that receives a key, with the key in its place: what is known of it at height `h`.
  pub record Receives (h low : ℕ) (leaf : Bool) (keys : Keys K) (right : Tree K) : Type 0 where
    pub tall : 0 < h
    pub flag : leaf ≡ (h == 1)
    pub least : low ≤ count keys
    pub most : count keys ≤ suc max_key
    pub below : BalancedKeys max_key (h - 1) keys
    pub last : Balanced max_key (max_key / 2) (h - 1) right

  pub Receives-whole :
      (h low : ℕ) (leaf : Bool) (keys : Keys K) (right : Tree K)
      → Receives h low leaf keys right
      → count keys ≤ max_key
      → Balanced max_key low h (node leaf keys right)
  Receives-whole h low leaf keys right r c =
      Balanced-node max_key low h leaf keys right r.tall r.flag r.least c r.below r.last

  -- Both halves of an overfull node are at least half full.
  pub Receives-halves :
      (h low : ℕ) (leaf : Bool) (keys : Keys K) (right : Tree K) (s : Split K)
      → Receives h low leaf keys right
      → max_key < count keys
      → join s.before (cons s.middle s.behind) ≡ keys
      → count s.before ≡ count keys / 2
      → Balanced max_key (max_key / 2) h (node leaf s.before (unless_leaf leaf s.middle.left))
        × Balanced max_key (max_key / 2) h (node leaf s.behind (unless_leaf leaf right))
  unfolding count
  Receives-halves h low leaf keys right s r m j c =
      let total : count s.before + suc (count s.behind) ≡ count keys =
        sym (count-join s.before (cons s.middle s.behind)) ∙ ap count j in
      let (bb, rest) =
        BalancedKeys-join_inv max_key (h - 1) s.before (cons s.middle s.behind)
          (subst (BalancedKeys max_key (h - 1)) (sym j) r.below) in
      let (bm, ba) = BalancedKeys-cons_inv max_key (h - 1) s.middle s.behind rest in
      (
        Balanced-node max_key (max_key / 2) h leaf s.before (unless_leaf leaf s.middle.left) r.tall
            r.flag (omega (arith, r.most)) (omega (arith, r.most)) bb
            (unless_leaf-Balanced max_key h leaf s.middle.left r.tall r.flag bm),
        Balanced-node max_key (max_key / 2) h leaf s.behind (unless_leaf leaf right) r.tall r.flag
            (omega (arith, r.most)) (omega (arith, r.most)) ba
            (unless_leaf-Balanced max_key h leaf right r.tall r.flag r.last),
      )

  inner-Receives :
      (h low : ℕ) (keys : Keys K) (right : Tree K)
      → 0 < h
      → low ≤ count keys
      → count keys ≤ suc max_key
      → BalancedKeys max_key h keys
      → Balanced max_key (max_key / 2) h right
      → Receives (h + 1) low false keys right
  inner-Receives h low keys right p l m bk br =
      let e : h ≡ h + 1 - 1 = omega arith in
      record {
        tall = omega arith;
        flag = ground arith;
        least = l;
        most = m;
        below = subst (λ n. BalancedKeys max_key n keys) e bk;
        last = subst (λ n. Balanced max_key (max_key / 2) n right) e br;
      }

  -- The parent of a split node, whose left subtree or last subtree it was, receives the key between
  -- the halves.
  pub Receives-left :
      (h : ℕ) (bs : Keys K) (k : K) (o : ℕ) (hs : Keys K) (last : Tree K) (path : PathUp K)
      (item : Item K) (t : Tree K)
      → BalancedPath max_key h (in_left bs k o hs last ∷ path)
      → 0 < h
      → Balanced max_key (max_key / 2) h item.left
      → Balanced max_key (max_key / 2) h t
      → Receives (h + 1) (low_at max_key path) false (join bs (cons item (key t k o hs))) last
  unfolding count
  Receives-left h bs k o hs last path item t bp p bl bt =
      let n = count-join bs (cons item (key t k o hs)) in
      let other : Item K = record { left = t; name = k; offset = o } in
      inner-Receives h (low_at max_key path) (join bs (cons item (key t k o hs))) last p
        (omega (arith, bp.3)) (omega (arith, bp.4))
        (BalancedKeys-join max_key h bs (cons item (cons other hs)) bp.0 (
          BalancedKeys-cons max_key h item (cons other hs) bl
            (BalancedKeys-cons max_key h other hs bt bp.1)))
        bp.2

  pub Receives-last :
      (h : ℕ) (bs : Keys K) (path : PathUp K) (item : Item K) (t : Tree K)
      → BalancedPath max_key h (in_right bs ∷ path)
      → 0 < h
      → Balanced max_key (max_key / 2) h item.left
      → Balanced max_key (max_key / 2) h t
      → Receives (h + 1) (low_at max_key path) false (join bs (cons item nil)) t
  unfolding count
  Receives-last h bs path item t bp p bl bt =
      let n = count-join bs (cons item nil) in
      inner-Receives h (low_at max_key path) (join bs (cons item nil)) t p (omega (arith, bp.1))
        (omega (arith, bp.2))
        (BalancedKeys-join max_key h bs (cons item nil) bp.0
          (BalancedKeys-cons max_key h item nil bl (BalancedKeys-nil K max_key h)))
        bt
