-- ===== src/BTree/Balance.antt =====
-- The shape of the B-trees of jni/KvDB/SMDIndexSegment.h: all leaves at one depth, leaf flags right,
-- no node above `m_nMaxKey` keys, and none but the root below half of it.
use leveldblib.Prelude.{
  ℕ, suc, ◌+◌, ◌-◌, ◌/◌, ◌<◌, ◌≤◌, ◌≡◌, refl, subst, Bool, true, false, ◌==◌, [], ◌∷◌, arith,
}
use leveldblib.BTree.{
  Tree, null, node, Keys, nil, key, Item, in_left, in_right, PathUp, cons, count, join, plug,
  unless_leaf,
}
use leveldblib.BTree.Flat.{count-join}
use leveldblib.BTree.Divide.{LeafOk, NoLefts}

-- `low` is the least number of keys of the top node, `height` the number of its levels.
unfoldable mutual
  pub Balanced : {K : Type 0} → (max_key low height : ℕ) → Tree K → Type 0
  Balanced max_key low height null = height ≡ 0
  Balanced max_key low height (node leaf keys right) =
      (0 < height)
      × (leaf ≡ (height == 1))
      × (low ≤ count keys)
      × (count keys ≤ max_key)
      × BalancedKeys max_key (height - 1) keys
      × Balanced max_key (max_key / 2) (height - 1) right

  pub BalancedKeys : {K : Type 0} → (max_key height : ℕ) → Keys K → Type 0
  BalancedKeys max_key height nil = Unit {0}
  BalancedKeys max_key height (key l k o ks) =
      Balanced max_key (max_key / 2) height l × BalancedKeys max_key height ks

pub Balanced-null : (K : Type 0) (max_key low h : ℕ) → h ≡ 0 → Balanced {K = K} max_key low h null
unfolding Balanced
Balanced-null K max_key low h e = e

pub BalancedKeys-nil : (K : Type 0) (max_key h : ℕ) → BalancedKeys {K = K} max_key h nil
unfolding Balanced
BalancedKeys-nil K max_key h = tt

inner_flag : (h : ℕ) → 0 < h → false ≡ (h + 1 == 1)
inner_flag h p = ground arith

module _ {K : Type 0} (max_key : ℕ) where
  pub Balanced-node :
      (low height : ℕ) (leaf : Bool) (keys : Keys K) (right : Tree K)
      → 0 < height
      → leaf ≡ (height == 1)
      → low ≤ count keys
      → count keys ≤ max_key
      → BalancedKeys max_key (height - 1) keys
      → Balanced max_key (max_key / 2) (height - 1) right
      → Balanced max_key low height (node leaf keys right)
  unfolding Balanced
  Balanced-node low height leaf keys right a b c d e f = (a, b, c, d, e, f)

  pub BalancedKeys-join :
      (h : ℕ) (xs ys : Keys K)
      → BalancedKeys max_key h xs
      → BalancedKeys max_key h ys
      → BalancedKeys max_key h (join xs ys)
  unfolding Balanced join
  BalancedKeys-join h nil ys hx hy = hy
  BalancedKeys-join h (key l k o xs) ys hx hy = (hx.0, BalancedKeys-join h xs ys hx.1 hy)

  pub BalancedKeys-join_inv :
      (h : ℕ) (xs ys : Keys K)
      → BalancedKeys max_key h (join xs ys)
      → BalancedKeys max_key h xs × BalancedKeys max_key h ys
  unfolding Balanced join
  BalancedKeys-join_inv h nil ys b = (tt, b)
  BalancedKeys-join_inv h (key l k o xs) ys b =
      let (x, y) = BalancedKeys-join_inv h xs ys b.1 in ((b.0, x), y)

  pub BalancedKeys-cons :
      (h : ℕ) (e : Item K) (ks : Keys K)
      → Balanced max_key (max_key / 2) h e.left
      → BalancedKeys max_key h ks
      → BalancedKeys max_key h (cons e ks)
  unfolding Balanced
  BalancedKeys-cons h e ks a b = (a, b)

  pub BalancedKeys-cons_inv :
      (h : ℕ) (e : Item K) (ks : Keys K)
      → BalancedKeys max_key h (cons e ks)
      → Balanced max_key (max_key / 2) h e.left × BalancedKeys max_key h ks
  unfolding Balanced
  BalancedKeys-cons_inv h e ks b = b

  pub null_of_Balanced : (low : ℕ) (t : Tree K) → Balanced max_key low 0 t → t ≡ null
  unfolding Balanced
  null_of_Balanced low null b = refl
  null_of_Balanced low (node leaf keys right) b = absurd (omega arith)

  NoLefts-Balanced : (ks : Keys K) → BalancedKeys max_key 0 ks → NoLefts ks
  unfolding Balanced
  NoLefts-Balanced nil b = tt
  NoLefts-Balanced (key l k o ks) b =
      (null_of_Balanced (max_key / 2) l b.0, NoLefts-Balanced ks b.1)

  -- A node flagged as a leaf has no subtrees.
  pub LeafOk-Balanced :
      (h : ℕ) (leaf : Bool) (keys : Keys K) (right : Tree K)
      → 0 < h
      → leaf ≡ (h == 1)
      → BalancedKeys max_key (h - 1) keys
      → Balanced max_key (max_key / 2) (h - 1) right
      → LeafOk leaf keys right
  LeafOk-Balanced h false keys right p e bk br = tt
  LeafOk-Balanced h true keys right p e bk br =
      let z : h - 1 ≡ 0 = ground arith in
      (
        NoLefts-Balanced keys (subst (λ n. BalancedKeys max_key n keys) z bk),
        null_of_Balanced (max_key / 2) right
            (subst (λ n. Balanced max_key (max_key / 2) n right) z br),
      )

  -- A half of a split node: a leaf's subtree pointers stay NULL, which is a tree of height 0.
  pub unless_leaf-Balanced :
      (h : ℕ) (leaf : Bool) (t : Tree K)
      → 0 < h
      → leaf ≡ (h == 1)
      → Balanced max_key (max_key / 2) (h - 1) t
      → Balanced max_key (max_key / 2) (h - 1) (unless_leaf leaf t)
  unless_leaf-Balanced h true t p e b = Balanced-null K max_key (max_key / 2) (h - 1) (ground arith)
  unless_leaf-Balanced h false t p e b = b

  -- The least number of keys of a node with these parents.
  abbrev pub low_at : PathUp K → ℕ
  low_at [] = 1
  low_at (frame ∷ path) = max_key / 2

  -- The parents of a node of the given height, with all that hangs off them.
  abbrev pub BalancedPath : ℕ → PathUp K → Type 0
  BalancedPath h [] = Unit {0}
  BalancedPath h (in_left before k o behind right ∷ path) =
      BalancedKeys max_key h before
      × BalancedKeys max_key h behind
      × Balanced max_key (max_key / 2) h right
      × (low_at path ≤ suc (count before + count behind))
      × (suc (count before + count behind) ≤ max_key)
      × BalancedPath (h + 1) path
  BalancedPath h (in_right before ∷ path) =
      BalancedKeys max_key h before
      × (low_at path ≤ count before)
      × (count before ≤ max_key)
      × BalancedPath (h + 1) path

  -- A node above children of height `h`.
  pub inner-Balanced :
      (low h : ℕ) (keys : Keys K) (right : Tree K)
      → 0 < h
      → low ≤ count keys
      → count keys ≤ max_key
      → BalancedKeys max_key h keys
      → Balanced max_key (max_key / 2) h right
      → Balanced max_key low (h + 1) (node false keys right)
  inner-Balanced low h keys right p l m bk br =
      let e : h ≡ h + 1 - 1 = omega arith in
      Balanced-node low (h + 1) false keys right (omega arith) (inner_flag h p) l m
        (subst (λ n. BalancedKeys max_key n keys) e bk)
        (subst (λ n. Balanced max_key (max_key / 2) n right) e br)

  pub plug-Balanced :
      (h : ℕ) (path : PathUp K) (t : Tree K)
      → 0 < h
      → BalancedPath h path
      → Balanced max_key (low_at path) h t
      → (g : ℕ) × Balanced max_key 1 g (plug path t)
  unfolding plug count
  plug-Balanced h [] t p bp b = (h, b)
  plug-Balanced h (in_left before k o behind right ∷ path) t p bp b =
      let keys = join before (key t k o behind) in
      let n = count-join before (key t k o behind) in
      let item : Item K = record { left = t; name = k; offset = o } in
      plug-Balanced (h + 1) path (node false keys right) (omega arith) bp.5 (
        inner-Balanced (low_at path) h keys right p (omega (arith, bp.3)) (omega (arith, bp.4))
          (BalancedKeys-join h before (cons item behind) bp.0
            (BalancedKeys-cons h item behind b bp.1))
          bp.2)
  plug-Balanced h (in_right before ∷ path) t p bp b =
      plug-Balanced (h + 1) path (node false before t) (omega arith) bp.3
        (inner-Balanced (low_at path) h before t p bp.1 bp.2 bp.0 b)
