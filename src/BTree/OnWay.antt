-- ===== src/BTree/OnWay.antt =====
-- `SMDIndex::FindInsertNode` of jni/KvDB/SMDIndexSegment.h: a node on the way down a balanced, sorted tree,
-- and the leaf where the key belongs.
use leveldblib.Prelude.{
  ℕ, ◌+◌, ◌-◌, ◌/◌, ◌<◌, ◌≤◌, ◌≡◌, refl, ap, subst, ◌∙◌, Bool, true, false, ◌==◌, some, [], ◌∷◌,
  ◌++◌, append_assoc, append-nil, arith,
}
use leveldblib.Order.{IsOrder, Assoc, Above, Below, Sorted, lookup}
use leveldblib.Order.Sorted.{
  All-append, All-append_inv, Above-trans, Below-trans, Sorted-append_inv, lookup_here,
}
use leveldblib.BTree.{
  Tree, null, node, Keys, nil, key, Item, in_left, in_right, PathUp, cons, count, join, Found, at,
  present, fault,
}
use leveldblib.BTree.Flat.{
  inorder, flat, around, inorder-null, flat-key, flat-nil, flat-join, join_assoc, count-join,
}
use leveldblib.BTree.Divide.{NoLefts-join_inv}
use leveldblib.BTree.Balance.{
  Balanced, BalancedKeys, BalancedKeys-join_inv, BalancedKeys-cons_inv, LeafOk-Balanced, low_at,
  BalancedPath,
}
use leveldblib.BTree.Place.{split_entries, Around-key, FitsPath, lookup-around}

pub join_next :
    {K : Type 0} (bs : Keys K) (l : Tree K) (k : K) (o : ℕ) (ks : Keys K)
    → join (join bs (key l k o nil)) ks ≡ join bs (key l k o ks)
unfolding join
join_next bs l k o ks = join_assoc bs (key l k o nil) ks

pub join_nil_left : {K : Type 0} (ks : Keys K) → join nil ks ≡ ks
unfolding join
join_nil_left ks = refl

module _ {K : Type 0} (lt : K → K → Bool) (ord : IsOrder lt) (max_key : ℕ) (x : K) where
  -- A leaf where `x` belongs, in a tree that holds `total`.
  pub record LeafFor (total : Assoc K) (keys : Keys K) (right : Tree K) (path : PathUp K)
      : Type 0 where
    pub before : Keys K
    pub behind : Keys K
    pub parts : join before behind ≡ keys
    pub below : Below lt x (flat before)
    pub above : Above lt x (flat behind ++ inorder right)
    pub holds : around path (flat keys ++ inorder right) ≡ total
    pub fits : FitsPath lt ord x path
    pub least : low_at max_key path ≤ count keys
    pub most : count keys ≤ max_key
    pub keys_null : BalancedKeys max_key 0 keys
    pub right_null : Balanced max_key (max_key / 2) 0 right
    pub parents : BalancedPath max_key 1 path

  pub null_tall : (h low : ℕ) → 0 < h → Balanced {K = K} max_key low h null → ⊥
  unfolding Balanced
  null_tall h low p b = omega arith

  -- What the search promises of its result.
  abbrev pub Reached : Assoc K → Found K → Type 0
  Reached total (at keys right path) = LeafFor total keys right path
  Reached total present = (o : ℕ) × (lookup lt x total ≡ some o)
  Reached total fault = ⊥

  -- A node on the way, under its parents.
  pub record OnWay (h : ℕ) (leaf : Bool) (keys : Keys K) (right : Tree K) (path : PathUp K)
      : Type 0 where
    pub tall : 0 < h
    pub flag : leaf ≡ (h == 1)
    pub least : low_at max_key path ≤ count keys
    pub most : count keys ≤ max_key
    pub below : BalancedKeys max_key (h - 1) keys
    pub last : Balanced max_key (max_key / 2) (h - 1) right
    pub parents : BalancedPath max_key h path
    pub fits : FitsPath lt ord x path
    pub sorted : Sorted lt (flat keys ++ inorder right)

  pub OnWay-leaf :
      (h : ℕ) (keys : Keys K) (right : Tree K) (path : PathUp K)
      → OnWay h true keys right path
      → (before behind : Keys K) → join before behind ≡ keys
      → Below lt x (flat before)
      → Above lt x (flat behind)
      → LeafFor (around path (flat keys ++ inorder right)) keys right path
  OnWay-leaf h keys right path w before behind e b a =
      let one : h ≡ 1 = ground (arith, w.flag) in
      let z : h - 1 ≡ 0 = omega arith in
      let gone : right ≡ null =
        (LeafOk-Balanced max_key h true keys right w.tall w.flag w.below w.last).1 in
      record {
        before = before;
        behind = behind;
        parts = e;
        below = b;
        above = rw (gone, inorder-null, append-nil) a;
        holds = refl;
        fits = w.fits;
        least = w.least;
        most = w.most;
        keys_null = subst (λ n. BalancedKeys max_key n keys) z w.below;
        right_null = subst (λ n. Balanced max_key (max_key / 2) n right) z w.last;
        parents = subst (λ n. BalancedPath max_key n path) one w.parents;
      }

  pub OnWay-Balanced :
      (h : ℕ) (leaf : Bool) (keys : Keys K) (right : Tree K) (path : PathUp K)
      → Balanced max_key (low_at max_key path) h (node leaf keys right)
      → BalancedPath max_key h path
      → FitsPath lt ord x path
      → Sorted lt (inorder (node leaf keys right))
      → OnWay h leaf keys right path
  unfolding Balanced inorder
  OnWay-Balanced h leaf keys right path b p f s = record {
    tall = b.0;
    flag = b.1;
    least = b.2;
    most = b.3;
    below = b.4;
    last = b.5;
    parents = p;
    fits = f;
    sorted = s;
  }

  -- Down the left subtree of a key above `x`.
  pub down_left :
      (h : ℕ) (bs : Keys K) (l : Tree K) (k : K) (o : ℕ) (ks : Keys K) (right : Tree K)
      (path : PathUp K)
      → OnWay h false (join bs (key l k o ks)) right path
      → lt x k ≡ true
      → Below lt x (flat bs)
      → (0 < h - 1)
        × Balanced max_key (max_key / 2) (h - 1) l
        × BalancedPath max_key (h - 1) (in_left bs k o ks right ∷ path)
        × FitsPath lt ord x (in_left bs k o ks right ∷ path)
        × Sorted lt (inorder l)
  unfolding count
  down_left h bs l k o ks right path w u b =
      let deep : 0 < h - 1 = ground (arith, w.flag, w.tall) in
      let back : h ≡ h - 1 + 1 = omega arith in
      let n = count-join bs (key l k o ks) in
      let item : Item K = record { left = l; name = k; offset = o } in
      let (bb, rest) = BalancedKeys-join_inv max_key (h - 1) bs (cons item ks) w.below in
      let (bl, bk) = BalancedKeys-cons_inv max_key (h - 1) item ks rest in
      let r = Around-key lt ord bs l k o ks right w.sorted in
      (
        deep,
        bl,
        (
          bb,
          bk,
          w.last,
          omega (arith, w.least),
          omega (arith, w.most),
          subst (λ m. BalancedPath max_key m path) back w.parents,
        ),
        (b, u, Above-trans lt ord x k (flat ks ++ inorder right) u r.above, w.fits),
        (Sorted-append_inv lt ord (flat bs) (inorder l) r.left).1,
      )

  -- Down the last subtree, when all keys are below `x`.
  pub down_last :
      (h : ℕ) (keys : Keys K) (right : Tree K) (path : PathUp K)
      → OnWay h false keys right path
      → Below lt x (flat keys)
      → (0 < h - 1)
        × Balanced max_key (max_key / 2) (h - 1) right
        × BalancedPath max_key (h - 1) (in_right keys ∷ path)
        × FitsPath lt ord x (in_right keys ∷ path)
        × Sorted lt (inorder right)
  down_last h keys right path w b =
      let deep : 0 < h - 1 = ground (arith, w.flag, w.tall) in
      let back : h ≡ h - 1 + 1 = omega arith in
      (
        deep,
        w.last,
        (w.below, w.least, w.most, subst (λ m. BalancedPath max_key m path) back w.parents),
        (b, w.fits),
        (Sorted-append_inv lt ord (flat keys) (inorder right) w.sorted).1,
      )

  -- The entries before the next key are below `x` if that key is.
  pub Below-next :
      (bs : Keys K) (l : Tree K) (k : K) (o : ℕ)
      → Below lt k (flat bs ++ inorder l)
      → lt k x ≡ true
      → Below lt x (flat (join bs (key l k o nil)))
  Below-next bs l k o b t =
      let shape : (flat bs ++ inorder l) ++ ((k, o) ∷ []) ≡ flat (join bs (key l k o nil)) =
        simp (flat-join, flat-key, flat-nil, append_assoc) in
      subst (Below lt x) shape (
        All-append (λ (e : K × ℕ). lt e.0 x ≡ true) (flat bs ++ inorder l) ((k, o) ∷ [])
          (Below-trans lt ord k x (flat bs ++ inorder l) t b) (t, tt))

  -- Behind a leaf's key above `x` all is above `x`.
  pub leaf-Above :
      (h : ℕ) (bs : Keys K) (l : Tree K) (k : K) (o : ℕ) (ks : Keys K) (right : Tree K)
      (path : PathUp K)
      → OnWay h true (join bs (key l k o ks)) right path
      → lt x k ≡ true
      → Above lt x (flat (key l k o ks))
  leaf-Above h bs l k o ks right path w u =
      let item : Item K = record { left = l; name = k; offset = o } in
      let ok =
        LeafOk-Balanced max_key h true (join bs (cons item ks)) right w.tall w.flag w.below
          w.last in
      let gone = (NoLefts-join_inv bs (cons item ks) ok.0).1.0 in
      let r = Around-key lt ord bs l k o ks right w.sorted in
      let (a, _) =
        All-append_inv (λ (e : K × ℕ). lt k e.0 ≡ true) (flat ks) (inorder right) r.above in
      rw (flat-key l k o ks, gone, inorder-null) (u, Above-trans lt ord x k (flat ks) u a)

  -- A key that is neither below nor above `x` is `x`.
  pub present_here :
      (h : ℕ) (leaf : Bool) (bs : Keys K) (l : Tree K) (k : K) (o : ℕ) (ks : Keys K)
      (right : Tree K) (path : PathUp K)
      → OnWay h leaf (join bs (key l k o ks)) right path
      → lt k x ≡ false
      → lt x k ≡ false
      → lookup lt x (around path (flat (join bs (key l k o ks)) ++ inorder right)) ≡ some o
  present_here h leaf bs l k o ks right path w f g =
      let r = Around-key lt ord bs l k o ks right w.sorted in
      let xs = flat bs ++ inorder l in
      let ys = flat ks ++ inorder right in
      lookup-around lt ord x path (flat (join bs (key l k o ks)) ++ inorder right) w.fits
      ∙ ap (lookup lt x) (split_entries lt ord bs l k o ks right)
      ∙ subst (λ y. lookup lt y (xs ++ ((k, o) ∷ ys)) ≡ some o) (ord.connex k x f g)
          (lookup_here lt ord o xs ys k r.below)
