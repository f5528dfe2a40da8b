-- ===== src/BTree/Index.antt =====
-- The class `SMDIndex` of jni/KvDB/SMDIndexSegment.h as a map from keys to offsets: `InsertNode`
-- refines insertion into a sorted list of entries, and `searchFromMem` reads it.
use leveldblib.Prelude.{
  ℕ, ◌+◌, ◌/◌, ◌<◌, ◌≡◌, refl, sym, ap, subst, ◌∙◌, Bool, true, false, Option, none, some, List, [],
  ◌∷◌, ◌++◌, append_assoc, append-nil, arith, some-injective,
}
use leveldblib.Order.{IsOrder, Assoc, Sorted, lookup, put, put_new, is_none}
use leveldblib.Order.Sorted.{
  put_new_of_none, put_new_of_some, lookup-put_new, lookup-append, or_else, lookup_here, Sorted-put,
  lookup-append-Below, lookup_of_Above,
}
use leveldblib.BTree.{
  Tree, null, node, Keys, nil, key, Item, PathUp, cons, count, join, Found, at, present, fault,
  find_insert_node, insert_at, insert_node, insert_all, search_key, search_from_mem,
}
use leveldblib.BTree.Flat.{inorder, flat, around, inorder-null, flat-key, flat-join, count-join}
use leveldblib.BTree.Balance.{
  Balanced, BalancedKeys, BalancedKeys-join, BalancedKeys-join_inv, BalancedKeys-cons,
  Balanced-null, LeafOk-Balanced, low_at,
}
use leveldblib.BTree.Place.{put-around, put_between, lookup-around}
use leveldblib.BTree.OnWay.{LeafFor, Reached}
use leveldblib.BTree.Find.{find_insert_node_lem}
use leveldblib.BTree.Insert.{entries_with, inorder-insert_at}
use leveldblib.BTree.Overfull.{Receives}
use leveldblib.BTree.Growth.{insert_at-Balanced}
use leveldblib.BTree.Search.{or_invalid, search_key_lem}

module _ {K : Type 0} (lt : K → K → Bool) where
  -- The invariant: entries sorted by key without repetition, leaves at one depth, every node within
  -- its bounds.
  pub record IsIndex (max_key : ℕ) (t : Tree K) : Type 0 where
    pub sorted : Sorted lt (inorder t)
    pub height : ℕ
    pub balanced : Balanced max_key 1 height t

module _ {K : Type 0} (lt : K → K → Bool) (ord : IsOrder lt) (max_key : ℕ)
    (positive : 0 < max_key) where
  module _ (x : K) (o : ℕ) where
    -- A new entry in a leaf that is the place of `x`.
    leaf_entries :
        (total : Assoc K) (keys : Keys K) (right : Tree K) (path : PathUp K)
        → (f : LeafFor lt ord max_key x total keys right path)
        → around path
            (entries_with f.before (record { left = null; name = x; offset = o }) f.behind right)
          ≡ put lt x o total
    leaf_entries total keys right path f =
        let xs = flat f.before in
        let ys = flat f.behind ++ inorder right in
        ap (around path) (
          simp (flat-join, flat-key, inorder-null, append_assoc)
            (sym (put_between lt ord x o xs ys f.below f.above)))
        ∙ sym (put-around lt ord x path o (xs ++ ys) f.fits)
        ∙ ap (put lt x o) (ap (around path) (simp (← f.parts, flat-join, append_assoc)) ∙ f.holds)

    leaf-Receives :
        (total : Assoc K) (keys : Keys K) (right : Tree K) (path : PathUp K)
        → (f : LeafFor lt ord max_key x total keys right path)
        → Receives max_key 1
            (low_at max_key path)
            true
            (join f.before (cons (record { left = null; name = x; offset = o }) f.behind))
            right
    unfolding count
    leaf-Receives total keys right path f =
        let item : Item K = record { left = null; name = x; offset = o } in
        let n = count-join f.before (cons item f.behind) in
        let m : count f.before + count f.behind ≡ count keys =
          sym (count-join f.before f.behind) ∙ ap count f.parts in
        let (bb, ba) =
          BalancedKeys-join_inv max_key 0 f.before f.behind
            (subst (BalancedKeys max_key 0) (sym f.parts) f.keys_null) in
        record {
          tall = omega arith;
          flag = refl;
          least = omega (arith, f.least);
          most = omega (arith, f.most);
          below = BalancedKeys-join max_key 0 f.before (cons item f.behind) bb (
              BalancedKeys-cons max_key 0 item f.behind
                (Balanced-null K max_key (max_key / 2) 0 refl) ba);
          last = f.right_null;
        }

    -- `InsertAt` on the leaf that `FindInsertNode` found.
    insert_at_leaf :
        (total : Assoc K) (keys : Keys K) (right : Tree K) (path : PathUp K)
        → LeafFor lt ord max_key x total keys right path
        → Sorted lt (put lt x o total)
        → let t =
            insert_at lt max_key path true keys right
              (record { left = null; name = x; offset = o }) in
          IsIndex lt max_key t × (inorder t ≡ put lt x o total)
    insert_at_leaf total keys right path f s =
        let item : Item K = record { left = null; name = x; offset = o } in
        let es = leaf_entries total keys right path f in
        let sorted = subst (Sorted lt) (sym es) s in
        let r = leaf-Receives total keys right path f in
        let ok =
          LeafOk-Balanced max_key 1 true (join f.before (cons item f.behind)) right r.tall r.flag
            r.below r.last in
        let e =
          inorder-insert_at lt ord max_key path true f.before f.behind right item ok sorted ∙ es in
        let (g, b) =
          insert_at-Balanced lt ord max_key positive path 1 true f.before f.behind right item r
            f.parents sorted in
        subst
          (λ ks.
            let t = insert_at lt max_key path true ks right item in
            IsIndex lt max_key t × (inorder t ≡ put lt x o total))
          f.parts (record { sorted = subst (Sorted lt) (sym e) s; height = g; balanced = b }, e)

    -- What `InsertNode` answers, and the tree that it leaves.
    pub data Inserted (t : Tree K) : Option (Bool × Tree K) → Type 0 where
      new :
          (t' : Tree K)
          → lookup lt x (inorder t) ≡ none
          → IsIndex lt max_key t'
          → inorder t' ≡ put lt x o (inorder t)
          → Inserted t (some (true, t'))
      old : (p : ℕ) → lookup lt x (inorder t) ≡ some p → Inserted t (some (false, t))

    leaf_absent :
        (total : Assoc K) (keys : Keys K) (right : Tree K) (path : PathUp K)
        → LeafFor lt ord max_key x total keys right path
        → lookup lt x total ≡ none
    leaf_absent total keys right path f =
        let rest = flat f.behind ++ inorder right in
        let shape : flat f.before ++ rest ≡ flat keys ++ inorder right =
          simp (← f.parts, flat-join, append_assoc) in
        ap (lookup lt x) (sym f.holds)
        ∙ lookup-around lt ord x path (flat keys ++ inorder right) f.fits
        ∙ ap (lookup lt x) (sym shape)
        ∙ lookup-append-Below lt ord x (flat f.before) rest f.below
        ∙ lookup_of_Above lt ord x rest f.above

    insert_found :
        (leaf : Bool) (keys : Keys K) (right : Tree K) (f : Found K)
        → IsIndex lt max_key (node leaf keys right)
        → Reached lt ord max_key x (inorder (node leaf keys right)) f
        → Inserted (node leaf keys right) (elim f [
          | at ks r path ↦ some (
            true,
            insert_at lt max_key path true ks r (record { left = null; name = x; offset = o }),
          )
          | present ↦ some (false, node leaf keys right)
          | fault ↦ none
        ])
    insert_found leaf keys right (at ks r path) h f =
        let total = inorder (node leaf keys right) in
        let n = leaf_absent total ks r path f in
        let (i, es) = insert_at_leaf total ks r path f (Sorted-put lt ord x o total n h.sorted) in
        new (insert_at lt max_key path true ks r (record { left = null; name = x; offset = o })) n i
          es
    insert_found leaf keys right present h l = old l.0 l.1
    insert_found leaf keys right fault h l = absurd l

    first_leaf : IsIndex lt max_key (node true (key null x o nil) null)
    unfolding Balanced inorder count
    first_leaf = record {
      sorted = (tt, tt);
      height = 1;
      balanced = (omega arith, refl, omega arith, omega arith, (refl, tt), refl);
    }

    -- `InsertNode` answers false exactly for a key that is present, and then leaves the tree; a new
    -- key is put in its place.
    pub insert_node-Inserted :
        (t : Tree K) → IsIndex lt max_key t → Inserted t (insert_node lt max_key x o t)
    unfolding insert_node inorder put Balanced around
    insert_node-Inserted null h =
        new (node true (key null x o nil) null) (lookup_of_Above lt ord x [] tt) first_leaf refl
    insert_node-Inserted (node leaf keys right) h =
        insert_found leaf keys right (find_insert_node lt x (node leaf keys right) []) h (
          find_insert_node_lem lt ord max_key x (node leaf keys right) [] h.height h.balanced.0
            h.balanced tt tt h.sorted)

    Inserted-put_new :
        (t : Tree K) (r : Option (Bool × Tree K))
        → IsIndex lt max_key t
        → Inserted t r
        → (t' : Tree K) × (r ≡ some (is_none (lookup lt x (inorder t)), t'))
          × IsIndex lt max_key t'
          × (inorder t' ≡ put_new lt x o (inorder t))
    Inserted-put_new t r h (new t' n i e) =
        rw n (t', refl, i, e ∙ sym (put_new_of_none lt ord x o (inorder t) n))
    Inserted-put_new t r h (old p l) =
        rw l (t, refl, h, sym (put_new_of_some lt ord x o p (inorder t) l))

    -- For a strict total order and at least one key a node, on a tree that keeps the invariant
    -- (sorted entries, leaves at one depth, nodes within their bounds) `InsertNode` is total: it
    -- answers whether the key was absent, and the tree that it leaves keeps the invariant and
    -- holds the old entries with the new one in its place, or just the old entries if the key was
    -- there.
    pub insert_node-put_new :
        (t : Tree K)
        → IsIndex lt max_key t
        → (t' : Tree K) × (insert_node lt max_key x o t
            ≡ some (is_none (lookup lt x (inorder t)), t'))
          × IsIndex lt max_key t'
          × (inorder t' ≡ put_new lt x o (inorder t))
    insert_node-put_new t h =
        Inserted-put_new t (insert_node lt max_key x o t) h (insert_node-Inserted t h)

  insert_all_step :
      (x : K) (o : ℕ) (calls : List (K × ℕ)) (t t' : Tree K) (b : Bool)
      → insert_node lt max_key x o t ≡ some (b, t')
      → insert_all lt max_key ((x, o) ∷ calls) t ≡ insert_all lt max_key calls t'
  unfolding insert_all
  insert_all_step x o calls t t' b e = rw (insert_all, e) refl

  -- Calls of `InsertNode` on a tree that keeps the invariant: none faults, the tree that is left
  -- keeps it, and a lookup finds an old entry, else the first call with the key.
  insert_all_lem :
      (y : K) (calls : List (K × ℕ)) (t : Tree K)
      → IsIndex lt max_key t
      → (t' : Tree K) × (insert_all lt max_key calls t ≡ some t')
        × IsIndex lt max_key t'
        × (lookup lt y (inorder t') ≡ lookup lt y (inorder t ++ calls))
  unfolding insert_all
  insert_all_lem y [] t h = (t, refl, h, ap (lookup lt y) (sym (append-nil (inorder t))))
  insert_all_lem y ((x, o) ∷ calls) t h =
      let (t1, e, h1, es) = insert_node-put_new x o t h in
      let (t2, e2, h2, l) = insert_all_lem y calls t1 h1 in
      let step : lookup lt y (inorder t1 ++ calls) ≡ lookup lt y (inorder t ++ ((x, o) ∷ calls)) =
        lookup-append lt ord y (inorder t1) calls
        ∙ ap (λ a. or_else lt ord a (lookup lt y calls))
            (ap (lookup lt y) es ∙ lookup-put_new lt ord y x o (inorder t))
        ∙ sym (lookup-append lt ord y (inorder t ++ ((x, o) ∷ [])) calls)
        ∙ ap (lookup lt y) (append_assoc (inorder t) ((x, o) ∷ []) calls) in
      (t2, insert_all_step x o calls t t1 (is_none (lookup lt x (inorder t))) e ∙ e2, h2, l ∙ step)

  empty-IsIndex : IsIndex lt max_key null
  unfolding Balanced inorder
  empty-IsIndex = record { sorted = tt; height = 0; balanced = refl }

  -- `searchFromMem` on a root that holds an entry is `SearchKey`.
  search_from_mem_lem :
      (y x : K) (o : ℕ) (t : Tree K)
      → lookup lt x (inorder t) ≡ some o
      → search_from_mem lt y t ≡ some (search_key lt y t)
  unfolding search_from_mem inorder lookup
  search_from_mem_lem y x o null e = absurd (ground (arith, e))
  search_from_mem_lem y x o (node leaf keys right) e = refl

  -- For a strict total order, at least one key a node, and one or more calls of `insertKeyOffset`
  -- on an empty index: no call faults, and then `searchFromMem` gives the offset of the first call
  -- that had the searched key, or 0xffffffff if there was none.
  pub search_from_mem-insert_all :
      (x : K) (o : ℕ) (calls : List (K × ℕ)) (y : K)
      → (root : Tree K) × (insert_all lt max_key ((x, o) ∷ calls) null ≡ some root)
        × (search_from_mem lt y root ≡ some (or_invalid (lookup lt y ((x, o) ∷ calls))))
  search_from_mem-insert_all x o calls y =
      let all = (x, o) ∷ calls in
      let (root, e, h, l) = insert_all_lem y all null empty-IsIndex in
      let (root', e', h', l') = insert_all_lem x all null empty-IsIndex in
      let same : root' ≡ root = some-injective root' root (sym e' ∙ e) in
      let start : lookup lt x all ≡ some o = lookup_here lt ord o [] calls x tt in
      let held : lookup lt x (inorder root) ≡ some o =
        ap (λ t. lookup lt x (inorder t)) (sym same)
        ∙ l'
        ∙ ap (λ es. lookup lt x (es ++ all)) inorder-null
        ∙ start in
      (
        root,
        e,
        search_from_mem_lem y x o root held
            ∙ ap some (
                search_key_lem lt ord y root h.sorted
                ∙ ap or_invalid (l ∙ ap (λ es. lookup lt y (es ++ all)) inorder-null)),
      )
