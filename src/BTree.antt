-- ===== src/BTree.antt =====
-- The in-memory B-tree of jni/KvDB/SMDIndexSegment.h, class `SMDIndex`. A node is a value and `null`
-- is the pointer NULL. A node with its `pParent` chain is a value with the list of the frames from
-- it up to the root, so the code's walk up by `pParent` is a recursion on that list, and a node that
-- the source frees after a split is the value that is dropped. Keys are compared by `operator<` alone.

pub mod Flat
pub mod Sort
pub mod Divide
pub mod Place
pub mod Search
pub mod OnWay
pub mod Find
pub mod Balance
pub mod Insert
pub mod Overfull
pub mod Growth
pub mod Index
mod Tests
use leveldblib.Prelude.{
  ℕ, zero, suc, ◌/◌, Bool, true, false, Option, none, some, ltb, if◌then◌else◌, List, [], ◌∷◌,
}

abbrev pub invalid_index : ℕ
invalid_index = 0xffff_ffff

-- `BT_Node_t` (leaf flag, keys, most right subtree), and its `vecKey` of `BT_Key_t` (left subtree,
-- key, offset).
mutual
  pub data Tree (K : Type 0) : Type 0 where
    null : Tree K
    node : Bool → Keys K → Tree K → Tree K

  pub data Keys (K : Type 0) : Type 0 where
    nil : Keys K
    key : Tree K → K → ℕ → Keys K → Keys K

-- One `BT_Key_t`.
pub record Item (K : Type 0) : Type 0 where
  pub left : Tree K
  pub name : K
  pub offset : ℕ

-- A parent with the place of the node below it: the left subtree of one of the parent's keys, or
-- its most right subtree.
pub data Frame (K : Type 0) : Type 0 where
  in_left : Keys K → K → ℕ → Keys K → Tree K → Frame K
  in_right : Keys K → Frame K

abbrev pub PathUp : Type 0 → Type 0
PathUp K = List (Frame K)

-- The keys before and behind an index, and the key there.
pub record Split (K : Type 0) : Type 0 where
  pub before : Keys K
  pub middle : Item K
  pub behind : Keys K

-- Whether a node fits, and if not its halves with the key between them.
pub data Step (K : Type 0) : Type 0 where
  fits : Tree K → Step K
  splits : Tree K → K → ℕ → Tree K → Step K

module _ {K : Type 0} where
  abbrev pub cons : Item K → Keys K → Keys K
  cons e ks = key e.left e.name e.offset ks

  unfoldable pub count : Keys K → ℕ
  count nil = 0
  count (key l k o ks) = suc (count ks)

  unfoldable pub join : Keys K → Keys K → Keys K
  join nil ys = ys
  join (key l k o xs) ys = key l k o (join xs ys)

  -- `vecKey.push_back`
  unfoldable pub push_back : Keys K → Item K → Keys K
  push_back nil e = cons e nil
  push_back (key l k o ks) e = key l k o (push_back ks e)

  unfoldable pub split_at : ℕ → Keys K → Option (Split K)
  split_at n nil = none
  split_at zero (key l k o ks) =
      some
        (record { before = nil; middle = record { left = l; name = k; offset = o }; behind = ks })
  split_at (suc n) (key l k o ks) = elim (split_at n ks) [
    | none ↦ none
    | some s ↦ some (record s { before = key l k o s.before })
  ]

  -- The parent, with the subtree `t` where the node was.
  unfoldable pub plug : PathUp K → Tree K → Tree K
  plug [] t = t
  plug (in_left before k o behind right ∷ path) t =
      plug path (node false (join before (key t k o behind)) right)
  plug (in_right before ∷ path) t = plug path (node false before t)

  -- `ConnectRightNode`: the parent's keys and its most right subtree, with `right_node` where the
  -- node was.
  unfoldable pub connect_right_node : Frame K → Tree K → Keys K × Tree K
  connect_right_node (in_left before k o behind right) right_node =
      (join before (key right_node k o behind), right)
  connect_right_node (in_right before) right_node = (before, right_node)

  -- A subtree pointer of a new node: a leaf's stays NULL.
  abbrev pub unless_leaf : Bool → Tree K → Tree K
  unless_leaf leaf t = if leaf then null else t

  -- `if (pInsertAt->IsOverflow(this))`: the split of a node with too many keys. `split_at` cannot
  -- miss, since such a node has a key.
  unfoldable pub divide : ℕ → Bool → Keys K → Tree K → Step K
  unfolding count split_at
  divide max_key leaf keys right =
      if ltb max_key (count keys)
      then (elim (split_at (count keys / 2) keys) [
        | none ↦ fits (node leaf keys right)
        | some s ↦
            splits (node leaf s.before (unless_leaf leaf s.middle.left)) s.middle.name
              s.middle.offset (node leaf s.behind (unless_leaf leaf right))
      ])
      else fits (node leaf keys right)

-- The result of `FindInsertNode`: the leaf and its parents, or that the key is there already.
-- `fault` is a NULL pointer dereferenced.
pub data Found (K : Type 0) : Type 0 where
  at : Keys K → Tree K → PathUp K → Found K
  present fault : Found K

module _ {K : Type 0} (lt : K → K → Bool) where
  -- `std::sort` by `operator<`; the keys of a node are distinct, so its result is determined.
  unfoldable pub insert_key : Item K → Keys K → Keys K
  insert_key e nil = cons e nil
  insert_key e (key l k o ks) =
      let rest = insert_key e ks in if lt k e.name then key l k o rest else cons e (key l k o ks)

  unfoldable pub sort : Keys K → Keys K
  unfolding insert_key
  sort nil = nil
  sort (key l k o ks) = insert_key (record { left = l; name = k; offset = o }) (sort ks)

  -- `InsertAt`. A root that is split gets a new root above it, whose one key cannot overflow.
  unfoldable pub insert_at : ℕ → PathUp K → Bool → Keys K → Tree K → Item K → Tree K
  unfolding push_back sort divide connect_right_node plug
  insert_at max_key [] leaf keys right e =
      elim (divide max_key leaf (sort (push_back keys e)) right) [
        | fits t ↦ t
        | splits l k o r ↦ node false (key l k o nil) r
      ]
  insert_at max_key (frame ∷ path) leaf keys right e =
      elim (divide max_key leaf (sort (push_back keys e)) right) [
        | fits t ↦ plug (frame ∷ path) t
        | splits l k o r ↦
            let (keys', right') = connect_right_node frame r in
            insert_at max_key path false keys' right' (record { left = l; name = k; offset = o })
      ]

  -- `FindInsertNode`, at a node and along its keys. `std::equal_range` finds the first key that is
  -- not below `x`; its range is empty if `x` is below that key.
  unfoldable mutual
    pub find_insert_node : K → Tree K → PathUp K → Found K
    find_insert_node x null path = fault
    find_insert_node x (node leaf keys right) path =
        find_in_keys x leaf keys right (find_insert_node x right) path nil keys

    pub find_in_keys :
        K → Bool → Keys K → Tree K → (PathUp K → Found K) → PathUp K → Keys K → Keys K → Found K
    find_in_keys x leaf keys right in_last path before nil =
        if leaf then at keys right path else in_last (in_right keys ∷ path)
    find_in_keys x leaf keys right in_last path before (key l k o ks) =
        let further =
          find_in_keys x leaf keys right in_last path (join before (key l k o nil)) ks in
        let down = find_insert_node x l (in_left before k o ks right ∷ path) in
        if lt k x
        then further
        else if lt x k
        then (if leaf then at keys right path else down)
        else present

  -- `InsertNode`: the `bool`, and the new root; `none` is a fault.
  unfoldable pub insert_node : ℕ → K → ℕ → Tree K → Option (Bool × Tree K)
  unfolding find_insert_node insert_at
  insert_node max_key x offset null = some (true, node true (key null x offset nil) null)
  insert_node max_key x offset (node leaf keys right) =
      elim (find_insert_node x (node leaf keys right) []) [
        | at ks r path ↦ some (
          true,
          insert_at max_key path true ks r (record { left = null; name = x; offset = offset }),
        )
        | present ↦ some (false, node leaf keys right)
        | fault ↦ none
      ]

  -- `SearchKey`, at a node and along its keys.
  unfoldable mutual
    pub search_key : K → Tree K → ℕ
    search_key x null = invalid_index
    search_key x (node leaf keys right) = search_keys x (search_key x right) keys

    pub search_keys : K → ℕ → Keys K → ℕ
    search_keys x in_last nil = in_last
    search_keys x in_last (key l k o ks) =
        let further = search_keys x in_last ks in
        let down = search_key x l in if lt k x then further else if lt x k then down else o

  -- `searchFromMem`; `none` is the NULL root dereferenced.
  unfoldable pub search_from_mem : K → Tree K → Option ℕ
  unfolding search_key
  search_from_mem x null = none
  search_from_mem x (node leaf keys right) = some (search_key x (node leaf keys right))

  -- A client's calls of `insertKeyOffset` in order, whatever each returns; `none` is a fault.
  unfoldable pub insert_all : ℕ → List (K × ℕ) → Tree K → Option (Tree K)
  unfolding insert_node
  insert_all max_key [] root = some root
  insert_all max_key ((x, offset) ∷ calls) root = elim (insert_node max_key x offset root) [
    | none ↦ none
    | some (_, root') ↦ insert_all max_key calls root'
  ]
