-- ===== src/BTree/Tests.antt =====
-- Runs of the B-tree of jni/KvDB/SMDIndexSegment.h on keys that are numbers, two keys a node.
use leveldblib.Prelude.{ℕ, ◌≡◌, refl, true, false, some, List, [], ◌∷◌, arith, ltb}
use leveldblib.Order.{IsOrder, lookup, put, put_new}
use leveldblib.BTree.{
  Tree, null, node, nil, key, count, insert_node, insert_all, search_key, search_from_mem,
}
use leveldblib.BTree.Flat.{inorder}
use leveldblib.BTree.Balance.{Balanced}
use leveldblib.BTree.Search.{search_key_lem}
use leveldblib.BTree.Index.{IsIndex, insert_node-put_new, search_from_mem-insert_all}

ltb-IsOrder : IsOrder ltb
ltb-IsOrder = record {
  irrefl = λ a. ground arith;
  trans = λ a b c p q. ground (arith, p, q);
  connex = λ a b p q. ground (arith, p, q);
}

abbrev full_leaf : Tree ℕ
full_leaf = node true (key null 10 1 (key null 30 3 nil)) null

abbrev split_tree : Tree ℕ
split_tree =
    node false (key (node true (key null 10 1 nil) null) 20 2 nil)
      (node true (key null 30 3 nil) null)

abbrev calls : List (ℕ × ℕ)
calls = (30, 3) ∷ (20, 2) ∷ (10, 9) ∷ (50, 5) ∷ (40, 4) ∷ (60, 6) ∷ []

insert_node_splits : insert_node ltb 2 20 2 full_leaf ≡ some (true, split_tree)
unfolding insert_node
insert_node_splits = refl

search_after_calls :
    insert_all ltb 2 ((10, 1) ∷ calls) null
    ≡ some (
        node false
          (key
            (node true (key null 10 1 nil) null)
            20
            2
            (key (node true (key null 30 3 nil) null) 40 4 nil))
          (node true (key null 50 5 (key null 60 6 nil)) null))
unfolding insert_all
search_after_calls = refl

full_leaf-IsIndex : IsIndex ltb 2 full_leaf
unfolding Balanced inorder count
full_leaf-IsIndex = record {
  sorted = ((refl, tt), (tt, tt));
  height = 1;
  balanced = (omega arith, refl, omega arith, omega arith, (refl, (refl, tt)), refl);
}

insert_node-put_new_example :
    (t' : Tree ℕ) × (insert_node ltb 2 20 2 full_leaf ≡ some (true, t'))
    × IsIndex ltb 2 t'
    × (inorder t' ≡ (10, 1) ∷ (20, 2) ∷ (30, 3) ∷ [])
unfolding lookup put_new inorder put
insert_node-put_new_example =
    insert_node-put_new ltb ltb-IsOrder 2 (omega arith) 20 2 full_leaf full_leaf-IsIndex

search_key_lem_example : search_key ltb 30 split_tree ≡ 3
unfolding inorder lookup
search_key_lem_example =
    search_key_lem ltb ltb-IsOrder 30 split_tree ((refl, (refl, tt)), ((refl, tt), (tt, tt)))

search_from_mem-insert_all_example :
    (root : Tree ℕ) × (insert_all ltb 2 ((10, 1) ∷ calls) null ≡ some root)
    × (search_from_mem ltb 10 root ≡ some 1)
unfolding lookup
search_from_mem-insert_all_example =
    search_from_mem-insert_all ltb ltb-IsOrder 2 (omega arith) 10 1 calls 10
