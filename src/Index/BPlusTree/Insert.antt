-- ===== src/Index/BPlusTree/Insert.antt =====
-- index_file, BPlusTree.cpp: `insert` and what it calls.
pub mod Outcome
pub mod Cut
pub mod Path
pub mod Leaf
pub mod Node
pub mod Root
pub mod Children
pub mod Below
pub mod Small
pub mod Contents
pub mod Found
use laboratory.Base.{
  ℕ, zero, suc, ◌+◌, ◌-◌, true, false, ◌==◌, leb, if◌then◌else◌, List, [], ◌∷◌, ◌++◌, length,
  get_or, take, drop,
}
use laboratory.Index.{
  Entry, LeafNode, InternalNode, TreePath, add_int, no_split, is_no_split, sort_entries,
}
use laboratory.Index.BPlusTree.{BPlusTree, split_index, write_metadata}
use laboratory.Index.BPlusTree.Blocks.{read_leaf, read_internal, write_leaf, write_internal}
use laboratory.Index.BPlusTree.Search.{get_path}

-- `vector::front` and `[]` where there is such an entry.
abbrev entry_at : List Entry → ℕ → Entry
entry_at es i = get_or es i no_split

unfoldable pub insert_empty : Entry → BPlusTree → BPlusTree
insert_empty entry t =
    let t1 = record t { num_of_nodes = 1; root_bid = 1 } in write_leaf t1.root_bid (entry ∷ []) 0 t1

unfoldable pub insert_into_only_one : Entry → BPlusTree → BPlusTree
insert_into_only_one entry t =
    let (root, t1) = read_leaf t.root_bid t in
    let entries = sort_entries (root.entries ++ entry ∷ []) in
    let mid = split_index t1 in
    let left = take mid entries in
    let right = drop mid entries in
    let left_id = t1.root_bid in
    let right_id = add_int t1.num_of_nodes 1 in
    let new_root_id = add_int right_id 1 in
    let t2 = record t1 { num_of_nodes = new_root_id } in
    let t3 = write_leaf left_id left right_id t2 in
    let t4 = write_leaf right_id right 0 t3 in
    let t5 =
      write_internal new_root_id left_id
        (record { key = (entry_at right 0).key; value = right_id } ∷ []) t4 in
    if leb (length entries) t1.capacity
    then write_leaf t1.root_bid entries root.next t1
    else record t5 { root_bid = new_root_id; depth = add_int t5.depth 1 }

-- The entry is `no_split`, or the separator to add to the parent.
unfoldable pub insert_leaf : Entry → ℕ → BPlusTree → Entry × BPlusTree
insert_leaf entry block_id t =
    let (leaf, t1) = read_leaf block_id t in
    let entries = sort_entries (leaf.entries ++ entry ∷ []) in
    let mid = split_index t1 in
    let left = take mid entries in
    let right = drop mid entries in
    let new_block_id = add_int t1.num_of_nodes 1 in
    let t2 = record t1 { num_of_nodes = new_block_id } in
    let t3 = write_leaf block_id left new_block_id t2 in
    let t4 = write_leaf new_block_id right leaf.next t3 in
    if leb (length entries) t1.capacity
    then (no_split, write_leaf block_id entries leaf.next t1)
    else (record { key = (entry_at right 0).key; value = new_block_id }, t4)

unfoldable pub propagate : Entry → ℕ → BPlusTree → Entry × BPlusTree
propagate entry block_id t =
    let (node, t1) = read_internal block_id t in
    let separators = sort_entries (node.separators ++ entry ∷ []) in
    let mid = split_index t1 in
    let left = take mid separators in
    let right = drop (mid + 1) separators in
    let promoted_key = (entry_at separators mid).key in
    let right_first_child = (entry_at separators mid).value in
    let new_block_id = add_int t1.num_of_nodes 1 in
    let t2 = record t1 { num_of_nodes = new_block_id } in
    let t3 = write_internal block_id node.first_child left t2 in
    let t4 = write_internal new_block_id right_first_child right t3 in
    let promoted : Entry = record { key = promoted_key; value = new_block_id } in
    let new_root_id = add_int t4.num_of_nodes 1 in
    let t5 =
      write_internal new_root_id block_id (promoted ∷ [])
        (record t4 { num_of_nodes = new_root_id }) in
    if leb (length separators) t1.capacity
    then (no_split, write_internal block_id node.first_child separators t1)
    else (if block_id == t4.root_bid
        then (no_split, record t5 { root_bid = new_root_id; depth = add_int t5.depth 1 })
        else (promoted, t4))

-- The loop of `insert` from the nodes with a smaller index than `i` upwards.
unfoldable pub climb : List ℕ → ℕ → Entry → BPlusTree → Entry × BPlusTree
climb nodes zero promoted t = (promoted, t)
climb nodes (suc i) promoted t = elim (is_no_split promoted) [
  | true ↦ (promoted, t)
  | false ↦
      let (promoted', t') = propagate promoted (get_or nodes i 0) t in climb nodes i promoted' t'
]

-- `insert`. A path without nodes, which only a negative depth gives, is not looked into.
unfoldable pub insert : Entry → BPlusTree → BPlusTree
unfolding climb
insert entry t = write_metadata (
    if t.num_of_nodes == 0
    then insert_empty entry t
    else (if t.num_of_nodes == 1
        then insert_into_only_one entry t
        else (let (path, t1) = get_path entry.key t in
            let last = length path.nodes - 1 in
            let (promoted, t2) = insert_leaf entry (get_or path.nodes last 0) t1 in
            (climb path.nodes last promoted t2).1)))
