-- ===== src/Index/BPlusTree/Search.antt =====
-- index_file, BPlusTree.cpp: `getPath`, `search`, `rangeSearch` and `print`.
use laboratory.Base.{
  Bool, ℕ, zero, suc, true, false, ◌==◌, if◌then◌else◌, List, [], ◌∷◌, ◌++◌, map, Option, none,
  some,
}
use laboratory.Index.{Entry, TreePath, lt_int, is_negative, minus_one}
use laboratory.Index.BPlusTree.{BPlusTree}
use laboratory.Index.BPlusTree.Blocks.{read_leaf, read_internal}

-- The child that leads to a key, where `current` is the one left of these separators.
unfoldable pub choose : ℕ → ℕ → List Entry → ℕ
choose key current [] = current
choose key current (s ∷ ss) =
    let further = choose key s.value ss in if lt_int key s.key then current else further

-- The loop of `getPath` from a block on, with the levels that are left below it.
unfoldable pub descend : ℕ → ℕ → ℕ → BPlusTree → TreePath × BPlusTree
descend key zero current t = (record { dest = current; nodes = current ∷ [] }, t)
descend key (suc levels) current t =
    let (node, t1) = read_internal current t in
    let (path, t2) = descend key levels (choose key node.first_child node.separators) t1 in
    (record { dest = path.dest; nodes = current ∷ path.nodes }, t2)

-- With a negative depth the loop makes no round.
unfoldable pub get_path : ℕ → BPlusTree → TreePath × BPlusTree
unfolding descend choose
get_path key t =
    if is_negative t.depth
    then (record { dest = t.root_bid; nodes = [] }, t)
    else descend key t.depth t.root_bid t

-- The loop of `search` over the entries of a leaf.
unfoldable pub find : ℕ → List Entry → ℕ
find key [] = minus_one
find key (e ∷ es) = let further = find key es in if e.key == key then e.value else further

unfoldable pub search_key : ℕ → BPlusTree → ℕ × BPlusTree
unfolding find
search_key key t =
    if t.num_of_nodes == 0
    then (minus_one, t)
    else (let (path, t1) = get_path key t in
        let (leaf, t2) = read_leaf path.dest t1 in (find key leaf.entries, t2))

-- The loop of `rangeSearch` over the entries of a leaf: what it collects, and whether it goes on.
unfoldable pub collect : ℕ → ℕ → List Entry → List Entry × Bool
collect first last [] = ([], true)
collect first last (e ∷ es) =
    let (found, goes_on) = collect first last es in
    if lt_int last e.key
    then ([], false)
    else ((if lt_int e.key first then found else e ∷ found), goes_on)

-- The loop of `rangeSearch` over the leaves; `none` where the fuel ran out.
unfoldable pub walk_leaves : ℕ → ℕ → ℕ → ℕ → BPlusTree → Option (List Entry) × BPlusTree
unfolding collect
walk_leaves zero first last leaf_id t = (none, t)
walk_leaves (suc fuel) first last leaf_id t = elim (leaf_id == 0) [
  | true ↦ (some [], t)
  | false ↦
      let (leaf, t1) = read_leaf leaf_id t in
      let (found, goes_on) = collect first last leaf.entries in
      elim goes_on [
        | false ↦ (some found, t1)
        | true ↦
            let (more, t2) = walk_leaves fuel first last leaf.next t1 in
            (elim more [ none ↦ none | some rest ↦ some (found ++ rest) ], t2)
      ]
]

-- The fuel is the number of leaves to visit at most; a chain of leaves that runs in a circle makes
-- the program loop.
unfoldable pub range_search : ℕ → ℕ → ℕ → BPlusTree → Option (List Entry) × BPlusTree
unfolding walk_leaves
range_search fuel first last t =
    if t.num_of_nodes == 0
    then (some [], t)
    else (let (path, t1) = get_path first t in walk_leaves fuel first last path.dest t1)

-- The keys of a child of the root, as `print` lists them: of a leaf, or of a node further up.
abbrev pub child_keys : ℕ → BPlusTree → List ℕ × BPlusTree
child_keys child_id t =
    let (leaf, t1) = read_leaf child_id t in
    let (node, t2) = read_internal child_id t in
    if t.depth == 1
    then (map (λ e. e.key) leaf.entries, t1)
    else (map (λ e. e.key) node.separators, t2)

unfoldable pub level_keys : List ℕ → BPlusTree → List ℕ × BPlusTree
level_keys [] t = ([], t)
level_keys (child_id ∷ rest) t =
    let (keys, t1) = child_keys child_id t in
    let (more, t2) = level_keys rest t1 in (keys ++ more, t2)

-- The keys of the two levels that `print` writes; an empty tree has none to write.
unfoldable pub print_keys : BPlusTree → Option (List ℕ × List ℕ) × BPlusTree
unfolding level_keys
print_keys t =
    if t.num_of_nodes == 0
    then (none, t)
    else (if t.depth == 0
        then (let (root, t1) = read_leaf t.root_bid t in
            (some (map (λ e. e.key) root.entries, []), t1))
        else (let (root, t1) = read_internal t.root_bid t in
            let children = root.first_child ∷ map (λ e. e.value) root.separators in
            let (below, t2) = level_keys children t1 in
            (some (map (λ e. e.key) root.separators, below), t2)))
