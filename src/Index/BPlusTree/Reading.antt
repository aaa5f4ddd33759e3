-- ===== src/Index/BPlusTree/Reading.antt =====
-- The operations that only read the tree (`getPath`, `search`, `rangeSearch`, `print`) move the
-- stream over the file, on any tree and whether or not a read fails, and leave the file's bytes.
use laboratory.Base.{
  ℕ, zero, suc, ◌≡◌, refl, ◌∙◌, arith, List, [], ◌∷◌, Option, none, some, ok, map,
}
use laboratory.Index.Stream.{Stream, read_int, seek}
use laboratory.Index.BPlusTree.{BPlusTree, block_offset, get_metadata}
use laboratory.Index.BPlusTree.Blocks.{read_entries, read_separators, read_leaf, read_internal}
use laboratory.Index.BPlusTree.Search.{
  descend, choose, get_path, search_key, walk_leaves, range_search, child_keys, level_keys,
  print_keys,
}

-- The bytes of a file: what stands at each place, and how many there are.
abbrev pub bytes : Stream → (ℕ → ℕ) × ℕ
bytes s = (s.cell, s.size)

abbrev pub tree_bytes : BPlusTree → (ℕ → ℕ) × ℕ
tree_bytes t = bytes t.bin_file

bytes-read_int : (s : Stream) → bytes (read_int s).1 ≡ bytes s
unfolding read_int
bytes-read_int s = ground arith

bytes-seek : (o : Option ℕ) (s : Stream) → bytes (seek o s) ≡ bytes s
unfolding seek
bytes-seek none s = ground arith
bytes-seek (some o) s = ground arith

bytes-read_entries : (n : ℕ) (s : Stream) → bytes (read_entries n s).1 ≡ bytes s
unfolding read_entries
bytes-read_entries zero s = refl
bytes-read_entries (suc n) s =
    let s1 = (read_int s).1 in
    let s2 = (read_int s1).1 in bytes-read_entries n s2 ∙ bytes-read_int s1 ∙ bytes-read_int s

bytes-read_separators : (n : ℕ) (s : Stream) → bytes (read_separators n s).1 ≡ bytes s
unfolding read_separators
bytes-read_separators zero s = refl
bytes-read_separators (suc n) s =
    let s1 = (read_int s).1 in
    let s2 = (read_int s1).1 in
    ground (arith, bytes-read_separators n s2, bytes-read_int s1, bytes-read_int s)

tree_bytes-read_leaf : (id : ℕ) (t : BPlusTree) → tree_bytes (read_leaf id t).1 ≡ tree_bytes t
unfolding read_leaf
tree_bytes-read_leaf id t =
    let s = seek (block_offset t id) t.bin_file in
    bytes-read_int (read_entries t.capacity s).1
    ∙ bytes-read_entries t.capacity s
    ∙ bytes-seek (block_offset t id) t.bin_file

tree_bytes-read_internal :
    (id : ℕ) (t : BPlusTree) → tree_bytes (read_internal id t).1 ≡ tree_bytes t
unfolding read_internal
tree_bytes-read_internal id t =
    let s = seek (block_offset t id) t.bin_file in
    bytes-read_separators t.capacity (read_int s).1
    ∙ bytes-read_int s
    ∙ bytes-seek (block_offset t id) t.bin_file

tree_bytes-descend :
    (key levels current : ℕ) (t : BPlusTree)
    → tree_bytes (descend key levels current t).1 ≡ tree_bytes t
unfolding descend
tree_bytes-descend key zero current t = refl
tree_bytes-descend key (suc levels) current t =
    let (node, t1) = read_internal current t in
    tree_bytes-descend key levels (choose key node.first_child node.separators) t1
    ∙ tree_bytes-read_internal current t

tree_bytes-get_path : (key : ℕ) (t : BPlusTree) → tree_bytes (get_path key t).1 ≡ tree_bytes t
unfolding get_path
tree_bytes-get_path key t = ground (arith, tree_bytes-descend key t.depth t.root_bid t)

pub tree_bytes-search_key :
    (key : ℕ) (t : BPlusTree) → tree_bytes (search_key key t).1 ≡ tree_bytes t
unfolding search_key
tree_bytes-search_key key t =
    let (path, t1) = get_path key t in
    ground (arith, tree_bytes-read_leaf path.dest t1, tree_bytes-get_path key t)

tree_bytes-walk_leaves :
    (fuel first last id : ℕ) (t : BPlusTree)
    → tree_bytes (walk_leaves fuel first last id t).1 ≡ tree_bytes t
unfolding walk_leaves
tree_bytes-walk_leaves zero first last id t = refl
tree_bytes-walk_leaves (suc fuel) first last id t =
    let (leaf, t1) = read_leaf id t in
    ground (arith, tree_bytes-read_leaf id t, tree_bytes-walk_leaves fuel first last leaf.next t1)

pub tree_bytes-range_search :
    (fuel first last : ℕ) (t : BPlusTree)
    → tree_bytes (range_search fuel first last t).1 ≡ tree_bytes t
unfolding range_search
tree_bytes-range_search fuel first last t =
    let (path, t1) = get_path first t in
    ground (arith, tree_bytes-walk_leaves fuel first last path.dest t1, tree_bytes-get_path first t)

tree_bytes-child_keys : (id : ℕ) (t : BPlusTree) → tree_bytes (child_keys id t).1 ≡ tree_bytes t
tree_bytes-child_keys id t =
    let (leaf, t1) = read_leaf id t in
    ground (arith, tree_bytes-read_leaf id t, tree_bytes-read_internal id t)

tree_bytes-level_keys :
    (ids : List ℕ) (t : BPlusTree) → tree_bytes (level_keys ids t).1 ≡ tree_bytes t
unfolding level_keys
tree_bytes-level_keys [] t = refl
tree_bytes-level_keys (id ∷ ids) t =
    tree_bytes-level_keys ids (child_keys id t).1 ∙ tree_bytes-child_keys id t

pub tree_bytes-print_keys : (t : BPlusTree) → tree_bytes (print_keys t).1 ≡ tree_bytes t
unfolding print_keys
tree_bytes-print_keys t =
    let (root, t1) = read_internal t.root_bid t in
    let children = root.first_child ∷ map (λ e. e.value) root.separators in
    ground (
      arith,
      tree_bytes-read_leaf t.root_bid t,
      tree_bytes-read_internal t.root_bid t,
      tree_bytes-level_keys children t1,
    )

pub tree_bytes-get_metadata :
    (s : Stream) (t : BPlusTree) → get_metadata (some s) ≡ ok t → tree_bytes t ≡ bytes s
unfolding get_metadata
tree_bytes-get_metadata s t e =
    let s1 = (read_int s).1 in
    let s2 = (read_int s1).1 in
    ground (arith, bytes-read_int s, bytes-read_int s1, bytes-read_int s2)
