-- ===== src/Index/BPlusTree/Blocks.antt =====
-- index_file, BPlusTree.cpp: reading and writing one block.
pub mod Laws
pub mod RoundTrip
use laboratory.Base.{ℕ, zero, suc, ◌-◌, true, false, ◌==◌, if◌then◌else◌, List, [], ◌∷◌, length}
use laboratory.Index.{Entry, LeafNode, InternalNode}
use laboratory.Index.Stream.{Stream, read_int, write_int, seek}
use laboratory.Index.BPlusTree.{BPlusTree, block_offset}

-- The loop of `readLeaf`: an entry with key 0 is skipped.
unfoldable pub read_entries : ℕ → Stream → List Entry × Stream
read_entries zero s = ([], s)
read_entries (suc n) s =
    let (key, s1) = read_int s in
    let (value, s2) = read_int s1 in
    let (entries, s3) = read_entries n s2 in
    ((if key == 0 then entries else record { key = key; value = value } ∷ entries), s3)

-- The loop of `readInternal`: a separator with key 0 ends it.
unfoldable pub read_separators : ℕ → Stream → List Entry × Stream
read_separators zero s = ([], s)
read_separators (suc n) s =
    let (key, s1) = read_int s in
    let (value, s2) = read_int s1 in
    elim (key == 0) [
      | true ↦ ([], s2)
      | false ↦
          let (separators, s3) = read_separators n s2 in
          (record { key = key; value = value } ∷ separators, s3)
    ]

unfoldable pub write_entries : List Entry → Stream → Stream
write_entries [] s = s
write_entries (e ∷ es) s = write_entries es (write_int e.value (write_int e.key s))

-- `n` entries of zeros.
unfoldable pub write_dummies : ℕ → Stream → Stream
write_dummies zero s = s
write_dummies (suc n) s = write_dummies n (write_int 0 (write_int 0 s))

unfoldable pub read_leaf : ℕ → BPlusTree → LeafNode × BPlusTree
unfolding read_entries
read_leaf block_id t =
    let (entries, s1) = read_entries t.capacity (seek (block_offset t block_id) t.bin_file) in
    let (next, s2) = read_int s1 in
    (record { entries = entries; next = next }, record t { bin_file = s2 })

unfoldable pub read_internal : ℕ → BPlusTree → InternalNode × BPlusTree
unfolding read_separators
read_internal block_id t =
    let (first_child, s1) = read_int (seek (block_offset t block_id) t.bin_file) in
    let (separators, s2) = read_separators t.capacity s1 in
    (record { first_child = first_child; separators = separators }, record t { bin_file = s2 })

unfoldable pub write_leaf : ℕ → List Entry → ℕ → BPlusTree → BPlusTree
unfolding write_entries write_dummies
write_leaf block_id entries next t =
    let s1 = write_entries entries (seek (block_offset t block_id) t.bin_file) in
    let s2 = write_dummies (t.capacity - length entries) s1 in
    record t { bin_file = write_int next s2 }

unfoldable pub write_internal : ℕ → ℕ → List Entry → BPlusTree → BPlusTree
unfolding write_entries write_dummies
write_internal block_id first_child separators t =
    let s1 = write_int first_child (seek (block_offset t block_id) t.bin_file) in
    let s2 = write_entries separators s1 in
    record t { bin_file = write_dummies (t.capacity - length separators) s2 }
