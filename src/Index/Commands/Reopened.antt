-- ===== src/Index/Commands/Reopened.antt =====
-- An index file that is closed after an insertion and opened again.
use laboratory.Base.{
  ℕ, zero, suc, ◌+◌, ◌-◌, ◌*◌, ◌/◌, ◌<◌, ◌≡◌, refl, sym, ap, subst, ◌∙◌, arith, inl, inr, false,
  List, [], ◌∷◌, length, ok, ltb, leb,
}
use laboratory.Index.{Entry, rank, two_31, two_32, unit, header_size, place}
use laboratory.Index.Order.{Absent, Storable, length-place}
use laboratory.Index.Stream.{Stream, int_at, write_int}
use laboratory.Index.Stream.Laws.{write_int-Written, int_at-write_int, read_int_lem, seek_lem}
use laboratory.Index.BPlusTree.{BPlusTree, get_metadata, count_nodes, write_metadata}
use laboratory.Index.BPlusTree.Blocks.Laws.{at_pos}
use laboratory.Index.BPlusTree.Nodes.{Ready, moved}
use laboratory.Index.BPlusTree.Nodes.Exact.{Exact}
use laboratory.Index.BPlusTree.Invariant.{IsTree}
use laboratory.Index.BPlusTree.Lookup.{IsTree-moved}
use laboratory.Index.BPlusTree.Subtree.{Subtree}
use laboratory.Index.BPlusTree.Insert.Contents.{insert-write_metadata}
use laboratory.Index.BPlusTree.Insert.Small.{write_metadata-IsTree}
use laboratory.Index.BPlusTree.Insert.{insert}
use laboratory.Index.Commands.{reopen, closed}

-- The header of the file agrees with the tree.
abbrev pub HasHeader : BPlusTree → Type 0
HasHeader t = (int_at t.bin_file.cell 4 ≡ t.root_bid) × (int_at t.bin_file.cell 8 ≡ t.depth)

-- `writeMetadata` makes the header agree.
pub write_metadata-HasHeader :
    (t : BPlusTree)
    → t.bin_file.failed ≡ false
    → t.root_bid < two_32
    → t.depth < two_32
    → HasHeader (write_metadata t)
unfolding write_metadata
write_metadata-HasHeader t fine root_small depth_small = rw (seek_lem t.bin_file 4 fine) (
    let s = at_pos t.bin_file 4 in
    let first = write_int-Written s t.root_bid fine in
    let s1 = write_int t.root_bid s in
    let second = write_int-Written s1 t.depth first.fine in
    (
      second.kept 4 (inl (omega (arith, first.moved))) (ground (arith, first.reached))
          ∙ int_at-write_int s t.root_bid fine root_small,
      subst (λ o. int_at (write_int t.depth s1).cell o ≡ t.depth) first.moved
          (int_at-write_int s1 t.depth first.fine depth_small),
    ))

blocks_lem : (n block_size : ℕ) → 0 < block_size → n * block_size / block_size ≡ n
blocks_lem n block_size pos = grind arith

count_nodes_lem :
    (n block_size : ℕ) (s : Stream)
    → s.failed ≡ false
    → s.size ≡ 12 + n * block_size
    → 0 < block_size
    → n < two_31
    → count_nodes s block_size ≡ n
count_nodes_lem n block_size s fine size pos small =
    let count : (s.size - header_size) / block_size ≡ n =
      ap (λ k. k / block_size) (omega (arith, size)) ∙ blocks_lem n block_size pos in
    ground (arith, count)

-- Opening the file of a tree gives the tree.
pub reopen_lem :
    (t : BPlusTree)
    → Ready t
    → t.num_of_nodes < two_31
    → 8 * t.capacity + 4 ≡ t.block_size
    → Exact t.block_size t.bin_file t.num_of_nodes
    → HasHeader t
    → get_metadata (closed t) ≡ ok (moved t 12)
unfolding get_metadata
reopen_lem t ready small no_rest exact (root, depth) =
    let s0 = reopen t.bin_file in
    let s3 = at_pos s0 12 in
    let one = read_int_lem s0 refl (omega (arith, exact.whole)) in
    let two = read_int_lem (at_pos s0 4) refl (omega (arith, exact.whole)) in
    let three = read_int_lem (at_pos s0 8) refl (omega (arith, exact.whole)) in
    let count =
      count_nodes_lem t.num_of_nodes t.block_size s3 refl exact.whole (omega arith) small in
    let capacity : (t.block_size - unit) / (2 * unit) ≡ t.capacity = omega arith in
    let large : leb two_31 t.block_size ≡ false = ground arith in
    let enough : ltb t.block_size 12 ≡ false = ground arith in
    rw (one, two, three, exact.head, root, depth, count, capacity, large, enough)
      (ap (λ b. ok (record t { bin_file = record s3 { failed = b } })) (sym ready.fine))

root_small :
    (block_size capacity : ℕ) (s : Stream) (d id lo hi : ℕ) (es : List Entry) (ids : List ℕ)
    (first next : ℕ)
    → Subtree block_size capacity s d id lo hi es ids first next
    → id < two_31
root_small block_size capacity s zero id lo hi es ids first next (at, rest, less, i, f) =
    at.id_small
root_small block_size capacity s (suc d) id lo hi es ids first next
      (c, seps, below, at, kids, less, i) =
    at.id_small

header_fits :
    (t : BPlusTree) (e : Entry) (es : List Entry)
    → IsTree t (place e es)
    → (t.root_bid < two_32) × (t.depth < two_32)
header_fits t e es tree = elim tree.shape [
  | inl (none_yet, flat, empty) ↦ absurd (omega (arith, length-place e es, ap length empty))
  | inr root ↦ (
    omega (
      arith,
      root_small t.block_size t.capacity t.bin_file t.depth t.root_bid 0 two_32 (place e es)
          root.ids root.first 0 root.tree,
    ),
    ground (arith, root.levels, tree.small),
  )
]

-- Where blocks have no rest behind their entries, the file that an insertion leaves opens again as a
-- tree with the old entries and the new one, whose key is new and not 0, while the block numbers
-- leave room.
pub get_metadata-insert :
    (t : BPlusTree) (e : Entry) (es : List Entry)
    → IsTree t es
    → Storable (e ∷ [])
    → Absent (rank e.key) es
    → t.num_of_nodes + t.depth + 2 < two_31
    → 8 * (insert e t).capacity + 4 ≡ (insert e t).block_size
    → (t' : BPlusTree) × (get_metadata (closed (insert e t)) ≡ ok t') × IsTree t' (place e es)
get_metadata-insert t e es tree good absent room no_rest =
    let (x, written, x_tree) = insert-write_metadata t e es tree good absent room in
    let t1 = write_metadata x in
    let tree1 = write_metadata-IsTree x (place e es) x_tree in
    let no_rest1 : 8 * t1.capacity + 4 ≡ t1.block_size =
      subst (λ k. 8 * k.capacity + 4 ≡ k.block_size) written no_rest in
    let (root_fits, depth_fits) = header_fits x e es x_tree in
    let header = write_metadata-HasHeader x x_tree.ready.fine root_fits depth_fits in
    (
      moved t1 12,
      ap (λ k. get_metadata (closed k)) written
          ∙ reopen_lem t1 tree1.ready tree1.small no_rest1 (tree1.exact no_rest1) header,
      IsTree-moved t1 (place e es) 12 tree1,
    )
