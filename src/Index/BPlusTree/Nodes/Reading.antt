-- ===== src/Index/BPlusTree/Nodes/Reading.antt =====
-- What reading a block gives.
use laboratory.Base.{ℕ, ◌+◌, ◌*◌, ◌≡◌, arith, List}
use laboratory.Index.{Entry}
use laboratory.Index.Stream.Laws.{read_int_lem}
use laboratory.Index.BPlusTree.{BPlusTree}
use laboratory.Index.BPlusTree.Blocks.{read_leaf, read_internal}
use laboratory.Index.BPlusTree.Blocks.Laws.{at_pos, read_entries_lem, read_separators_lem}
use laboratory.Index.BPlusTree.Nodes.{leaf, internal, offset, At, Ready, seek_block, moved}

module _ (t : BPlusTree) (id : ℕ) (ready : Ready t) where
  pub read_leaf_lem :
      (entries : List Entry) (next : ℕ)
      → At t.block_size t.capacity t.bin_file id (leaf entries next)
      → (p : ℕ) × (read_leaf id t ≡ (record { entries = entries; next = next }, moved t p))
  unfolding read_leaf
  read_leaf_lem entries next v =
      let o = offset t.block_size id in
      let s = at_pos t.bin_file o in
      (
        o + 8 * t.capacity + 4,
        ground (
          arith,
          seek_block t id ready v.id_pos v.id_small,
          read_entries_lem t.capacity entries s ready.fine (omega arith) v.content.0 v.fits.0,
          read_int_lem (at_pos s (o + 8 * t.capacity)) ready.fine (omega arith),
          v.content.1,
        ),
      )

  pub read_internal_lem :
      (first_child : ℕ) (separators : List Entry)
      → At t.block_size t.capacity t.bin_file id (internal first_child separators)
      → (p : ℕ) × (read_internal id t
          ≡ (record { first_child = first_child; separators = separators }, moved t p))
  unfolding read_internal
  read_internal_lem first_child separators v =
      let o = offset t.block_size id in
      let s = at_pos t.bin_file o in
      let (p, rest) =
        read_separators_lem t.capacity separators (at_pos s (o + 4)) ready.fine (omega arith)
          v.content.1 v.fits.0 in
      (
        p,
        ground (
          arith,
          seek_block t id ready v.id_pos v.id_small,
          read_int_lem s ready.fine (omega arith),
          v.content.0,
          rest,
        ),
      )
