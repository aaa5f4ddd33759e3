-- ===== src/Index/BPlusTree/Blocks/RoundTrip.antt =====
-- A node that is written to a block is read from it.
use laboratory.Base.{ℕ, ◌<◌, ◌≡◌, ◌≢◌, sym, ap, ◌∙◌, List}
use laboratory.Index.{Entry, two_31}
use laboratory.Index.BPlusTree.{BPlusTree}
use laboratory.Index.BPlusTree.Blocks.{read_leaf, read_internal, write_leaf, write_internal}
use laboratory.Index.BPlusTree.Nodes.{leaf, internal, At, Fits, Ready}
use laboratory.Index.BPlusTree.Nodes.Reading.{read_leaf_lem, read_internal_lem}
use laboratory.Index.BPlusTree.Nodes.Writing.{write_leaf_lem, write_internal_lem}

module _ (t : BPlusTree) (id : ℕ) (ready : Ready t) (id_pos : 0 < id) (id_small : id < two_31) where
  -- A leaf that fits a block, where the file can be read and written and the block's number is above 0
  -- and below 2^31, is read from the block it is written to, and another leaf that stood at
  -- another block is still read from there.
  pub read_leaf-write_leaf :
      (entries : List Entry) (next other other_next : ℕ) (other_entries : List Entry)
      → Fits t.capacity (leaf entries next)
      → other ≢ id
      → At t.block_size t.capacity t.bin_file other (leaf other_entries other_next)
      → ((read_leaf id (write_leaf id entries next t)).0
          ≡ record { entries = entries; next = next })
        × ((read_leaf other (write_leaf id entries next t)).0 ≡ (read_leaf other t).0)
  unfolding write_leaf
  read_leaf-write_leaf entries next other other_next other_entries fits ne at =
      let t' = write_leaf id entries next t in
      let w = write_leaf_lem t id ready id_pos id_small entries next fits in
      let ready' : Ready t' = record { layout = ready.layout; fine = w.fine } in
      let here = read_leaf_lem t' id ready' entries next w.stored in
      let there =
        read_leaf_lem t' other ready' other_entries other_next
          (w.kept other (leaf other_entries other_next) ne at) in
      let before = read_leaf_lem t other ready other_entries other_next at in
      (ap (λ r. r.0) here.1, ap (λ r. r.0) there.1 ∙ sym (ap (λ r. r.0) before.1))

  -- An internal node that fits a block and is written to it is read from it, and a leaf that stood at
  -- another block is still read from there.
  pub read_internal-write_internal :
      (first_child : ℕ) (separators : List Entry) (other other_next : ℕ)
      (other_entries : List Entry)
      → Fits t.capacity (internal first_child separators)
      → other ≢ id
      → At t.block_size t.capacity t.bin_file other (leaf other_entries other_next)
      → ((read_internal id (write_internal id first_child separators t)).0
          ≡ record { first_child = first_child; separators = separators })
        × ((read_leaf other (write_internal id first_child separators t)).0 ≡ (read_leaf other t).0)
  unfolding write_internal
  read_internal-write_internal first_child separators other other_next other_entries fits ne at =
      let t' = write_internal id first_child separators t in
      let w = write_internal_lem t id ready id_pos id_small first_child separators fits in
      let ready' : Ready t' = record { layout = ready.layout; fine = w.fine } in
      let here = read_internal_lem t' id ready' first_child separators w.stored in
      let there =
        read_leaf_lem t' other ready' other_entries other_next
          (w.kept other (leaf other_entries other_next) ne at) in
      let before = read_leaf_lem t other ready other_entries other_next at in
      (ap (λ r. r.0) here.1, ap (λ r. r.0) there.1 ∙ sym (ap (λ r. r.0) before.1))
