-- ===== src/Index/BPlusTree/Nodes.antt =====
-- What the file holds: a leaf or an internal node at a block, what reading it gives, and what
-- writing a block does to the others.
pub mod Reading
pub mod Writing
pub mod Exact
use laboratory.Base.{
  ℕ, ◌+◌, ◌-◌, ◌*◌, ◌≤◌, ◌<◌, ◌≡◌, ◌≢◌, refl, ap, subst, ◌∙◌, arith, false, ◌⊎◌, inl, inr, List,
  length, some, ltb, Bool-cases,
}
use laboratory.Index.Order.{Storable}
use laboratory.Index.{Entry, two_31, two_32}
use laboratory.Index.Stream.{Stream, int_at, write_int, seek}
use laboratory.Index.Stream.Laws.{
  read_int_lem, seek_lem, Written, write_int-Written, int_at-write_int, Written-trans,
}
use laboratory.Index.BPlusTree.{BPlusTree, block_offset}
use laboratory.Index.BPlusTree.Blocks.{
  write_entries, write_dummies, read_leaf, read_internal, write_leaf, write_internal,
}
use laboratory.Index.BPlusTree.Blocks.Laws.{
  EntriesAt, at_pos, read_entries_lem, read_separators_lem, write_entries_lem, EntriesAt-Written,
}

pub data Node : Type 0 where
  leaf : (entries : List Entry) (next : ℕ) → Node
  internal : (first_child : ℕ) (separators : List Entry) → Node

-- Where a block begins.
abbrev pub offset : ℕ → ℕ → ℕ
offset block_size id = 12 + id * block_size - block_size

-- The sizes of a tree fit each other, and all offsets fit the file's.
pub record Layout (block_size capacity : ℕ) : Type 0 where
  pub used : 8 * capacity + 4 ≤ block_size
  pub some_entry : 0 < capacity
  pub small : block_size < two_31

-- The node's content stands at this place of the file.
abbrev pub Content : (ℕ → ℕ) → ℕ → ℕ → Node → Type 0
Content cell o capacity (leaf entries next) =
    EntriesAt cell o capacity entries × (int_at cell (o + 8 * capacity) ≡ next)
Content cell o capacity (internal first_child separators) =
    (int_at cell o ≡ first_child) × EntriesAt cell (o + 4) capacity separators

-- The node can be stored in one block.
abbrev pub Fits : ℕ → Node → Type 0
Fits capacity (leaf entries next) = Storable entries × (length entries ≤ capacity) × (next < two_32)
Fits capacity (internal first_child separators) =
    Storable separators × (length separators ≤ capacity) × (first_child < two_32)

-- The node stands at the block.
pub record At (block_size capacity : ℕ) (s : Stream) (id : ℕ) (n : Node) : Type 0 where
  pub id_pos : 0 < id
  pub id_small : id < two_31
  pub fits : Fits capacity n
  pub inside : offset block_size id + (8 * capacity + 4) ≤ s.size
  pub content : Content s.cell (offset block_size id) capacity n

pub block_le : (block_size id : ℕ) → 0 < id → block_size ≤ id * block_size
block_le block_size id pos = grind arith

blocks_apart : (block_size a b : ℕ) → a < b → a * block_size + block_size ≤ b * block_size
blocks_apart block_size a b h =
    omega (arith, mul_le block_size (a + 1) b (omega arith), add_one_mul block_size a)
  where
    mul_le : (k m n : ℕ) → m ≤ n → m * k ≤ n * k
    mul_le k m n le = grind arith

    add_one_mul : (k m : ℕ) → (m + 1) * k ≡ m * k + k
    add_one_mul k m = grind arith

-- Different blocks do not overlap.
pub offsets_apart :
    (block_size a b : ℕ)
    → 0 < a
    → 0 < b
    → a ≢ b
    → (offset block_size a + block_size ≤ offset block_size b)
      ⊎ (offset block_size b + block_size ≤ offset block_size a)
offsets_apart block_size a b a_pos b_pos ne = elim (Bool-cases (ltb a b)) [
  | inl less ↦
      inl (omega (arith, blocks_apart block_size a b (ground arith), block_le block_size a a_pos))
  | inr more ↦
      inr (omega (arith, blocks_apart block_size b a (ground arith), block_le block_size b b_pos))
]

pub block_offset_lem :
    (t : BPlusTree) (id : ℕ)
    → 0 < id
    → id < two_31
    → block_offset t id ≡ some (offset t.block_size id)
block_offset_lem t id pos small = ground (arith, block_le t.block_size id pos)

-- A tree whose file can be read and written.
pub record Ready (t : BPlusTree) : Type 0 where
  pub layout : Layout t.block_size t.capacity
  pub fine : t.bin_file.failed ≡ false

-- Reading moves the position and nothing else.
abbrev pub moved : BPlusTree → ℕ → BPlusTree
moved t p = record t { bin_file = at_pos t.bin_file p }

pub At-moved :
    (block_size capacity : ℕ) (s : Stream) (p id : ℕ) (n : Node)
    → At block_size capacity (at_pos s p) id n
    → At block_size capacity s id n
At-moved block_size capacity s p id n v = record {
  id_pos = v.id_pos;
  id_small = v.id_small;
  fits = v.fits;
  inside = v.inside;
  content = v.content;
}

pub At-at_pos :
    (block_size capacity : ℕ) (s : Stream) (p id : ℕ) (n : Node)
    → At block_size capacity s id n
    → At block_size capacity (at_pos s p) id n
At-at_pos block_size capacity s p id n v = record {
  id_pos = v.id_pos;
  id_small = v.id_small;
  fits = v.fits;
  inside = v.inside;
  content = v.content;
}

pub Ready-moved : (t : BPlusTree) (p : ℕ) → Ready t → Ready (moved t p)
Ready-moved t p ready = record { layout = ready.layout; fine = ready.fine }

module _ (t : BPlusTree) (id : ℕ) (ready : Ready t) where
  pub seek_block :
      0 < id
      → id < two_31
      → seek (block_offset t id) t.bin_file ≡ at_pos t.bin_file (offset t.block_size id)
  seek_block pos small =
      ap (λ target. seek target t.bin_file) (block_offset_lem t id pos small)
      ∙ seek_lem t.bin_file (offset t.block_size id) ready.fine
