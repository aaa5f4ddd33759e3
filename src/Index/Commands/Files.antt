-- ===== src/Index/Commands/Files.antt =====
-- A new index file is an empty tree.
use laboratory.Base.{
  ℕ, ◌-◌, ◌*◌, ◌/◌, ◌≤◌, ◌<◌, ◌≡◌, refl, arith, ◌⊎◌, inl, [], some, ok, err, Error,
}
use laboratory.Index.{two_31, two_32, unit}
use laboratory.Index.Stream.{int_at, read_int, write_int}
use laboratory.Index.BPlusTree.{BPlusTree, get_metadata}
use laboratory.Index.BPlusTree.Nodes.Exact.{Exact}
use laboratory.Index.BPlusTree.Invariant.{IsTree}
use laboratory.Index.Commands.{reopen, create_index_file}

-- What is read from the header of a new file.
first_int :
    (block_size : ℕ)
    → block_size < two_32
    → int_at (create_index_file block_size).cell 0 ≡ block_size
unfolding create_index_file write_int
first_int block_size small = omega arith

-- What the tree of a new file is.
abbrev pub new_tree : ℕ → BPlusTree
new_tree block_size = record {
  block_size = block_size;
  root_bid = 0;
  depth = 0;
  capacity = (block_size - unit) / (2 * unit);
  num_of_nodes = 0;
  bin_file = record (reopen (create_index_file block_size)) { pos = 12 };
}

new_file :
    (block_size : ℕ) → block_size < two_31 → Exact block_size (new_tree block_size).bin_file 0
unfolding create_index_file write_int
new_file block_size small = record {
  whole = omega arith;
  head = first_int block_size (omega arith);
}

pub new_tree-IsTree :
    (block_size : ℕ) → 12 ≤ block_size → block_size < two_31 → IsTree (new_tree block_size) []
new_tree-IsTree block_size large small = record {
  ready = record {
    layout = record { used = omega arith; some_entry = omega arith; small = small };
    fine = refl;
  };
  small = omega arith;
  exact = λ no_rest. new_file block_size small;
  shape = inl (refl, refl, refl);
}

-- A new file with blocks of at least 12 bytes opens, as an empty tree.
pub create_index_file-IsTree :
    (block_size : ℕ)
    → 12 ≤ block_size
    → block_size < two_31
    → (t : BPlusTree) × (get_metadata (some (reopen (create_index_file block_size))) ≡ ok t)
      × IsTree t []
unfolding get_metadata create_index_file write_int read_int
create_index_file-IsTree block_size large small = (
  new_tree block_size,
  ground (arith, first_int block_size (omega arith)),
  new_tree-IsTree block_size large small,
)

-- A new file whose block size is below 12, or negative as an `int`, does not open.
pub get_metadata-create_index_file :
    (block_size : ℕ)
    → block_size < two_32
    → (block_size < 12) ⊎ (two_31 ≤ block_size)
    → get_metadata (some (reopen (create_index_file block_size))) ≡ err Error.bad_block_size
unfolding get_metadata create_index_file write_int read_int
get_metadata-create_index_file block_size small bad = ground (arith, first_int block_size small)
