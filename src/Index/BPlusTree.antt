-- ===== src/Index/BPlusTree.antt =====
-- index_file, BPlusTree.h and BPlusTree.cpp: the state of the tree, `getMetadata`, and the blocks of
-- the file. Its operations are in the modules below.
pub mod Blocks
pub mod Nodes
pub mod Search
pub mod Kids
pub mod Focus
pub mod Descent
pub mod Subtree
pub mod Reach
pub mod Invariant
pub mod Lookup
pub mod Range
pub mod Reading
pub mod Insert
use laboratory.Base.{
  ℕ, ◌+◌, ◌-◌, ◌*◌, ◌/◌, ◌%◌, Bool, true, false, ltb, leb, ◌==◌, ◌||◌, if◌then◌else◌, Option, none,
  some, Result, ok, err, Error,
}
use laboratory.Index.{is_negative, two_32, unit, header_size}
use laboratory.Index.Stream.{Stream, read_int, write_int, seek}

pub record BPlusTree : Type 0 where
  pub block_size : ℕ
  pub root_bid : ℕ
  pub depth : ℕ
  pub capacity : ℕ
  pub num_of_nodes : ℕ
  pub bin_file : Stream

-- `none` is a negative offset. A block identifier that is not negative is multiplied in 64 bits.
abbrev pub block_offset : BPlusTree → ℕ → Option ℕ
block_offset t block_id =
    if is_negative block_id || ltb (header_size + block_id * t.block_size) t.block_size
    then none
    else some (header_size + block_id * t.block_size - t.block_size)

abbrev pub split_index : BPlusTree → ℕ
split_index t = (t.capacity - 1) / 2 + 1

-- The number of blocks: the size of the file, which is -1 for a failed stream, without the header,
-- by the size of a block, rounded towards 0.
abbrev pub count_nodes : Stream → ℕ → ℕ
count_nodes s block_size =
    if s.failed
    then (two_32 - (header_size + 1) / block_size) % two_32
    else (if ltb s.size header_size
        then (two_32 - (header_size - s.size) / block_size) % two_32
        else (s.size - header_size) / block_size % two_32)

-- `getMetadata`, where `open` gives the bytes of the file or fails. A block too small for one entry
-- leaves no capacity.
unfoldable pub get_metadata : Option Stream → Result BPlusTree
get_metadata none = err Error.no_index_file
get_metadata (some opened) =
    let (block_size, s1) = read_int opened in
    let (root_bid, s2) = read_int s1 in
    let (depth, s3) = read_int s2 in
    if is_negative block_size || ltb block_size (unit + 2 * unit)
    then err Error.bad_block_size
    else ok (record {
      block_size = block_size;
      root_bid = root_bid;
      depth = depth;
      capacity = (block_size - unit) / (2 * unit);
      num_of_nodes = count_nodes s3 block_size;
      bin_file = s3;
    })

-- `writeMetadata`
unfoldable pub write_metadata : BPlusTree → BPlusTree
write_metadata t = record t {
  bin_file = write_int t.depth (write_int t.root_bid (seek (some unit) t.bin_file));
}
