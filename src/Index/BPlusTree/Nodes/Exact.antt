-- ===== src/Index/BPlusTree/Nodes/Exact.antt =====
-- A file that ends with its last block, where a block has no rest behind its entries.
use laboratory.Base.{ℕ, ◌+◌, ◌*◌, ◌≤◌, ◌≡◌, ap, ◌∙◌, arith}
use laboratory.Index.Stream.{Stream, int_at}
use laboratory.Index.BPlusTree.{BPlusTree}
use laboratory.Index.BPlusTree.Blocks.Laws.{at_pos}
use laboratory.Index.BPlusTree.Nodes.{Node, block_le}
use laboratory.Index.BPlusTree.Nodes.Writing.{Wrote}

-- The file has so many blocks and begins with their size.
pub record Exact (block_size : ℕ) (s : Stream) (n : ℕ) : Type 0 where
  pub whole : s.size ≡ 12 + n * block_size
  pub head : int_at s.cell 0 ≡ block_size

mul_le : (k m n : ℕ) → m ≤ n → m * k ≤ n * k
mul_le k m n le = grind arith

add_one_mul : (k m : ℕ) → (m + 1) * k ≡ m * k + k
add_one_mul k m = grind arith

module _ (t : BPlusTree) (id : ℕ) (m : Node) (s : Stream) (n : ℕ)
    (no_rest : 8 * t.capacity + 4 ≡ t.block_size) (e : Exact t.block_size t.bin_file n)
    (w : Wrote t id m s) where
  -- A block of the file was written.
  pub Exact-old : id ≤ n → Exact t.block_size s n
  Exact-old old = record {
    whole = omega (
      arith,
      e.whole,
      w.more,
      w.least,
      mul_le t.block_size id n old,
      no_rest,
      block_le t.block_size id w.stored.id_pos,
    );
    head = w.head (omega (arith, e.whole)) ∙ e.head;
  }

  -- The block behind the last was written.
  pub Exact-new : id ≡ n + 1 → Exact t.block_size s (n + 1)
  Exact-new new =
      let last : id * t.block_size ≡ n * t.block_size + t.block_size =
        ap (λ i. i * t.block_size) new ∙ add_one_mul t.block_size n in
      let next : (n + 1) * t.block_size ≡ n * t.block_size + t.block_size =
        add_one_mul t.block_size n in
      record {
        whole = omega (arith, e.whole, w.more, w.least, last, no_rest, w.stored.inside);
        head = w.head (omega (arith, e.whole)) ∙ e.head;
      }

pub Exact-moved :
    (block_size : ℕ) (s : Stream) (p n : ℕ) → Exact block_size s n → Exact block_size (at_pos s p) n
Exact-moved block_size s p n e = record { whole = e.whole; head = e.head }
