-- ===== src/Index/BPlusTree/Invariant.antt =====
-- When a state of the B+ tree and its file are a tree that holds these entries.
use laboratory.Base.{
  occurs, ℕ, zero, suc, ◌+◌, ◌*◌, ◌≤◌, ◌<◌, ◌≡◌, arith, ◌⊎◌, List, [], ◌∷◌, length, ltb, leb, ◌&&◌,
  if◌then◌else◌,
}
use laboratory.Index.{Entry, two_32, two_31}
use laboratory.Index.BPlusTree.{BPlusTree}
use laboratory.Index.BPlusTree.Nodes.{Ready}
use laboratory.Index.BPlusTree.Nodes.Exact.{Exact}
use laboratory.Index.BPlusTree.Subtree.{Subtree}

-- 1 for the blocks of the file, 0 for others.
abbrev pub slot : ℕ → ℕ → ℕ
slot n a = if ltb 0 a && leb a n then 1 else 0

-- The blocks of a tree: each stands in the file and is used once.
abbrev pub Uses : ℕ → List ℕ → Type 0
Uses n ids = (a : ℕ) → occurs a ids ≤ slot n a

pub record Rooted (t : BPlusTree) (es : List Entry) : Type 0 where
  pub ids : List ℕ
  pub first : ℕ
  pub some_node : 0 < t.num_of_nodes
  pub levels :
      ((t.num_of_nodes ≡ 1) × (t.depth ≡ 0))
      ⊎ ((1 < t.num_of_nodes) × (0 < t.depth) × (t.depth < t.num_of_nodes))
  pub uses : Uses t.num_of_nodes ids
  pub tree : Subtree t.block_size t.capacity t.bin_file t.depth t.root_bid 0 two_32 es ids first 0

-- The file of a tree can be read and written, its block count is an `int`, the file ends with its
-- last block if blocks have no rest, and the tree is empty or has a root below which all entries
-- stand in the order of their keys.
pub record IsTree (t : BPlusTree) (es : List Entry) : Type 0 where
  pub ready : Ready t
  pub small : t.num_of_nodes < two_31
  pub exact : 8 * t.capacity + 4 ≡ t.block_size → Exact t.block_size t.bin_file t.num_of_nodes
  pub shape : ((t.num_of_nodes ≡ 0) × (t.depth ≡ 0) × (es ≡ [])) ⊎ Rooted t es

total : ℕ → List ℕ → ℕ
total zero ids = 0
total (suc n) ids = occurs (suc n) ids + total n ids

total-cons : (n b : ℕ) (bs : List ℕ) → total n (b ∷ bs) ≡ slot n b + total n bs
unfolding total
total-cons zero b bs = ground arith
total-cons (suc n) b bs = ground (arith, total-cons n b bs)

length-total : (n : ℕ) (ids : List ℕ) → Uses n ids → length ids ≤ total n ids
length-total n [] uses = omega arith
length-total n (b ∷ bs) uses =
    ground (arith, total-cons n b bs, uses b, length-total n bs (λ a. omega (arith, uses a)))

total_le : (n m : ℕ) (ids : List ℕ) → Uses m ids → total n ids ≤ n
unfolding total
total_le zero m ids uses = omega arith
total_le (suc n) m ids uses = ground (arith, uses (suc n), total_le n m ids uses)

-- There are no more blocks in use than blocks.
pub length-Uses : (n : ℕ) (ids : List ℕ) → Uses n ids → length ids ≤ n
length-Uses n ids uses = omega (arith, length-total n ids uses, total_le n n ids uses)
