-- ===== src/Index/BPlusTree/Insert/Outcome.antt =====
-- What an insertion into a subtree leaves: the subtree, or two with a separator to add above them.
use laboratory.Base.{
  ◌*◌, occurs, ℕ, ◌+◌, ◌≤◌, ◌<◌, ◌≡◌, ◌≢◌, arith, ◌⊎◌, inl, inr, false, List, [], ◌∷◌, ◌++◌, ltb,
  leb, ◌&&◌, if◌then◌else◌,
}
use laboratory.Index.{Entry, rank, two_31, no_split, is_no_split}
use laboratory.Index.Order.{Storable}
use laboratory.Index.Stream.{Stream}
use laboratory.Index.BPlusTree.{BPlusTree}
use laboratory.Index.BPlusTree.Nodes.{Node, At, At-at_pos, moved}
use laboratory.Index.BPlusTree.Nodes.Writing.{Wrote}
use laboratory.Index.BPlusTree.Nodes.Exact.{Exact}
use laboratory.Index.BPlusTree.Subtree.{Subtree}

-- Another file, with this many blocks.
abbrev pub with_file : BPlusTree → ℕ → Stream → BPlusTree
with_file t n s = record t { num_of_nodes = n; bin_file = s }

-- 1 for the blocks behind the first `n` up to `m`, 0 for others.
abbrev pub fresh : ℕ → ℕ → ℕ → ℕ
fresh n m a = if ltb n a && leb a m then 1 else 0

-- The parts of a subtree that is split in two.
pub record Halves (block_size capacity : ℕ) (s : Stream) (d id lo hi : ℕ) (es : List Entry)
    (first next : ℕ) (promoted : Entry) (bound : ℕ → ℕ) : Type 0 where
  pub left : List Entry
  pub right : List Entry
  pub left_ids : List ℕ
  pub right_ids : List ℕ
  pub middle : ℕ
  pub good : Storable (promoted ∷ [])
  pub is_block : promoted.value < two_31
  pub above : lo < rank promoted.key
  pub below : rank promoted.key < hi
  pub whole : es ≡ left ++ right
  pub left_tree :
      Subtree block_size capacity s d id lo (rank promoted.key) left left_ids first middle
  pub right_tree :
      Subtree block_size capacity s d promoted.value
        (rank promoted.key)
        hi
        right
        right_ids
        middle
        next
  pub few : (a : ℕ) → occurs a left_ids + occurs a right_ids ≤ bound a

abbrev pub Outcome : ℕ → ℕ → Stream → ℕ → ℕ → ℕ → ℕ → List Entry → ℕ → ℕ → Entry → (ℕ → ℕ) → Type 0
Outcome block_size capacity s d id lo hi es first next promoted bound =
    ((promoted ≡ no_split)
      × (ids : List ℕ) × Subtree block_size capacity s d id lo hi es ids first next
      × ((a : ℕ) → occurs a ids ≤ bound a))
    ⊎ Halves block_size capacity s d id lo hi es first next promoted bound

-- What a change of a subtree in `t` with the blocks `ids` leaves, with so many blocks more at most.
pub record Grown (t : BPlusTree) (extra d id lo hi : ℕ) (es : List Entry) (ids : List ℕ)
    (first next : ℕ) (result : Entry × BPlusTree) : Type 0 where
  pub promoted : Entry
  pub n : ℕ
  pub s : Stream
  pub is_result : result ≡ (promoted, with_file t n s)
  pub fine : s.failed ≡ false
  pub grown : t.num_of_nodes ≤ n
  pub bounded : n ≤ t.num_of_nodes + extra
  pub exact :
      8 * t.capacity + 4 ≡ t.block_size
      → Exact t.block_size t.bin_file t.num_of_nodes
      → Exact t.block_size s n
  pub kept :
      (a : ℕ) (m : Node)
      → occurs a ids ≡ 0
      → a ≤ t.num_of_nodes
      → At t.block_size t.capacity t.bin_file a m
      → At t.block_size t.capacity s a m
  pub outcome :
      Outcome t.block_size t.capacity s d id lo hi es first next promoted
        (λ a. occurs a ids + fresh t.num_of_nodes n a)

-- A separator is told from `no_split`.
pub separator_lem : (e : Entry) → e.value < two_31 → is_no_split e ≡ false
separator_lem e h = ground arith

-- Two nodes written one after the other.
pub record WroteTwo (t : BPlusTree) (id new : ℕ) (m m' : Node) (s : Stream) : Type 0 where
  pub fine : s.failed ≡ false
  pub stored : At t.block_size t.capacity s id m
  pub stored_new : At t.block_size t.capacity s new m'
  pub kept :
      (other : ℕ) (k : Node)
      → other ≢ id
      → other ≢ new
      → At t.block_size t.capacity t.bin_file other k
      → At t.block_size t.capacity s other k

pub Wrote-then :
    (t : BPlusTree) (id new : ℕ) (m m' : Node) (s s' : Stream)
    → id ≢ new
    → Wrote t id m s
    → Wrote (record t { bin_file = s }) new m' s'
    → WroteTwo t id new m m' s'
Wrote-then t id new m m' s s' ne first second = record {
  fine = second.fine;
  stored = second.kept id m ne first.stored;
  stored_new = second.stored;
  kept = λ other k not_id not_new v. second.kept other k not_new (first.kept other k not_id v);
}

-- A change after a read elsewhere.
pub Grown-moved :
    (t : BPlusTree) (p extra d id lo hi : ℕ) (es : List Entry) (ids : List ℕ) (first next : ℕ)
    (result : Entry × BPlusTree)
    → Grown (moved t p) extra d id lo hi es ids first next result
    → Grown t extra d id lo hi es ids first next result
Grown-moved t p extra d id lo hi es ids first next result g = record {
  promoted = g.promoted;
  n = g.n;
  s = g.s;
  is_result = g.is_result;
  fine = g.fine;
  grown = g.grown;
  bounded = g.bounded;
  exact = λ no_rest e. g.exact no_rest (record { whole = e.whole; head = e.head });
  kept = λ a m unused old v.
      g.kept a m unused old (At-at_pos t.block_size t.capacity t.bin_file p a m v);
  outcome = g.outcome;
}

pub Outcome-le :
    (block_size capacity : ℕ) (s : Stream) (d id lo hi : ℕ) (es : List Entry) (first next : ℕ)
    (promoted : Entry) (bound bound' : ℕ → ℕ)
    → ((a : ℕ) → bound a ≤ bound' a)
    → Outcome block_size capacity s d id lo hi es first next promoted bound
    → Outcome block_size capacity s d id lo hi es first next promoted bound'
Outcome-le block_size capacity s d id lo hi es first next promoted bound bound' le
      (inl (is_no, ids, tree, few)) =
    inl (is_no, ids, tree, λ a. omega (arith, few a, le a))
Outcome-le block_size capacity s d id lo hi es first next promoted bound bound' le (inr h) =
    inr (record {
      left = h.left;
      right = h.right;
      left_ids = h.left_ids;
      right_ids = h.right_ids;
      middle = h.middle;
      good = h.good;
      is_block = h.is_block;
      above = h.above;
      below = h.below;
      whole = h.whole;
      left_tree = h.left_tree;
      right_tree = h.right_tree;
      few = λ a. omega (arith, h.few a, le a);
    })
