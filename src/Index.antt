-- ===== src/Index.antt =====
-- index_file, Types.h: entries and nodes of the B+ tree, and the `int` values that they hold.
pub mod Stream
pub mod Order
pub mod InputParser
pub mod BPlusTree
pub mod Commands
use laboratory.Base.{
  ℕ, ◌+◌, ◌-◌, ◌%◌, ◌^◌, Bool, List, [], ◌∷◌, ltb, leb, ◌==◌, ◌&&◌, ◌||◌, if◌then◌else◌,
}
use laboratory.Base.Int.{ℤ, pos, negsuc}

-- An `int` is its bit pattern, a number below 2^32. `rank` is the place of the integer that a
-- pattern stands for among all of them.
abbrev pub two_32 : ℕ
two_32 = 4294967296

abbrev pub two_31 : ℕ
two_31 = 2147483648

abbrev pub rank : ℕ → ℕ
rank a = (a + two_31) % two_32

abbrev pub lt_int : ℕ → ℕ → Bool
lt_int a b = ltb (rank a) (rank b)

abbrev pub is_negative : ℕ → Bool
is_negative a = leb two_31 a

abbrev pub add_int : ℕ → ℕ → ℕ
add_int a b = (a + b) % two_32

abbrev pub of_ℤ : ℤ → ℕ
of_ℤ (pos n) = n % two_32
of_ℤ (negsuc n) = two_32 - 1 - n % two_32

-- The pattern of -1.
abbrev pub minus_one : ℕ
minus_one = 4294967295

abbrev pub unit : ℕ
unit = 4

-- `HEADER_UNITS * UNIT`
abbrev pub header_size : ℕ
header_size = 12

pub record Entry : Type 0 where
  pub key : ℕ
  pub value : ℕ

pub record LeafNode : Type 0 where
  pub entries : List Entry
  pub next : ℕ

-- A separator's value is the block of the child to its right.
pub record InternalNode : Type 0 where
  pub first_child : ℕ
  pub separators : List Entry

pub record TreePath : Type 0 where
  pub dest : ℕ
  pub nodes : List ℕ

-- BPlusTree.cpp
abbrev pub no_split : Entry
no_split = record { key = minus_one; value = minus_one }

abbrev pub is_no_split : Entry → Bool
is_no_split e = e.key == minus_one && e.value == minus_one

-- The order of `sortEntries`: whether `a` may stand before `b`.
abbrev pub may_precede : Entry → Entry → Bool
may_precede a b = lt_int a.key b.key || (a.key == b.key && leb (rank a.value) (rank b.value))

unfoldable pub place : Entry → List Entry → List Entry
place e [] = e ∷ []
place e (x ∷ xs) = if may_precede e x then e ∷ x ∷ xs else x ∷ place e xs

-- `sortEntries`. Entries that its order does not tell apart are equal, so any sort gives this list.
unfoldable pub sort_entries : List Entry → List Entry
unfolding place
sort_entries [] = []
sort_entries (x ∷ xs) = place x (sort_entries xs)
