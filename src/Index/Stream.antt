-- ===== src/Index/Stream.antt =====
-- index_file, BPlusTree.cpp: `binFile_` as far as `readInt`, `writeInt`, `seekRead` and `seekWrite`
-- use it. A `std::fstream` has one position for reading and writing, a failed stream stays failed,
-- and integers are stored with the lowest byte first.
pub mod Laws
use laboratory.Base.{
  ℕ, zero, suc, ◌+◌, ◌-◌, ◌*◌, ◌/◌, ◌%◌, max, Bool, true, false, ltb, leb, ◌==◌, if◌then◌else◌,
  Option, none, some,
}

-- The bytes of the file from 0 up to its size, where the next access is, and `failbit`.
pub record Stream : Type 0 where
  pub cell : ℕ → ℕ
  pub size : ℕ
  pub pos : ℕ
  pub failed : Bool

abbrev pub int_at : (ℕ → ℕ) → ℕ → ℕ
int_at cell o = cell o + cell (o + 1) * 256 + cell (o + 2) * 65536 + cell (o + 3) * 16777216

-- The first bytes of an integer; the others stay 0.
abbrev pub short_int : (ℕ → ℕ) → ℕ → ℕ → ℕ
short_int cell o zero = 0
short_int cell o (suc zero) = cell o
short_int cell o (suc (suc zero)) = cell o + cell (o + 1) * 256
short_int cell o (suc (suc (suc n))) = cell o + cell (o + 1) * 256 + cell (o + 2) * 65536

-- A read that meets the end of the file stores what there is and fails.
unfoldable pub read_int : Stream → ℕ × Stream
read_int s =
    if s.failed
    then (0, s)
    else (if leb (s.pos + 4) s.size then (int_at s.cell s.pos, record s { pos = s.pos + 4 }) else (
      short_int s.cell s.pos (s.size - s.pos),
      record s { pos = max s.pos s.size; failed = true },
    ))

-- The file's bytes after a write at `pos`; a gap before it is filled with zeros.
abbrev pub put_int : Stream → ℕ → ℕ → ℕ
put_int s v a =
    if a == s.pos
    then v % 256
    else (if a == s.pos + 1
        then v / 256 % 256
        else (if a == s.pos + 2
            then v / 65536 % 256
            else (if a == s.pos + 3
                then v / 16777216 % 256
                else (if ltb a s.size then s.cell a else 0))))

unfoldable pub write_int : ℕ → Stream → Stream
write_int v s =
    if s.failed
    then s
    else record s { cell = put_int s v; size = max s.size (s.pos + 4); pos = s.pos + 4 }

-- `seekg` and `seekp` from the beginning; `none` is a negative offset.
unfoldable pub seek : Option ℕ → Stream → Stream
seek target s = elim s.failed [
  | true ↦ s
  | false ↦ elim target [ none ↦ record s { failed = true } | some o ↦ record s { pos = o } ]
]
