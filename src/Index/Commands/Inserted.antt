-- ===== src/Index/Commands/Inserted.antt =====
-- What an insertion from a file of printed entries leaves.
use laboratory.Base.{ℕ, ◌+◌, ◌<◌, ◌≡◌, refl, sym, ap, ◌∙◌, arith, List, [], ◌∷◌, ◌++◌, map, ok}
use laboratory.Index.{Entry, rank, two_31, place}
use laboratory.Index.Order.{Absent, Storable}
use laboratory.Index.InputParser.{parse_entry, show_int}
use laboratory.Index.InputParser.Printed.{parse_entry-show_int, show_int-cons}
use laboratory.Index.BPlusTree.{BPlusTree}
use laboratory.Index.BPlusTree.Insert.{insert}
use laboratory.Index.BPlusTree.Insert.Contents.{insert-IsTree}
use laboratory.Index.BPlusTree.Invariant.{IsTree}
use laboratory.Index.Commands.{insert_entries}

-- A line of the input.
abbrev pub entry_line : Entry → List ℕ
entry_line e = show_int e.key ++ b'|' ∷ show_int e.value

abbrev pub insert_all : List Entry → BPlusTree → BPlusTree
insert_all [] t = t
insert_all (e ∷ more) t = insert_all more (insert e t)

-- The old entries with the new ones placed among them.
abbrev pub place_all : List Entry → List Entry → List Entry
place_all [] es = es
place_all (e ∷ more) es = place_all more (place e es)

-- Each entry in turn has a new key, not 0, and finds room for its blocks.
abbrev pub Admits : BPlusTree → List Entry → List Entry → Type 0
Admits t es [] = Unit {0}
Admits t es (e ∷ more) =
    Storable (e ∷ [])
    × Absent (rank e.key) es
    × (t.num_of_nodes + t.depth + 2 < two_31)
    × Admits (insert e t) (place e es) more

insert_all-IsTree :
    (t : BPlusTree) (es new : List Entry)
    → IsTree t es
    → Admits t es new
    → IsTree (insert_all new t) (place_all new es)
insert_all-IsTree t es [] tree admits = tree
insert_all-IsTree t es (e ∷ more) tree (good, absent, room, admits) =
    insert_all-IsTree (insert e t) (place e es) more (insert-IsTree t e es tree good absent room)
      admits

insert_entries-insert_all :
    (t : BPlusTree) (es new : List Entry)
    → Admits t es new
    → insert_entries (map entry_line new) t ≡ (ok tt, insert_all new t)
unfolding insert_entries
insert_entries-insert_all t es [] admits = refl
insert_entries-insert_all t es (e ∷ more) (good, absent, room, admits) =
    let (c, cs, shape) = show_int-cons e.key in
    let line = cs ++ b'|' ∷ show_int e.value in
    let parsed : parse_entry (c ∷ line) ≡ ok e =
      ap (λ text. parse_entry (text ++ b'|' ∷ show_int e.value)) (sym shape)
      ∙ parse_entry-show_int e.key e.value good.1 good.2 in
    rw shape
      (ground (arith, parsed, insert_entries-insert_all (insert e t) (place e es) more admits))

-- `insertEntries`, on a file of printed entries whose keys are new, different and not 0, inserts them
-- all, while the block numbers leave room: the tree then holds the old entries and the new ones.
pub insert_entries-IsTree :
    (t : BPlusTree) (es new : List Entry)
    → IsTree t es
    → Admits t es new
    → (t' : BPlusTree) × (insert_entries (map entry_line new) t ≡ (ok tt, t'))
      × IsTree t' (place_all new es)
insert_entries-IsTree t es new tree admits = (
  insert_all new t,
  insert_entries-insert_all t es new admits,
  insert_all-IsTree t es new tree admits,
)
