-- ===== src/Index/Commands/Answers.antt =====
-- What the searches write.
use laboratory.Base.{
  ℕ, ◌<◌, ◌≡◌, refl, arith, false, inl, inr, List, [], ◌∷◌, ◌++◌, map, ◌==◌, some, Result, ok, err,
  Result-cases,
}
use laboratory.Index.{Entry, two_32}
use laboratory.Index.InputParser.{parse_range, show_int}
use laboratory.Index.InputParser.Printed.{parse_search_key-show_int}
use laboratory.Index.BPlusTree.{BPlusTree}
use laboratory.Index.BPlusTree.Search.{find}
use laboratory.Index.BPlusTree.Nodes.{moved}
use laboratory.Index.BPlusTree.Invariant.{IsTree}
use laboratory.Index.BPlusTree.Lookup.{search_key_lem, IsTree-moved}
use laboratory.Index.BPlusTree.Range.{in_range, range_search_lem}
use laboratory.Index.Commands.{search_entries, range_search_entries, show_entries}

-- Keys of `int` values that `searchEntries` does not skip.
abbrev pub Keys : List ℕ → Type 0
Keys [] = Unit {0}
Keys (key ∷ keys) = (0 < key) × (key < two_32) × Keys keys

-- A line for each key, with its value in the list or -1.
abbrev pub answers : List Entry → List ℕ → List ℕ
answers es [] = []
answers es (key ∷ keys) = show_int key ++ b'|' ∷ show_int (find key es) ++ 10 ∷ answers es keys

-- For an input of printed keys, none of them 0, `searchEntries` writes a line for each, with the
-- value that the entries of the tree have for the key, or -1, and leaves a tree that differs at
-- most in the position in its file.
pub search_entries_lem :
    (t : BPlusTree) (es : List Entry) (keys : List ℕ)
    → IsTree t es
    → Keys keys
    → (p : ℕ) × (search_entries (map show_int keys) t ≡ (ok tt, answers es keys, moved t p))
unfolding search_entries
search_entries_lem t es [] tree good = (t.bin_file.pos, ground (arith, tree.ready.fine))
search_entries_lem t es (key ∷ keys) tree (pos, small, good) =
    let (p, found) = search_key_lem t es key tree in
    let (p', rest) = search_entries_lem (moved t p) es keys (IsTree-moved t es p tree) good in
    let not_zero : (key == 0) ≡ false = ground (arith, pos) in
    (p', ground (arith, parse_search_key-show_int key small, not_zero, found, rest))

-- With fuel for more leaves than the tree has blocks, `rangeSearchEntries` ends, whatever its input.
pub range_search_entries-ends :
    (fuel : ℕ) (input : List (List ℕ)) (t : BPlusTree) (es : List Entry)
    → t.num_of_nodes < fuel
    → IsTree t es
    → (result : Result (Unit {0}) × List ℕ × BPlusTree) × (range_search_entries fuel input t
        ≡ some result)
unfolding range_search_entries
range_search_entries-ends fuel [] t es h tree = ((ok tt, [], t), refl)
range_search_entries-ends fuel ([] ∷ rest) t es h tree =
    range_search_entries-ends fuel rest t es h tree
range_search_entries-ends fuel ((c ∷ line) ∷ rest) t es h tree =
    elim (Result-cases (parse_range (c ∷ line))) [
      | inl (e, bad) ↦ ((err e, [], t), rw (range_search_entries, bad) refl)
      | inr (range, good) ↦
          let (p, found) = range_search_lem fuel range.0 range.1 t es h tree in
          let (result, ends) =
            range_search_entries-ends fuel rest (moved t p) es h (IsTree-moved t es p tree) in
          (
            (result.0, show_entries (in_range range.0 range.1 es) ++ result.1, result.2),
            ground (arith, good, found, ends),
          )
    ]
