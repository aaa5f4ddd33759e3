-- ===== src/Index/Commands/Exits.antt =====
-- What a run does to the bytes of the index file.
use Prim.Native.String.{String}
use laboratory.Base.{
  ℕ, ◌≡◌, ◌≢◌, refl, ap, ◌∙◌, subst, arith, List, [], ◌∷◌, Option, some, none, ok, Result,
  Result-cases, Option-cases, inl, inr,
}
use laboratory.Index.Stream.{Stream}
use laboratory.Index.InputParser.{parse_search_key, parse_range}
use laboratory.Index.BPlusTree.{BPlusTree, get_metadata}
use laboratory.Index.BPlusTree.Search.{search_key, range_search}
use laboratory.Index.BPlusTree.Reading.{
  bytes, tree_bytes, tree_bytes-get_metadata, tree_bytes-search_key, tree_bytes-range_search,
  tree_bytes-print_keys,
}
use laboratory.Index.Commands.{
  with_tree, exit_of, closed, Run, main, command_of, run_search, run_range_search, run_print,
  search_entries, range_search_entries, lines, print_text,
}

search_entries_bytes :
    (input : List (List ℕ)) (t : BPlusTree) → tree_bytes (search_entries input t).2 ≡ tree_bytes t
unfolding search_entries
search_entries_bytes [] t = refl
search_entries_bytes (line ∷ rest) t = elim (Result-cases (parse_search_key line)) [
  | inl (e, bad) ↦ ground (arith, bad)
  | inr (key, good) ↦ ground (
    arith,
    good,
    search_entries_bytes rest t,
    search_entries_bytes rest (search_key key t).1,
    tree_bytes-search_key key t,
  )
]

range_search_entries_bytes :
    (fuel : ℕ) (input : List (List ℕ)) (t : BPlusTree) (r : Result (Unit {0}) × List ℕ × BPlusTree)
    → range_search_entries fuel input t ≡ some r
    → tree_bytes r.2 ≡ tree_bytes t
unfolding range_search_entries
range_search_entries_bytes fuel [] t r e = ground arith
range_search_entries_bytes fuel ([] ∷ rest) t r e = range_search_entries_bytes fuel rest t r e
range_search_entries_bytes fuel ((c ∷ line) ∷ rest) t r e =
    elim (Result-cases (parse_range (c ∷ line))) [
      | inl (x, bad) ↦ ground (arith, bad)
      | inr (range, good) ↦
          let t1 = (range_search fuel range.0 range.1 t).1 in
          elim (Option-cases (range_search_entries fuel rest t1)) [
            | inl none_left ↦ absurd (ground (arith, good, none_left))
            | inr (r', ends) ↦ ground (
              arith,
              good,
              range_search_entries_bytes fuel rest t1 r' ends,
              tree_bytes-range_search fuel range.0 range.1 t,
            )
          ]
    ]

print_text_bytes : (t : BPlusTree) → tree_bytes (print_text t).1 ≡ tree_bytes t
unfolding print_text
print_text_bytes t = tree_bytes-print_keys t

-- The bytes of a file, if there is one.
abbrev pub file_bytes : Option Stream → Option ((ℕ → ℕ) × ℕ)
file_bytes none = none
file_bytes (some s) = some (bytes s)

-- A run leaves an index file of these bytes.
abbrev KeepsBytes : Option Stream → Option Run → Type 0
KeepsBytes index none = Unit {0}
KeepsBytes index (some run) = file_bytes run.index_file ≡ file_bytes index

opened_bytes :
    (index : Option Stream) (t : BPlusTree)
    → get_metadata index ≡ ok t
    → some (tree_bytes t) ≡ file_bytes index
unfolding get_metadata
opened_bytes none t e = absurd (ground arith)
opened_bytes (some s) t e = ap some (tree_bytes-get_metadata s t e)

with_tree-KeepsBytes :
    (index : Option Stream) (continue : BPlusTree → Option Run)
    → ((t : BPlusTree) → some (tree_bytes t) ≡ file_bytes index → KeepsBytes index (continue t))
    → KeepsBytes index (with_tree index continue)
with_tree-KeepsBytes index continue each = elim (Result-cases (get_metadata index)) [
  | inl (e, bad) ↦ rw (KeepsBytes, bad) refl
  | inr (t, good) ↦ rw (KeepsBytes, good) (each t (opened_bytes index t good))
]

range-KeepsBytes :
    (fuel : ℕ) (input : List ℕ) (index : Option Stream)
    → KeepsBytes index (run_range_search fuel input index)
range-KeepsBytes fuel input index = with_tree-KeepsBytes index _ λ t at.
    go t at (range_search_entries fuel (lines input) t)
      (λ r. range_search_entries_bytes fuel (lines input) t r)
  where
    go :
        (t : BPlusTree)
        → some (tree_bytes t) ≡ file_bytes index
        → (found : Option (Result (Unit {0}) × List ℕ × BPlusTree))
        → ((r : Result (Unit {0}) × List ℕ × BPlusTree)
            → found ≡ some r
            → tree_bytes r.2 ≡ tree_bytes t)
        → KeepsBytes index (elim found [
          | none ↦ none
          | some result ↦ some (record {
            exit_code = exit_of result.0;
            index_file = closed result.2;
            output = some result.1;
          })
        ])
    go t at none same = tt
    go t at (some r) same = ap some (same r refl) ∙ at

search-KeepsBytes :
    (input : List ℕ) (index : Option Stream) → KeepsBytes index (run_search input index)
search-KeepsBytes input index =
    with_tree-KeepsBytes index _ λ t at. ap some (search_entries_bytes (lines input) t) ∙ at

print-KeepsBytes : (index : Option Stream) → KeepsBytes index (run_print index)
print-KeepsBytes index = with_tree-KeepsBytes index _ λ t at. ap some (print_text_bytes t) ∙ at

main-KeepsBytes :
    (fuel : ℕ) (command index_name : String) (rest : List String) (input : List ℕ)
    (index : Option Stream)
    → command_of command ≢ b'c'
    → command_of command ≢ b'i'
    → KeepsBytes index (main fuel (command ∷ index_name ∷ rest) input index)
unfolding main
main-KeepsBytes fuel command index_name rest input index not_c not_i = ground (
  arith,
  search-KeepsBytes input index,
  range-KeepsBytes fuel input index,
  print-KeepsBytes index,
)

-- A run whose command does not begin with `c` or `i` leaves the bytes of the index file, whatever
-- they are, as they were: the searches and `print` move the stream over it and never write.
pub main-index_file :
    (fuel : ℕ) (command index_name : String) (rest : List String) (input : List ℕ)
    (index : Option Stream) (run : Run)
    → command_of command ≢ b'c'
    → command_of command ≢ b'i'
    → main fuel (command ∷ index_name ∷ rest) input index ≡ some run
    → file_bytes run.index_file ≡ file_bytes index
main-index_file fuel command index_name rest input index run not_c not_i ends =
    subst (KeepsBytes index) ends
      (main-KeepsBytes fuel command index_name rest input index not_c not_i)
