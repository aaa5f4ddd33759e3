-- ===== src/Index/Commands.antt =====
-- index_file, b+tree.cpp: the commands of the program, and `print` of BPlusTree.cpp as the text that
-- it writes. The input is a list of lines, as `getline` gives them; a missing input file has none.
pub mod Files
pub mod Answers
pub mod Exits
pub mod Inserted
pub mod Reopened
use Prim.Native.String.{String}
use laboratory.Base.{
  Bool, true, false, ltb, length, ℕ, zero, suc, ◌+◌, ◌==◌, if◌then◌else◌, List, [], ◌∷◌, ◌++◌,
  Option, none, some, Result, ok, err, ◌>>=◌, Error,
}
use laboratory.Base.Numbers.{codes, stoi}
use laboratory.Index.{Entry, of_ℤ}
use laboratory.Index.Stream.{Stream, write_int}
use laboratory.Index.InputParser.{parse_entry, parse_search_key, parse_range, show_int, write_csv}
use laboratory.Index.BPlusTree.{BPlusTree, get_metadata}
use laboratory.Index.BPlusTree.Search.{search_key, range_search, print_keys}
use laboratory.Index.BPlusTree.Insert.{insert}

-- `std::ofstream` truncates the file.
abbrev pub empty_file : Stream
empty_file = record { cell = λ o. 0; size = 0; pos = 0; failed = false }

-- The bytes of a file opened again.
abbrev pub reopen : Stream → Stream
reopen s = record s { pos = 0; failed = false }

unfoldable pub create_index_file : ℕ → Stream
create_index_file block_size = write_int 0 (write_int 0 (write_int block_size empty_file))

-- `getline` until the text ends; a last line without an end counts if there is something in it.
unfoldable pub lines : List ℕ → List (List ℕ)
lines [] = []
lines (c ∷ cs) =
    let rest = lines cs in
    if c == 10
    then [] ∷ rest
    else elim rest [ [] ↦ (c ∷ []) ∷ [] | line ∷ more ↦ (c ∷ line) ∷ more ]

-- The loop of `insertEntries`. What an exception stops keeps the entries inserted before.
unfoldable pub insert_entries : List (List ℕ) → BPlusTree → Result (Unit {0}) × BPlusTree
insert_entries [] t = (ok tt, t)
insert_entries ([] ∷ rest) t = insert_entries rest t
insert_entries ((c ∷ line) ∷ rest) t = elim (parse_entry (c ∷ line)) [
  | err e ↦ (err e, t)
  | ok entry ↦ insert_entries rest (insert entry t)
]

-- The loop of `searchEntries`, with the text it has written and the tree it leaves.
unfoldable pub search_entries : List (List ℕ) → BPlusTree → Result (Unit {0}) × List ℕ × BPlusTree
search_entries [] t = (ok tt, [], t)
search_entries (line ∷ rest) t = elim (parse_search_key line) [
  | err e ↦ (err e, [], t)
  | ok key ↦ elim (key == 0) [
    | true ↦ search_entries rest t
    | false ↦
        let (value, t1) = search_key key t in
        let (outcome, text, t2) = search_entries rest t1 in
        (outcome, show_int key ++ b'|' ∷ show_int value ++ 10 ∷ text, t2)
  ]
]

unfoldable pub show_entries : List Entry → List ℕ
show_entries [] = 10 ∷ []
show_entries (e ∷ es) = show_int e.key ++ b'|' ∷ show_int e.value ++ b' ' ∷ show_entries es

-- The loop of `rangeSearchEntries`, with the text it has written and the tree it leaves; `none`
-- where the fuel for a chain of leaves ran out.
unfoldable pub range_search_entries :
    ℕ → List (List ℕ) → BPlusTree → Option (Result (Unit {0}) × List ℕ × BPlusTree)
unfolding show_entries
range_search_entries fuel [] t = some (ok tt, [], t)
range_search_entries fuel ([] ∷ rest) t = range_search_entries fuel rest t
range_search_entries fuel ((c ∷ line) ∷ rest) t = elim (parse_range (c ∷ line)) [
  | err e ↦ some (err e, [], t)
  | ok range ↦
      let (found, t1) = range_search fuel range.0 range.1 t in
      elim found [
        | none ↦ none
        | some entries ↦ elim (range_search_entries fuel rest t1) [
          | none ↦ none
          | some result ↦ some (result.0, show_entries entries ++ result.1, result.2)
        ]
      ]
]

-- `print`: the text, and the tree it leaves.
unfoldable pub print_text : BPlusTree → List ℕ × BPlusTree
print_text t =
    let (keys, t1) = print_keys t in
    (
      codes "<0>\n\n" ++ elim keys [
        | none ↦ codes "\n<1>\n\n"
        | some levels ↦ write_csv levels.0 ++ codes "\n<1>\n\n" ++ write_csv levels.1
      ],
      t1,
    )

-- What a run leaves: its exit code, the index file and the output file, if it wrote one.
pub record Run : Type 0 where
  pub exit_code : ℕ
  pub index_file : Option Stream
  pub output : Option (List ℕ)

abbrev pub exit_of : Result (Unit {0}) → ℕ
exit_of (ok done) = 0
exit_of (err e) = 1

-- The file as the tree leaves it when it is closed.
abbrev pub closed : BPlusTree → Option Stream
closed t = some (reopen t.bin_file)

-- A run that throws leaves the files as they are.
abbrev pub failed_run : Option Stream → Run
failed_run index = record { exit_code = 1; index_file = index; output = none }

-- A command that opens the tree of the index file first.
abbrev pub with_tree : Option Stream → (BPlusTree → Option Run) → Option Run
with_tree index continue = elim (get_metadata index) [
  | err e ↦ some (failed_run index)
  | ok t ↦ continue t
]

abbrev pub run_create : String → Option Stream → Run
run_create block_size index = elim (stoi block_size) [
  | err e ↦ failed_run index
  | ok n ↦ record {
    exit_code = 0;
    index_file = some (reopen (create_index_file (of_ℤ n)));
    output = none;
  }
]

abbrev pub run_insert : List ℕ → Option Stream → Option Run
run_insert input index = with_tree index λ t.
    let (outcome, t1) = insert_entries (lines input) t in
    some (record { exit_code = exit_of outcome; index_file = closed t1; output = none })

abbrev pub run_search : List ℕ → Option Stream → Option Run
run_search input index = with_tree index λ t.
    let (outcome, text, t1) = search_entries (lines input) t in
    some (record { exit_code = exit_of outcome; index_file = closed t1; output = some text })

abbrev pub run_range_search : ℕ → List ℕ → Option Stream → Option Run
run_range_search fuel input index = with_tree index λ t.
    elim (range_search_entries fuel (lines input) t) [
      | none ↦ none
      | some result ↦ some (record {
        exit_code = exit_of result.0;
        index_file = closed result.2;
        output = some result.1;
      })
    ]

abbrev pub run_print : Option Stream → Option Run
run_print index = with_tree index λ t.
    let (text, t1) = print_text t in
    some (record { exit_code = 0; index_file = closed t1; output = some text })

-- `argv[1][0]`, 0 for an empty argument.
abbrev pub command_of : String → ℕ
command_of arg = elim (codes arg) [ [] ↦ 0 | c ∷ cs ↦ c ]

-- `switch (command)`, with the arguments behind the index file; each command wants a number of them.
abbrev pub dispatch : ℕ → ℕ → List String → List ℕ → Option Stream → Option Run
dispatch fuel command rest input index =
    let given = length rest in
    if command == b'c'
    then elim rest [ [] ↦ some (failed_run index) | b ∷ more ↦ some (run_create b index) ]
    else (if command == b'i'
        then (if ltb given 1 then some (failed_run index) else run_insert input index)
        else (if command == b's'
            then (if ltb given 2 then some (failed_run index) else run_search input index)
            else (if command == b'r'
                then (if ltb given 2
                    then some (failed_run index)
                    else run_range_search fuel input index)
                else (if command == b'p'
                    then (if ltb given 1 then some (failed_run index) else run_print index)
                    else some (failed_run index)))))

-- `main`, on its arguments behind the program's name, the text of the input file and the index file.
-- The files of a run have different names. `none` is a range search that ran out of fuel.
unfoldable pub main : ℕ → List String → List ℕ → Option Stream → Option Run
main fuel [] input index = some (failed_run index)
main fuel (command ∷ []) input index = some (failed_run index)
main fuel (command ∷ index_name ∷ rest) input index =
    dispatch fuel (command_of command) rest input index
