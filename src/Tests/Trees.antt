-- ===== src/Tests/Trees.antt =====
-- The theorems on the B+ tree at a file with blocks of 20 bytes, which hold two entries.
use laboratory.Base.{
  ◌*◌, ℕ, ◌+◌, ◌<◌, ◌≡◌, refl, arith, inl, List, [], ◌∷◌, ◌++◌, map, ◌==◌, if◌then◌else◌, Option,
  some, Result, ok, err, Error,
}
use laboratory.Base.Numbers.{codes, stoi_codes}
use laboratory.Index.{Entry, rank, two_31, place, sort_entries}
use laboratory.Index.Order.{Absent, Storable}
use laboratory.Index.Stream.{Stream, read_int, write_int, seek}
use laboratory.Index.InputParser.{parse_entry, parse_search_key, show_int}
use laboratory.Index.InputParser.Printed.{parse_entry-show_int}
use laboratory.Index.BPlusTree.{BPlusTree, get_metadata, write_metadata}
use laboratory.Index.BPlusTree.Blocks.{
  read_entries, read_separators, write_entries, write_dummies, read_leaf, read_internal, write_leaf,
  write_internal,
}
use laboratory.Index.BPlusTree.Blocks.RoundTrip.{read_leaf-write_leaf, read_internal-write_internal}
use laboratory.Index.BPlusTree.Nodes.{leaf, internal, At, Fits, Ready, moved}
use laboratory.Index.BPlusTree.Nodes.Writing.{write_leaf_lem}
use laboratory.Index.BPlusTree.Search.{descend, choose, get_path, find, search_key, range_search}
use laboratory.Index.BPlusTree.Invariant.{IsTree}
use laboratory.Index.BPlusTree.Lookup.{search_key_lem}
use laboratory.Index.BPlusTree.Range.{in_range, range_search_lem}
use laboratory.Index.BPlusTree.Insert.{
  insert_empty, insert_into_only_one, insert_leaf, propagate, climb, insert,
}
use laboratory.Index.BPlusTree.Insert.Contents.{insert-IsTree}
use laboratory.Index.BPlusTree.Insert.Found.{search_key-insert}
use laboratory.Index.Commands.{
  closed, reopen, create_index_file, insert_entries, search_entries, range_search_entries, lines,
  Run, main,
}
use laboratory.Index.Commands.Files.{
  new_tree, new_tree-IsTree, create_index_file-IsTree, get_metadata-create_index_file,
}
use laboratory.Index.Commands.Answers.{answers, search_entries_lem, range_search_entries-ends}
use laboratory.Index.Commands.Inserted.{entry_line, place_all, insert_entries-IsTree}
use laboratory.Index.Commands.Reopened.{get_metadata-insert}
use laboratory.Index.Commands.Exits.{file_bytes, main-index_file}

abbrev e1 : Entry
e1 = record { key = 5; value = 50 }

abbrev e2 : Entry
e2 = record { key = 2; value = 20 }

abbrev e3 : Entry
e3 = record { key = 9; value = 90 }

abbrev t0 : BPlusTree
t0 = new_tree 20

abbrev t1 : BPlusTree
t1 = insert e1 t0

abbrev t2 : BPlusTree
t2 = insert e2 t1

-- A root over two leaves.
abbrev t3 : BPlusTree
t3 = insert e3 t2

sizes :
    (t1.num_of_nodes + t1.depth ≡ 1)
    × (t2.num_of_nodes + t2.depth ≡ 1)
    × (t3.num_of_nodes + t3.depth ≡ 4)
unfolding insert insert_empty insert_into_only_one insert_leaf propagate climb get_path descend
    choose read_leaf read_internal write_leaf write_internal read_entries read_separators
    write_entries write_dummies write_metadata read_int write_int seek create_index_file place
    sort_entries
sizes = (refl, refl, refl)

good1 : Storable (e1 ∷ [])
good1 = (omega arith, omega arith, omega arith, tt)

good2 : Storable (e2 ∷ [])
good2 = (omega arith, omega arith, omega arith, tt)

good3 : Storable (e3 ∷ [])
good3 = (omega arith, omega arith, omega arith, tt)

holds0 : IsTree t0 []
holds0 = new_tree-IsTree 20 (omega arith) (omega arith)

holds1 : IsTree t1 (e1 ∷ [])
unfolding place
holds1 = insert-IsTree t0 e1 [] holds0 good1 tt (omega arith)

room1 : t1.num_of_nodes + t1.depth + 2 < two_31
room1 = omega (arith, sizes.0)

holds2 : IsTree t2 (e2 ∷ e1 ∷ [])
unfolding place
holds2 = insert-IsTree t1 e2 (e1 ∷ []) holds1 good2 (λ same. omega arith, tt) room1

room2 : t2.num_of_nodes + t2.depth + 2 < two_31
room2 = omega (arith, sizes.1)

apart3 : Absent (rank e3.key) (e2 ∷ e1 ∷ [])
apart3 = (λ same. omega arith, (λ same. omega arith, tt))

holds3 : IsTree t3 (e2 ∷ e1 ∷ e3 ∷ [])
unfolding place
holds3 = insert-IsTree t2 e3 (e2 ∷ e1 ∷ []) holds2 good3 apart3 room2

insert-IsTree_example : IsTree t3 (place e3 (e2 ∷ e1 ∷ []))
insert-IsTree_example = insert-IsTree t2 e3 (e2 ∷ e1 ∷ []) holds2 good3 apart3 room2

search_key_lem_example : (p : ℕ) × (search_key 9 t3 ≡ (find 9 (e2 ∷ e1 ∷ e3 ∷ []), moved t3 p))
search_key_lem_example = search_key_lem t3 (e2 ∷ e1 ∷ e3 ∷ []) 9 holds3

search_key-insert_example :
    (search_key 9 (insert e3 t2)).0 ≡ (if 9 == e3.key then e3.value else (search_key 9 t2).0)
search_key-insert_example = search_key-insert t2 e3 (e2 ∷ e1 ∷ []) 9 holds2 good3 apart3 room2

few_nodes : t3.num_of_nodes < 5
few_nodes = omega (arith, sizes.2)

range_search_lem_example :
    (p : ℕ) × (range_search 5 3 9 t3 ≡ (some (in_range 3 9 (e2 ∷ e1 ∷ e3 ∷ [])), moved t3 p))
range_search_lem_example = range_search_lem 5 3 9 t3 (e2 ∷ e1 ∷ e3 ∷ []) few_nodes holds3

created_file_opens :
    (t : BPlusTree) × (get_metadata (some (reopen (create_index_file 20))) ≡ ok t) × IsTree t []
created_file_opens = create_index_file-IsTree 20 (omega arith) (omega arith)

small_blocks_refused :
    get_metadata (some (reopen (create_index_file 11))) ≡ err Error.bad_block_size
small_blocks_refused = get_metadata-create_index_file 11 (omega arith) (inl (omega arith))

parse_entry-show_int_example :
    parse_entry (show_int 7 ++ b'|' ∷ show_int 4294967295)
    ≡ ok (record { key = 7; value = 4294967295 })
parse_entry-show_int_example = parse_entry-show_int 7 4294967295 (omega arith) (omega arith)

-- A leaf in the first block.
abbrev t_leaf : BPlusTree
t_leaf = write_leaf 1 (e1 ∷ []) 0 t0

ready_leaf : Ready t_leaf
unfolding write_leaf
ready_leaf = record {
  layout = holds0.ready.layout;
  fine =
      (write_leaf_lem t0 1 holds0.ready (omega arith) (omega arith) (e1 ∷ []) 0
        (good1, omega arith, omega arith)).fine;
}

At-leaf : At t_leaf.block_size t_leaf.capacity t_leaf.bin_file 1 (leaf (e1 ∷ []) 0)
unfolding write_leaf
At-leaf =
    (write_leaf_lem t0 1 holds0.ready (omega arith) (omega arith) (e1 ∷ []) 0
      (good1, omega arith, omega arith)).stored

Fits-leaf : Fits t_leaf.capacity (leaf (e2 ∷ e3 ∷ []) 1)
unfolding write_leaf
Fits-leaf = ((omega arith, omega arith, omega arith, good3), omega arith, omega arith)

Fits-internal : Fits t_leaf.capacity (internal 1 (e3 ∷ []))
unfolding write_leaf
Fits-internal = (good3, omega arith, omega arith)

read_leaf-write_leaf_example :
    ((read_leaf 2 (write_leaf 2 (e2 ∷ e3 ∷ []) 1 t_leaf)).0
      ≡ record { entries = e2 ∷ e3 ∷ []; next = 1 })
    × ((read_leaf 1 (write_leaf 2 (e2 ∷ e3 ∷ []) 1 t_leaf)).0 ≡ (read_leaf 1 t_leaf).0)
read_leaf-write_leaf_example =
    read_leaf-write_leaf t_leaf 2 ready_leaf (omega arith) (omega arith) (e2 ∷ e3 ∷ []) 1 1 0
      (e1 ∷ []) Fits-leaf (λ same. omega arith) At-leaf

internal_round_trip :
    ((read_internal 2 (write_internal 2 1 (e3 ∷ []) t_leaf)).0
      ≡ record { first_child = 1; separators = e3 ∷ [] })
    × ((read_leaf 1 (write_internal 2 1 (e3 ∷ []) t_leaf)).0 ≡ (read_leaf 1 t_leaf).0)
internal_round_trip =
    read_internal-write_internal t_leaf 2 ready_leaf (omega arith) (omega arith) 1 (e3 ∷ []) 1 0
      (e1 ∷ []) Fits-internal (λ same. omega arith) At-leaf

insert_entries-IsTree_example :
    (t' : BPlusTree) × (insert_entries (map entry_line (e1 ∷ e2 ∷ e3 ∷ [])) t0 ≡ (ok tt, t'))
    × IsTree t' (place_all (e1 ∷ e2 ∷ e3 ∷ []) [])
unfolding place
insert_entries-IsTree_example =
    insert_entries-IsTree t0 [] (e1 ∷ e2 ∷ e3 ∷ []) holds0 (
      good1,
      tt,
      omega arith,
      (good2, (λ same. omega arith, tt), room1, (good3, apart3, room2, tt)),
    )

search_entries_lem_example :
    (p : ℕ) × (search_entries (map show_int (9 ∷ 7 ∷ [])) t3
      ≡ (ok tt, answers (e2 ∷ e1 ∷ e3 ∷ []) (9 ∷ 7 ∷ []), moved t3 p))
search_entries_lem_example =
    search_entries_lem t3 (e2 ∷ e1 ∷ e3 ∷ []) (9 ∷ 7 ∷ []) holds3
      (omega arith, omega arith, (omega arith, omega arith, tt))

range_search_entries-ends_example :
    (result : Result (Unit {0}) × List ℕ × BPlusTree) × (range_search_entries 5
        (codes "3-9" ∷ codes "-1-4" ∷ [])
        t3
      ≡ some result)
range_search_entries-ends_example =
    range_search_entries-ends 5 (codes "3-9" ∷ codes "-1-4" ∷ []) t3 (e2 ∷ e1 ∷ e3 ∷ []) few_nodes
      holds3

-- A search in the file of a tree with one entry.
abbrev one_entry : Option Stream
one_entry = closed t1

abbrev found : Run
found = record { exit_code = 0; index_file = one_entry; output = some (codes "5|50\n7|-1\n") }

searches :
    main 0 ("search" ∷ "tree.bin" ∷ "in.txt" ∷ "out.txt" ∷ []) (codes "5\n\n7\n") one_entry
    ≡ some found
unfolding main search_entries get_metadata insert insert_empty insert_into_only_one insert_leaf
    propagate climb get_path descend choose find search_key read_leaf read_internal write_leaf
    write_internal read_entries read_separators write_entries write_dummies write_metadata read_int
    write_int seek create_index_file place sort_entries lines parse_search_key stoi_codes show_int
searches = refl

main-index_file_example : file_bytes found.index_file ≡ file_bytes one_entry
main-index_file_example =
    main-index_file 0 "search" "tree.bin" ("in.txt" ∷ "out.txt" ∷ []) (codes "5\n\n7\n") one_entry
      found (λ same. omega arith) (λ same. omega arith) searches

no_rest3 : 8 * t3.capacity + 4 ≡ t3.block_size
unfolding insert insert_empty insert_into_only_one insert_leaf propagate climb get_path descend
    choose read_leaf read_internal write_leaf write_internal read_entries read_separators
    write_entries write_dummies write_metadata read_int write_int seek create_index_file place
    sort_entries
no_rest3 = refl

get_metadata-insert_example :
    (t' : BPlusTree) × (get_metadata (closed (insert e3 t2)) ≡ ok t')
    × IsTree t' (place e3 (e2 ∷ e1 ∷ []))
get_metadata-insert_example =
    get_metadata-insert t2 e3 (e2 ∷ e1 ∷ []) holds2 good3 apart3 room2 no_rest3
