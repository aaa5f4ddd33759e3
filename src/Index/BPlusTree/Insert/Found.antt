-- ===== src/Index/BPlusTree/Insert/Found.antt =====
-- What a search finds after an insertion.
use laboratory.Base.{
  ℕ, ◌+◌, ◌<◌, ◌≡◌, ◌≢◌, ap, arith, inl, inr, List, [], ◌∷◌, ◌==◌, if◌then◌else◌, Bool-cases,
}
use laboratory.Index.{Entry, rank, two_31, place, may_precede}
use laboratory.Index.Order.{Absent, Storable}
use laboratory.Index.BPlusTree.{BPlusTree}
use laboratory.Index.BPlusTree.Search.{find, search_key}
use laboratory.Index.BPlusTree.Invariant.{IsTree}
use laboratory.Index.BPlusTree.Lookup.{search_key_lem}
use laboratory.Index.BPlusTree.Insert.{insert}
use laboratory.Index.BPlusTree.Insert.Contents.{insert-IsTree}

find-place :
    (key : ℕ) (e : Entry) (es : List Entry)
    → Absent (rank e.key) es
    → find key (place e es) ≡ (if key == e.key then e.value else find key es)
unfolding find place
find-place key e [] absent = ground arith
find-place key e (x ∷ xs) (ne, absent) = elim (Bool-cases (may_precede e x)) [
  | inl before ↦ rw before (ground arith)
  | inr behind ↦ rw behind (ground (arith, find-place key e xs absent, differ))
]
  where
    differ : x.key ≢ e.key
    differ same = ne (ap rank same)

-- After the insertion of an entry with a new key, not 0, into a tree that the block numbers leave
-- room for, a search for the key gives its value, and a search for any other key gives what it gave
-- before.
pub search_key-insert :
    (t : BPlusTree) (e : Entry) (es : List Entry) (key : ℕ)
    → IsTree t es
    → Storable (e ∷ [])
    → Absent (rank e.key) es
    → t.num_of_nodes + t.depth + 2 < two_31
    → (search_key key (insert e t)).0 ≡ (if key == e.key then e.value else (search_key key t).0)
search_key-insert t e es key tree good absent room =
    let (p, before) = search_key_lem t es key tree in
    let (q, after) =
      search_key_lem (insert e t) (place e es) key (insert-IsTree t e es tree good absent room) in
    rw (after, before) (find-place key e es absent)
