-- ===== src/Index/BPlusTree/Insert/Contents.antt =====
-- `insert` adds an entry to what the tree holds.
use laboratory.Base.{
  ◌*◌, occurs, ℕ, suc, ◌+◌, ◌-◌, ◌≤◌, ◌<◌, ◌≡◌, refl, sym, ap, subst, ◌∙◌, arith, inl, inr, List,
  [], ◌∷◌, ◌++◌,
}
use laboratory.Index.{Entry, rank, two_31, two_32, no_split, place}
use laboratory.Index.Order.{Absent, Storable}
use laboratory.Index.BPlusTree.{BPlusTree, write_metadata}
use laboratory.Index.BPlusTree.Search.{get_path}
use laboratory.Index.BPlusTree.Nodes.{internal, At, Ready, Ready-moved, moved}
use laboratory.Index.BPlusTree.Nodes.Reading.{read_internal_lem}
use laboratory.Index.BPlusTree.Nodes.Exact.{Exact}
use laboratory.Index.BPlusTree.Subtree.{Subtree}
use laboratory.Index.BPlusTree.Invariant.{IsTree, Rooted, slot}
use laboratory.Index.BPlusTree.Insert.Outcome.{Grown, Halves, with_file, fresh}
use laboratory.Index.BPlusTree.Insert.Root.{Grown-IsTree, propagate-IsTree}
use laboratory.Index.BPlusTree.Insert.{insert_empty, insert_into_only_one, insert}
use laboratory.Index.BPlusTree.Focus.{Focus}
use laboratory.Index.BPlusTree.Descent.{focus}
use laboratory.Index.BPlusTree.Subtree.{Subtree-Asc}
use laboratory.Index.BPlusTree.Reach.{Subtree-moved}
use laboratory.Index.BPlusTree.Lookup.{reached, get_path_lem}
use laboratory.Index.BPlusTree.Insert.Outcome.{Grown-moved, separator_lem}
use laboratory.Index.BPlusTree.Insert.Path.{
  up, up_none, up_some, along, path_below, along-path_below,
}
use laboratory.Index.BPlusTree.Insert.Children.{two_children, node_kept}
use laboratory.Index.BPlusTree.Insert.Below.{step_whole, below}
use laboratory.Index.BPlusTree.Insert.Small.{
  write_metadata-IsTree, insert_empty-IsTree, insert_into_only_one-IsTree,
}
use laboratory.Index.Order.{Asc-le, Absent-append}

-- A step up to the root.
module _ (t : BPlusTree) (e : Entry) (d c : ℕ) (seps es : List Entry) (blocks : List ℕ) (first : ℕ)
    (ready : Ready t)
    (exact : 8 * t.capacity + 4 ≡ t.block_size → Exact t.block_size t.bin_file t.num_of_nodes)
    (uses : (a : ℕ) → occurs a (t.root_bid ∷ blocks) ≤ slot t.num_of_nodes a)
    (deep : t.depth ≡ suc d) (low : suc d < t.num_of_nodes) (room : t.num_of_nodes + d + 3 < two_31)
    (at : At t.block_size t.capacity t.bin_file t.root_bid (internal c seps))
    (f : Focus (Subtree t.block_size t.capacity t.bin_file d) e c 0 seps two_32 es blocks first 0)
    (result : Entry × BPlusTree)
    (g : Grown t
      (suc d)
      d
      f.child
      f.low
      f.high
      (place e f.entries)
      f.ids_here
      f.first_here
      f.next_here
      result) where
  root_whole :
      (ids' : List ℕ)
      → g.promoted ≡ no_split
      → Subtree t.block_size t.capacity g.s d f.child f.low f.high
          (place e f.entries)
          ids'
          f.first_here
          f.next_here
      → ((a : ℕ) → occurs a ids' ≤ occurs a f.ids_here + fresh t.num_of_nodes g.n a)
      → IsTree (up t.root_bid (g.promoted, with_file t g.n g.s)).1 (place e es)
  root_whole ids' is_no tree few =
      let k =
        step_whole t e d t.root_bid c 0 two_32 seps es blocks first 0 ready (omega arith) uses
          (omega arith) at f result g ids' is_no tree few in
      let r = up t.root_bid (g.promoted, with_file t g.n g.s) in
      let unsplit : r.0 ≡ no_split =
        ap (λ r. r.0) (up_none t.root_bid g.promoted (with_file t g.n g.s) (rw is_no refl))
        ∙ is_no in
      Grown-IsTree t (suc (suc d)) (suc d) (place e es) (t.root_bid ∷ blocks) first r.0 r.1 ready
        exact deep low (omega arith) uses k (inl (omega arith)) unsplit

  root-Halves :
      Halves t.block_size t.capacity g.s d f.child f.low f.high
        (place e f.entries)
        f.first_here
        f.next_here
        g.promoted
        (λ a. occurs a f.ids_here + fresh t.num_of_nodes g.n a)
      → IsTree (up t.root_bid (g.promoted, with_file t g.n g.s)).1 (place e es)
  root-Halves h =
      let (all, kids, count) =
        two_children t e d t.root_bid c 0 two_32 seps es blocks first 0 uses f result g h in
      let t' = with_file t g.n g.s in
      subst (λ r. IsTree r.1 (place e es))
        (sym (up_some t.root_bid g.promoted t' (separator_lem g.promoted h.is_block)))
        (propagate-IsTree t' g.promoted d c seps (place e es) all first
          (record { layout = ready.layout; fine = g.fine })
          (λ no_rest. g.exact no_rest (exact no_rest)) h.good
          (omega (arith, h.below, Asc-le f.high two_32 f.right f.right_Asc))
          (λ a. ground (arith, uses a, count a, g.grown)) deep (omega (arith, g.grown))
          (omega (arith, g.bounded))
          (node_kept t e d t.root_bid c 0 two_32 seps es blocks first 0 uses f result g at) kids)

  pub root_step : IsTree (up t.root_bid result).1 (place e es)
  root_step =
      subst (λ r. IsTree (up t.root_bid r).1 (place e es)) (sym g.is_result)
        (elim g.outcome [
          | inl (is_no, ids', tree, few) ↦ root_whole ids' is_no tree few
          | inr h ↦ root-Halves h
        ])

-- A tree of several blocks.
module _ (t : BPlusTree) (e : Entry) (d : ℕ) (es : List Entry) (ids : List ℕ) (first : ℕ)
    (ready : Ready t)
    (exact : 8 * t.capacity + 4 ≡ t.block_size → Exact t.block_size t.bin_file t.num_of_nodes)
    (good : Storable (e ∷ [])) (absent : Absent (rank e.key) es)
    (uses : (a : ℕ) → occurs a ids ≤ slot t.num_of_nodes a) (deep : t.depth ≡ suc d)
    (low : suc d < t.num_of_nodes) (room : t.num_of_nodes + d + 3 < two_31) where
  several :
      (p : ℕ)
      → Subtree t.block_size t.capacity t.bin_file (suc d) t.root_bid 0 two_32 es ids first 0
      → IsTree (along (path_below e.key (suc d) t.root_bid t) e (moved t p)).1 (place e es)
  several p (c, seps, blocks, at, kids, less, i) =
      let P = Subtree t.block_size t.capacity t.bin_file d in
      let f =
        focus P (Subtree-Asc t.block_size t.capacity t.bin_file d) e c 0 seps two_32 es blocks first
          0 (omega arith) (omega arith) kids in
      let (q, got) = read_internal_lem t t.root_bid ready c seps at in
      let uses_root : (a : ℕ) → occurs a (t.root_bid ∷ blocks) ≤ slot t.num_of_nodes a =
        λ a. subst (λ l. occurs a l ≤ slot t.num_of_nodes a) i (uses a) in
      let rest_absent =
        (Absent-append (rank e.key) f.left (f.entries ++ f.right)
          (subst (Absent (rank e.key)) f.whole absent)).1 in
      let result = along (path_below e.key d f.child (moved t q)) e (moved t p) in
      let g : Grown t (suc d) d f.child f.low f.high (place e f.entries) f.ids_here f.first_here
          f.next_here result =
        Grown-moved t q (suc d) d f.child f.low f.high (place e f.entries) f.ids_here f.first_here
          f.next_here result
          (below d (moved t q) e f.child f.low f.high f.entries f.ids_here f.first_here f.next_here
            p (Ready-moved t q ready) good f.low_le f.lt_high
            (Absent-append (rank e.key) f.entries f.right rest_absent).0
            (λ a. ground (arith, uses_root a, f.blocks a)) (omega arith)
            (ground (arith, uses_root t.root_bid, f.blocks t.root_bid))
            (Subtree-moved t.block_size t.capacity t.bin_file q d f.child f.low f.high f.entries
              f.ids_here f.first_here f.next_here f.here)) in
      subst (λ r. IsTree r.1 (place e es))
        (sym (along-path_below e d t.root_bid c f.child q seps t (moved t p) got f.chosen))
        (root_step t e d c seps es blocks first ready exact uses_root deep low room at f result g)

some_level : (n : ℕ) → 0 < n → (d : ℕ) × (n ≡ suc d)
some_level n h = (n - 1, omega arith)

insert_first :
    (t : BPlusTree) (e : Entry)
    → t.num_of_nodes ≡ 0
    → insert e t ≡ write_metadata (insert_empty e t)
unfolding insert
insert_first t e none_yet = ground (arith, none_yet)

insert_second :
    (t : BPlusTree) (e : Entry)
    → t.num_of_nodes ≡ 1
    → insert e t ≡ write_metadata (insert_into_only_one e t)
unfolding insert
insert_second t e one = ground (arith, one)

insert_later :
    (t : BPlusTree) (e : Entry) (path : List ℕ) (dest p : ℕ)
    → 1 < t.num_of_nodes
    → get_path e.key t ≡ (record { dest = dest; nodes = path }, moved t p)
    → insert e t ≡ write_metadata (along path e (moved t p)).1
unfolding insert
insert_later t e path dest p many found = ground (arith, found)

-- The insertion gives a tree, whose root and depth it then writes to the header.
abbrev Inserts : BPlusTree → Entry → List Entry → Type 0
Inserts t e es = (t' : BPlusTree) × (insert e t ≡ write_metadata t') × IsTree t' (place e es)

-- Where the tree has one block, or several.
rooted :
    (t : BPlusTree) (e : Entry) (es : List Entry) (tree : IsTree t es) (root : Rooted t es)
    → Storable (e ∷ [])
    → Absent (rank e.key) es
    → t.num_of_nodes + t.depth + 2 < two_31
    → Inserts t e es
rooted t e es tree root good absent room =
    let levels : ℕ → Type 0 = λ k.
      Subtree t.block_size t.capacity t.bin_file k t.root_bid 0 two_32 es root.ids root.first 0 in
    elim root.levels [
      | inl (one, flat) ↦
          let (at, asc, less, i, first_is) = subst levels flat root.tree in
          (
            insert_into_only_one e t,
            insert_second t e one,
            insert_into_only_one-IsTree t e es root.ids root.first tree.ready tree.exact good absent
                one flat root.uses at asc i first_is,
          )
      | inr (many, pos, low) ↦
          let (d, deep) = some_level t.depth pos in
          let r = reached t es tree root e.key in
          let is_path : r.path ≡ path_below e.key (suc d) t.root_bid t =
            ap (λ found. found.0.nodes) (sym r.found)
            ∙ ap (λ k. path_below e.key k t.root_bid t) deep in
          (
            (along r.path e (moved t r.p)).1,
            insert_later t e r.path r.leaf_id r.p many (get_path_lem t es tree root e.key),
            subst (λ path. IsTree (along path e (moved t r.p)).1 (place e es)) (sym is_path)
                (several t e d es root.ids root.first tree.ready tree.exact good absent root.uses
                  deep (omega (arith, deep)) (omega (arith, deep)) r.p
                  (subst levels deep root.tree)),
          )
    ]

pub insert-write_metadata :
    (t : BPlusTree) (e : Entry) (es : List Entry)
    → IsTree t es
    → Storable (e ∷ [])
    → Absent (rank e.key) es
    → t.num_of_nodes + t.depth + 2 < two_31
    → (t' : BPlusTree) × (insert e t ≡ write_metadata t') × IsTree t' (place e es)
unfolding place
insert-write_metadata t e es tree good absent room = elim tree.shape [
  | inl (none_yet, flat, empty) ↦ (
    insert_empty e t,
    insert_first t e none_yet,
    rw empty (
        insert_empty-IsTree t e tree.ready
          (λ no_rest. subst (Exact t.block_size t.bin_file) none_yet (tree.exact no_rest)) good
          flat),
  )
  | inr root ↦ rooted t e es tree root good absent room
]

-- Inserting an entry with a new key, not 0, into a tree that the block numbers leave room for, gives
-- a tree that holds the old entries and the new one in its place.
pub insert-IsTree :
    (t : BPlusTree) (e : Entry) (es : List Entry)
    → IsTree t es
    → Storable (e ∷ [])
    → Absent (rank e.key) es
    → t.num_of_nodes + t.depth + 2 < two_31
    → IsTree (insert e t) (place e es)
insert-IsTree t e es tree good absent room =
    let (t', written, tree') = insert-write_metadata t e es tree good absent room in
    subst (λ x. IsTree x (place e es)) (sym written) (write_metadata-IsTree t' (place e es) tree')
