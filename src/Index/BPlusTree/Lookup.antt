-- ===== src/Index/BPlusTree/Lookup.antt =====
-- `search` finds what the tree holds.
use laboratory.Base.{ℕ, suc, ◌≤◌, ◌<◌, ◌≡◌, refl, ap, ◌∙◌, arith, inl, inr, List, [], ◌∷◌, ◌++◌}
use laboratory.Index.{Entry, rank, two_32, minus_one}
use laboratory.Index.Order.{Asc}
use laboratory.Index.BPlusTree.{BPlusTree}
use laboratory.Index.BPlusTree.Search.{get_path, find, search_key}
use laboratory.Index.BPlusTree.Nodes.{leaf, At-at_pos, Ready-moved, moved}
use laboratory.Index.BPlusTree.Nodes.Reading.{read_leaf_lem}
use laboratory.Index.BPlusTree.Nodes.Exact.{Exact-moved}
use laboratory.Index.BPlusTree.Invariant.{IsTree, Rooted}
use laboratory.Index.BPlusTree.Reach.{Reached, reach, Subtree-moved}

-- A key is not among smaller or larger ones.
find-left :
    (key lo k : ℕ) (xs ys : List Entry)
    → Asc lo xs k
    → k ≤ rank key
    → find key (xs ++ ys) ≡ find key ys
unfolding find
find-left key lo k [] ys a h = refl
find-left key lo k (x ∷ xs) ys (low, high, a) h =
    ground (arith, find-left key (suc (rank x.key)) k xs ys a h)

find-none : (key k hi : ℕ) (ys : List Entry) → Asc k ys hi → rank key < k → find key ys ≡ minus_one
unfolding find
find-none key k hi [] a h = refl
find-none key k hi (y ∷ ys) (low, high, a) h =
    ground (arith, find-none key (suc (rank y.key)) hi ys a (omega arith))

find-right :
    (key k hi : ℕ) (xs ys : List Entry)
    → Asc k ys hi
    → rank key < k
    → find key (xs ++ ys) ≡ find key xs
unfolding find
find-right key k hi [] ys a h = find-none key k hi ys a h
find-right key k hi (x ∷ xs) ys a h = ground (arith, find-right key k hi xs ys a h)

-- Where `getPath` leads in a tree.
module _ (t : BPlusTree) (es : List Entry) (tree : IsTree t es) (root : Rooted t es) (key : ℕ) where
  pub reached : Reached t key t.depth t.root_bid 0 two_32 es root.ids 0
  reached =
      reach t.depth t key t.root_bid 0 two_32 es root.ids root.first 0 tree.ready (omega arith)
        (ground arith) root.tree

  pub get_path_lem :
      get_path key t ≡ (record { dest = reached.leaf_id; nodes = reached.path }, moved t reached.p)
  unfolding get_path
  get_path_lem = ground (arith, root.levels, tree.small, reached.found)

-- A search gives the value that the entries of the tree have for the key, -1 without one, and
-- leaves the tree as it is.
pub search_key_lem :
    (t : BPlusTree) (es : List Entry) (key : ℕ)
    → IsTree t es
    → (p : ℕ) × (search_key key t ≡ (find key es, moved t p))
unfolding search_key find
search_key_lem t es key tree = elim tree.shape [
  | inl (none_yet, flat, empty) ↦ (t.bin_file.pos, ground (arith, empty))
  | inr root ↦
      let r = reached t es tree root key in
      let (q, got) =
        read_leaf_lem (moved t r.p) r.leaf_id (Ready-moved t r.p tree.ready) r.entries r.after (
          At-at_pos t.block_size t.capacity t.bin_file r.p r.leaf_id (leaf r.entries r.after)
            r.stands) in
      let same_value : find key es ≡ find key r.entries =
        ap (find key) r.whole
        ∙ find-left key 0 r.low r.left (r.entries ++ r.right) r.left_Asc r.low_le
        ∙ find-right key r.high two_32 r.entries r.right r.right_Asc r.lt_high in
      (q, ground (arith, get_path_lem t es tree root key, got, same_value, root.some_node))
]

-- A tree stays a tree when it is read.
pub IsTree-moved : (t : BPlusTree) (es : List Entry) (p : ℕ) → IsTree t es → IsTree (moved t p) es
IsTree-moved t es p tree = record {
  ready = Ready-moved t p tree.ready;
  small = tree.small;
  exact = λ no_rest. Exact-moved t.block_size t.bin_file p t.num_of_nodes (tree.exact no_rest);
  shape = elim tree.shape [
    | inl empty ↦ inl empty
    | inr root ↦ inr (record {
      ids = root.ids;
      first = root.first;
      some_node = root.some_node;
      levels = root.levels;
      uses = root.uses;
      tree =
          Subtree-moved t.block_size t.capacity t.bin_file p t.depth t.root_bid 0 two_32 es root.ids
            root.first 0 root.tree;
    })
  ];
}
