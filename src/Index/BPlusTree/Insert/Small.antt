-- ===== src/Index/BPlusTree/Insert/Small.antt =====
-- The header, and trees of at most one block.
use laboratory.Base.{
  ◌∙◌, ◌*◌, occurs, ℕ, zero, ◌+◌, ◌≤◌, ◌≡◌, refl, sym, subst, arith, inl, inr, false, List, [], ◌∷◌,
  ◌++◌, length, take, drop, leb, Bool-cases,
}
use laboratory.Index.{Entry, rank, two_32, no_split, add_int, place, sort_entries}
use laboratory.Index.Order.{Asc, Absent, Storable, sort_entries-append, length-place}
use laboratory.Index.Stream.{write_int}
use laboratory.Index.Stream.Laws.{seek_lem, Written, write_int-Written, Written-trans}
use laboratory.Index.BPlusTree.{BPlusTree, split_index, write_metadata}
use laboratory.Index.BPlusTree.Blocks.{write_leaf, write_internal}
use laboratory.Index.BPlusTree.Blocks.Laws.{at_pos}
use laboratory.Index.BPlusTree.Nodes.{Node, leaf, At, At-at_pos, Ready, moved, block_le}
use laboratory.Index.BPlusTree.Nodes.Reading.{read_leaf_lem}
use laboratory.Index.BPlusTree.Nodes.Writing.{At-kept, write_leaf_lem}
use laboratory.Index.BPlusTree.Nodes.Exact.{Exact, Exact-new}
use laboratory.Index.BPlusTree.Subtree.{Subtree, Subtree-Keeps}
use laboratory.Index.BPlusTree.Invariant.{IsTree, slot}
use laboratory.Index.BPlusTree.Insert.Outcome.{with_file}
use laboratory.Index.BPlusTree.Insert.Leaf.{leaf_whole, leaf_split}
use laboratory.Index.BPlusTree.Insert.Root.{Grown-new_root, Grown-IsTree}
use laboratory.Index.BPlusTree.Insert.{insert_empty, entry_at, insert_into_only_one}

-- The header lies before all blocks.
module _ (t : BPlusTree) (fine : t.bin_file.failed ≡ false) where
  pub write_metadata-Written : Written (at_pos t.bin_file 4) (write_metadata t).bin_file 8
  unfolding write_metadata
  write_metadata-Written = rw (seek_lem t.bin_file 4 fine) (
      let first = write_int-Written (at_pos t.bin_file 4) t.root_bid fine in
      Written-trans first
        (write_int-Written (write_int t.root_bid (at_pos t.bin_file 4)) t.depth first.fine))

  pub write_metadata-At :
      (id : ℕ) (m : Node)
      → At t.block_size t.capacity t.bin_file id m
      → At t.block_size t.capacity (write_metadata t).bin_file id m
  write_metadata-At id m v =
      At-kept id m write_metadata-Written (inl (omega (arith, block_le t.block_size id v.id_pos)))
        (At-at_pos t.block_size t.capacity t.bin_file 4 id m v)

pub write_metadata-IsTree :
    (t : BPlusTree) (es : List Entry) → IsTree t es → IsTree (write_metadata t) es
unfolding write_metadata
write_metadata-IsTree t es tree = record {
  ready = record {
    layout = tree.ready.layout;
    fine = (write_metadata-Written t tree.ready.fine).fine;
  };
  small = tree.small;
  exact = λ no_rest.
      let e = tree.exact no_rest in
      let w = write_metadata-Written t tree.ready.fine in
      record {
        whole = omega (arith, e.whole, w.grown, w.least);
        head = w.kept 0 (inl (omega arith)) (omega (arith, e.whole)) ∙ e.head;
      };
  shape = elim tree.shape [
    | inl empty ↦ inl empty
    | inr root ↦ inr (record {
      ids = root.ids;
      first = root.first;
      some_node = root.some_node;
      levels = root.levels;
      uses = root.uses;
      tree =
          Subtree-Keeps t.block_size t.capacity t.bin_file (write_metadata t).bin_file root.ids
            (λ a m used v. write_metadata-At t tree.ready.fine a m v) t.depth t.root_bid 0 two_32 es
            root.ids root.first 0 (λ a. omega arith) root.tree;
    })
  ];
}

-- The first entry of an empty tree.
module _ (t : BPlusTree) (e : Entry) (ready : Ready t)
    (exact : 8 * t.capacity + 4 ≡ t.block_size → Exact t.block_size t.bin_file 0)
    (good : Storable (e ∷ [])) where
  pub insert_empty-IsTree : t.depth ≡ 0 → IsTree (insert_empty e t) (e ∷ [])
  unfolding insert_empty write_leaf
  insert_empty-IsTree flat =
      let t1 = record t { num_of_nodes = 1; root_bid = 1 } in
      let w =
        write_leaf_lem t1 1 (record { layout = ready.layout; fine = ready.fine }) (omega arith)
          (omega arith) (e ∷ []) 0 (good, omega (arith, ready.layout.some_entry), omega arith) in
      let s = (write_leaf 1 (e ∷ []) 0 t1).bin_file in
      record {
        ready = record { layout = ready.layout; fine = w.fine };
        small = omega arith;
        exact = λ no_rest.
            Exact-new t1 1 (leaf (e ∷ []) 0) s 0 no_rest
              (record { whole = (exact no_rest).whole; head = (exact no_rest).head }) w refl;
        shape = inr (record {
          ids = 1 ∷ [];
          first = 1;
          some_node = omega arith;
          levels = inl (refl, flat);
          uses = λ a. ground arith;
          tree =
              subst (λ d. Subtree t.block_size t.capacity s d 1 0 two_32 (e ∷ []) (1 ∷ []) 1 0)
                (sym flat)
                (w.stored, (omega arith, omega arith, omega arith), omega arith, refl, refl);
        });
      }

-- The only block: a leaf that keeps all entries, or two leaves below a new root.
module _ (t : BPlusTree) (e : Entry) (es : List Entry) (ids : List ℕ) (first : ℕ) (ready : Ready t)
    (exact : 8 * t.capacity + 4 ≡ t.block_size → Exact t.block_size t.bin_file t.num_of_nodes)
    (good : Storable (e ∷ [])) (absent : Absent (rank e.key) es) (one : t.num_of_nodes ≡ 1)
    (flat : t.depth ≡ 0) (uses : (a : ℕ) → occurs a ids ≤ slot t.num_of_nodes a)
    (at : At t.block_size t.capacity t.bin_file t.root_bid (leaf es 0)) (asc : Asc 0 es two_32)
    (i_eq : ids ≡ t.root_bid ∷ []) (f_eq : first ≡ t.root_bid) where
  pub insert_into_only_one-IsTree : IsTree (insert_into_only_one e t) (place e es)
  unfolding insert_into_only_one write_leaf write_internal
  insert_into_only_one-IsTree =
      let (p, got) = read_leaf_lem t t.root_bid ready es 0 at in
      let sorted : sort_entries (es ++ e ∷ []) ≡ place e es =
        sort_entries-append 0 two_32 e es (omega arith) asc absent in
      let new_id : add_int t.num_of_nodes 1 ≡ t.num_of_nodes + 1 = omega arith in
      elim (Bool-cases (leb (length (place e es)) t.capacity)) [
        | inl short ↦
            let g =
              leaf_whole t e t.root_bid 0 two_32 es ids first 0 ready good (omega arith)
                (omega arith) absent uses (omega arith) at asc i_eq f_eq p
                (ground (arith, short)) in
            rw (got, sorted, short)
              (Grown-IsTree t 1 zero (place e es) ids first no_split
                (write_leaf t.root_bid (place e es) 0 (moved t p)) ready exact flat (omega arith)
                (omega arith) uses g (inr (one, refl)) refl)
        | inr long ↦
            let g =
              leaf_split t e t.root_bid 0 two_32 es ids first 0 ready good (omega arith)
                (omega arith) absent uses (omega arith) at asc i_eq f_eq p
                (ground (arith, long, length-place e es, at.fits.1)) in
            let mid = split_index t in
            let new = t.num_of_nodes + 1 in
            rw (got, sorted, new_id, long)
              (Grown-new_root t 1 zero (place e es) ids first
                (record { key = (entry_at (drop mid (place e es)) 0).key; value = new })
                (write_leaf new (drop mid (place e es)) 0 (
                  write_leaf t.root_bid (take mid (place e es)) new
                    (moved (with_file t new t.bin_file) p)))
                ready exact flat (omega arith) (omega arith) uses g (omega arith) at.id_small)
      ]
