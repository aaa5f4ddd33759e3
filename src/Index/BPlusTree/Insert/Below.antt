-- ===== src/Index/BPlusTree/Insert/Below.antt =====
-- What `insert` does below a block: down to a leaf, and up again.
use laboratory.Base.{
  occurs, ℕ, zero, suc, ◌+◌, ◌≤◌, ◌<◌, ◌≡◌, ◌≢◌, refl, sym, ap, subst, ◌∙◌, arith, inl, inr, List,
  [], ◌∷◌, ◌++◌,
}
use laboratory.Index.{Entry, rank, two_31, no_split, place}
use laboratory.Index.Order.{Absent-append, Asc-le, Absent, Storable}
use laboratory.Index.BPlusTree.{BPlusTree}
use laboratory.Index.BPlusTree.Search.{descend}
use laboratory.Index.BPlusTree.Nodes.{leaf, internal, At, At-at_pos, Ready, Ready-moved, moved}
use laboratory.Index.BPlusTree.Nodes.Reading.{read_internal_lem}
use laboratory.Index.BPlusTree.Focus.{Focus}
use laboratory.Index.BPlusTree.Descent.{focus}
use laboratory.Index.BPlusTree.Subtree.{Subtree, Subtree-Asc}
use laboratory.Index.BPlusTree.Reach.{Subtree-moved}
use laboratory.Index.BPlusTree.Invariant.{slot}
use laboratory.Index.BPlusTree.Insert.{insert_leaf, climb}
use laboratory.Index.BPlusTree.Insert.Path.{up, up_none, up_some, along}
use laboratory.Index.BPlusTree.Insert.Leaf.{insert_leaf_lem}
use laboratory.Index.BPlusTree.Insert.Node.{propagate_lem}
use laboratory.Index.BPlusTree.Insert.Outcome.{
  with_file, fresh, Halves, Grown, Grown-moved, separator_lem,
}
use laboratory.Index.BPlusTree.Insert.Outcome.{Outcome-le}
use laboratory.Index.BPlusTree.Insert.Path.{path_below, along-path_below}
use laboratory.Index.BPlusTree.Insert.Children.{node_kept, one_child, two_children}

-- A step up to a node that is not the root.
module _ (t : BPlusTree) (e : Entry) (d id c lo hi : ℕ) (seps es : List Entry) (below : List ℕ)
    (first next : ℕ) (ready : Ready t) (less : lo < hi)
    (uses : (a : ℕ) → occurs a (id ∷ below) ≤ slot t.num_of_nodes a)
    (room : t.num_of_nodes + d + 2 < two_31)
    (at : At t.block_size t.capacity t.bin_file id (internal c seps))
    (f : Focus (Subtree t.block_size t.capacity t.bin_file d) e c lo seps hi es below first next)
    (result : Entry × BPlusTree)
    (g : Grown t
      (suc d)
      d
      f.child
      f.low
      f.high
      (place e f.entries)
      f.ids_here
      f.first_here
      f.next_here
      result) where
  unused_here : (a : ℕ) → occurs a (id ∷ below) ≡ 0 → occurs a f.ids_here ≡ 0
  unused_here a h = omega (arith, h, f.blocks a)

  pub step_whole :
      (ids' : List ℕ)
      → g.promoted ≡ no_split
      → Subtree t.block_size t.capacity g.s d f.child f.low f.high
          (place e f.entries)
          ids'
          f.first_here
          f.next_here
      → ((a : ℕ) → occurs a ids' ≤ occurs a f.ids_here + fresh t.num_of_nodes g.n a)
      → Grown t
          (suc (suc d))
          (suc d)
          id
          lo
          hi
          (place e es)
          (id ∷ below)
          first
          next
          (up id (g.promoted, with_file t g.n g.s))
  step_whole ids' is_no tree few =
      let (all, kids, count) =
        one_child t e d id c lo hi seps es below first next uses f result g ids' tree few in
      record {
        promoted = g.promoted;
        n = g.n;
        s = g.s;
        is_result = up_none id g.promoted (with_file t g.n g.s) (rw is_no refl);
        fine = g.fine;
        grown = g.grown;
        bounded = omega (arith, g.bounded);
        exact = g.exact;
        kept = λ a m unused old v. g.kept a m (unused_here a unused) old v;
        outcome = inl (
          is_no,
          id ∷ all,
          (
            c,
            seps,
            all,
            node_kept t e d id c lo hi seps es below first next uses f result g at,
            kids,
            less,
            refl,
          ),
          λ a. omega (arith, count a),
        );
      }

  step_halves :
      id ≢ t.root_bid
      → Halves t.block_size t.capacity g.s d f.child f.low f.high
          (place e f.entries)
          f.first_here
          f.next_here
          g.promoted
          (λ a. occurs a f.ids_here + fresh t.num_of_nodes g.n a)
      → Grown t
          (suc (suc d))
          (suc d)
          id
          lo
          hi
          (place e es)
          (id ∷ below)
          first
          next
          (up id (g.promoted, with_file t g.n g.s))
  step_halves not_root h =
      let (all, kids, count) =
        two_children t e d id c lo hi seps es below first next uses f result g h in
      let t' = with_file t g.n g.s in
      let k =
        propagate_lem t' g.promoted d id c lo hi seps (place e es) all first next
          (record { layout = ready.layout; fine = g.fine }) h.good
          (omega (arith, h.below, Asc-le f.high hi f.right f.right_Asc)) less
          (λ a. ground (arith, uses a, count a, g.grown)) (omega (arith, g.bounded))
          (node_kept t e d id c lo hi seps es below first next uses f result g at) kids not_root in
      record {
        promoted = k.promoted;
        n = k.n;
        s = k.s;
        is_result = up_some id g.promoted t' (separator_lem g.promoted h.is_block) ∙ k.is_result;
        fine = k.fine;
        grown = omega (arith, g.grown, k.grown);
        bounded = omega (arith, g.bounded, k.bounded);
        exact = λ no_rest exact. k.exact no_rest (g.exact no_rest exact);
        kept = λ a m unused old v.
            k.kept a m (ground (arith, count a, unused)) (omega (arith, g.grown))
              (g.kept a m (unused_here a unused) old v);
        outcome =
            Outcome-le t.block_size t.capacity k.s (suc d) id lo hi (place e es) first next
              k.promoted (λ a. occurs a (id ∷ all) + fresh g.n k.n a)
              (λ a. occurs a (id ∷ below) + fresh t.num_of_nodes k.n a)
              (λ a. ground (arith, count a, g.grown, k.grown)) k.outcome;
      }

  step :
      id ≢ t.root_bid
      → Grown t (suc (suc d)) (suc d) id lo hi (place e es) (id ∷ below) first next (up id result)
  step not_root =
      subst
        (λ r. Grown t (suc (suc d)) (suc d) id lo hi (place e es) (id ∷ below) first next (up id r))
        (sym g.is_result)
        (elim g.outcome [
          | inl (is_no, ids', tree, few) ↦ step_whole ids' is_no tree few
          | inr h ↦ step_halves not_root h
        ])

pub below :
    (d : ℕ) (t : BPlusTree) (e : Entry) (id lo hi : ℕ) (es : List Entry) (ids : List ℕ)
    (first next p : ℕ)
    → Ready t
    → Storable (e ∷ [])
    → lo ≤ rank e.key
    → rank e.key < hi
    → Absent (rank e.key) es
    → ((a : ℕ) → occurs a ids ≤ slot t.num_of_nodes a)
    → t.num_of_nodes + d + 1 < two_31
    → occurs t.root_bid ids ≡ 0
    → Subtree t.block_size t.capacity t.bin_file d id lo hi es ids first next
    → Grown t
        (suc d)
        d
        id
        lo
        hi
        (place e es)
        ids
        first
        next
        (along (path_below e.key d id t) e (moved t p))
unfolding descend climb
below zero t e id lo hi es ids first next p ready good low high absent uses room not_root
      (at, asc, less, i, first_is) =
    Grown-moved t p 1 zero id lo hi (place e es) ids first next (insert_leaf e id (moved t p)) (
      insert_leaf_lem (moved t p) e id lo hi es ids first next (Ready-moved t p ready) good low high
        absent uses (omega arith)
        (At-at_pos t.block_size t.capacity t.bin_file p id (leaf es next) at) asc i first_is)
below (suc d) t e id lo hi es ids first next p ready good low high absent uses room not_root
      (c, seps, blocks, at, kids, less, i) =
    let P = Subtree t.block_size t.capacity t.bin_file d in
    let f =
      focus P (Subtree-Asc t.block_size t.capacity t.bin_file d) e c lo seps hi es blocks first next
        low high kids in
    let (q, got) = read_internal_lem t id ready c seps at in
    let (left_absent, rest_absent) =
      Absent-append (rank e.key) f.left (f.entries ++ f.right)
        (subst (Absent (rank e.key)) f.whole absent) in
    let result = along (path_below e.key d f.child (moved t q)) e (moved t p) in
    let g : Grown t (suc d) d f.child f.low f.high (place e f.entries) f.ids_here f.first_here
        f.next_here result =
      Grown-moved t q (suc d) d f.child f.low f.high (place e f.entries) f.ids_here f.first_here
        f.next_here result
        (below d (moved t q) e f.child f.low f.high f.entries f.ids_here f.first_here f.next_here p
          (Ready-moved t q ready) good f.low_le f.lt_high
          (Absent-append (rank e.key) f.entries f.right rest_absent).0
          (λ a. ground (arith, uses a, ap (occurs a) i, f.blocks a)) (omega arith)
          (ground (arith, not_root, ap (occurs t.root_bid) i, f.blocks t.root_bid))
          (Subtree-moved t.block_size t.capacity t.bin_file q d f.child f.low f.high f.entries
            f.ids_here f.first_here f.next_here f.here)) in
    rw (along-path_below e d id c f.child q seps t (moved t p) got f.chosen, i)
      (step t e d id c lo hi seps es blocks first next ready less
        (λ a. subst (λ l. occurs a l ≤ slot t.num_of_nodes a) i (uses a)) (omega arith) at f result
        g (λ same_id. ground (arith, not_root, ap (occurs t.root_bid) i)))
