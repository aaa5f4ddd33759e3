-- ===== src/Index/BPlusTree/Insert/Children.antt =====
-- The children of a node after an insertion below one of them.
use laboratory.Base.{occurs, ℕ, suc, ◌+◌, ◌≤◌, ◌≡◌, sym, ap, subst, ◌∙◌, arith, List, ◌∷◌, ◌++◌}
use laboratory.Index.{Entry, place}
use laboratory.Index.BPlusTree.{BPlusTree}
use laboratory.Index.BPlusTree.Nodes.{internal, At}
use laboratory.Index.BPlusTree.Kids.{Kids}
use laboratory.Index.BPlusTree.Focus.{Passes, Focus}
use laboratory.Index.BPlusTree.Subtree.{Subtree, Subtree-Keeps}
use laboratory.Index.BPlusTree.Invariant.{slot}
use laboratory.Index.BPlusTree.Insert.Outcome.{fresh, Halves, Grown}

module _ (t : BPlusTree) (e : Entry) (d id c lo hi : ℕ) (seps es : List Entry) (below : List ℕ)
    (first next : ℕ) (uses : (a : ℕ) → occurs a (id ∷ below) ≤ slot t.num_of_nodes a)
    (f : Focus (Subtree t.block_size t.capacity t.bin_file d) e c lo seps hi es below first next)
    (result : Entry × BPlusTree)
    (g : Grown t
      (suc d)
      d
      f.child
      f.low
      f.high
      (place e f.entries)
      f.ids_here
      f.first_here
      f.next_here
      result) where
  siblings :
      Passes
        (Subtree t.block_size t.capacity t.bin_file d)
        (Subtree t.block_size t.capacity g.s d)
        f.others
  siblings = λ c' lo' hi' es' ids' first' next'.
      Subtree-Keeps t.block_size t.capacity t.bin_file g.s f.others
        (λ a m used v.
          g.kept a m (ground (arith, uses a, f.blocks a)) (ground (arith, uses a, f.blocks a)) v)
        d c' lo' hi' es' ids' first' next'

  pub node_kept :
      At t.block_size t.capacity t.bin_file id (internal c seps)
      → At t.block_size t.capacity g.s id (internal c seps)
  node_kept at =
      g.kept id (internal c seps) (ground (arith, uses id, f.blocks id)) (ground (arith, uses id))
        at

  -- The child was not split.
  pub one_child :
      (ids' : List ℕ)
      → Subtree t.block_size t.capacity g.s d f.child f.low f.high
          (place e f.entries)
          ids'
          f.first_here
          f.next_here
      → ((a : ℕ) → occurs a ids' ≤ occurs a f.ids_here + fresh t.num_of_nodes g.n a)
      → (all : List ℕ) × Kids
          (Subtree t.block_size t.capacity g.s d)
          c
          lo
          seps
          hi
          (place e es)
          all
          first
          next
        × ((a : ℕ) → occurs a all ≤ occurs a below + fresh t.num_of_nodes g.n a)
  one_child ids' tree few =
      let Q = Subtree t.block_size t.capacity g.s d in
      let (all, kids, count) = f.one Q (place e f.entries) ids' siblings tree in
      (
        all,
        subst (λ l. Kids Q c lo seps hi l all first next) (sym f.placed) kids,
        λ a. omega (arith, count a, few a, f.blocks a),
      )

  -- The child was split.
  pub two_children :
      Halves t.block_size t.capacity g.s d f.child f.low f.high
        (place e f.entries)
        f.first_here
        f.next_here
        g.promoted
        (λ a. occurs a f.ids_here + fresh t.num_of_nodes g.n a)
      → (all : List ℕ) × Kids
          (Subtree t.block_size t.capacity g.s d)
          c
          lo
          (place g.promoted seps)
          hi
          (place e es)
          all
          first
          next
        × ((a : ℕ) → occurs a all ≤ occurs a below + fresh t.num_of_nodes g.n a)
  two_children h =
      let Q = Subtree t.block_size t.capacity g.s d in
      let (all, kids, count) =
        f.two Q g.promoted h.left h.right h.left_ids h.right_ids h.middle siblings h.above h.below
          h.left_tree h.right_tree in
      let same_entries : f.left ++ ((h.left ++ h.right) ++ f.right) ≡ place e es =
        ap (λ l. f.left ++ (l ++ f.right)) (sym h.whole) ∙ sym f.placed in
      (
        all,
        subst (λ l. Kids Q c lo (place g.promoted seps) hi l all first next) same_entries kids,
        λ a. omega (arith, count a, h.few a, f.blocks a),
      )
