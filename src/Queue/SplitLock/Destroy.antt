-- ===== src/Queue/SplitLock/Destroy.antt =====
-- queues.cpp, `SplitLockLinkedQueue::destroyNodes`, which the destructor calls.
use laboratory.Base.{
  same, occurs, ℕ, zero, suc, ◌+◌, ◌≤◌, ◌<◌, ◌≡◌, ◌^◌, ◌∙◌, subst, arith, List, [], ◌∷◌, length,
  Option, some, none, ◌⊎◌, inl, inr,
}
use laboratory.Queue.{Event, WaitStrategy}
use laboratory.Queue.Concurrent.{System, Reach}
use laboratory.Queue.SplitLock.{Node, SplitLockLinkedQueue, Pc, update, code}
use laboratory.Queue.SplitLock.Bounds.{initial}
use laboratory.Queue.SplitLock.Chain.{Chain, Chain-update, occurs-tail}
use laboratory.Queue.SplitLock.Fifo.{reached-Owned}

-- The loop from `node` on. It has no result where it runs out of fuel or meets a node that has
-- been deleted.
unfoldable pub destroy_nodes : ℕ → (ℕ → Option Node) → Option ℕ → Option (ℕ → Option Node)
destroy_nodes fuel cell none = some cell
destroy_nodes zero cell (some a) = none
destroy_nodes (suc fuel) cell (some a) = elim (cell a) [
  | none ↦ none
  | some node ↦ destroy_nodes fuel (update cell a none) node.next
]

-- What the loop leaves of a list of nodes: none of them, and all others.
record Destroyed (cell : ℕ → Option Node) (a : ℕ) (bs : List ℕ) : Type 0 where
  left : ℕ → Option Node
  ends : destroy_nodes (suc (length bs)) cell (some a) ≡ some left
  gone : (x : ℕ) → same x a + occurs x bs ≡ 1 → left x ≡ none
  kept : (x : ℕ) → same x a + occurs x bs ≡ 0 → left x ≡ cell x

same-cases : (x a : ℕ) → (same x a ≡ 1) ⊎ (same x a ≡ 0)
same-cases x a = ground arith

destroyed :
    (cell : ℕ → Option Node) (a : ℕ) (bs : List ℕ) (tail : ℕ)
    → Chain cell a bs tail
    → ((x : ℕ) → same x a + occurs x bs ≤ 1)
    → Destroyed cell a bs
unfolding destroy_nodes
destroyed cell a [] tail (e, (n, at, last)) once = record {
  left = update cell a none;
  ends = rw (destroy_nodes, at, last);
  gone = λ x h. ground arith;
  kept = λ x h. ground arith;
}
destroyed cell a (b ∷ bs) tail ((n, at, to), value, rest) once =
    let ih =
      destroyed (update cell a none) b bs tail
        (Chain-update cell a none b bs tail (ground (arith, once a)) rest)
        (λ x. omega (arith, once x)) in
    record {
      left = ih.left;
      ends = rw (destroy_nodes, at, to) ih.ends;
      gone = λ x h. elim (same-cases x a) [
        | inl e ↦ ih.kept x (omega arith) ∙ ground arith
        | inr e ↦ ih.gone x (omega arith)
      ];
      kept = λ x h. ih.kept x (omega arith) ∙ ground arith;
    }

-- In every state that `n` threads reach over a new bounded queue (capacity from 1 up to 2^63 - 1),
-- the destructor's loop ends after at most one turn more than events are queued, meets no deleted
-- node, and leaves neither the node at the head nor the one at the tail allocated.
pub destroy_nodes-deleted :
    (capacity n : ℕ) (w : WaitStrategy)
    → 0 < capacity
    → capacity < 2 ^ 63
    → {s : System SplitLockLinkedQueue Pc} {ins outs : List Event}
    → Reach code (initial capacity w n) s ins outs
    → (left : ℕ → Option Node) × (destroy_nodes
          (suc s.shared.depth)
          s.shared.heap.cell
          (some s.shared.head)
        ≡ some left)
      × (left s.shared.head ≡ none)
      × (left s.shared.tail ≡ none)
destroy_nodes-deleted capacity n w bounded small {s} r =
    let v = reached-Owned capacity n w bounded small r in
    let q = s.shared in
    let d = destroyed q.heap.cell q.head v.nodes q.tail v.chain λ x. ground (arith, v.once x) in
    let last = occurs-tail q.heap.cell q.head v.nodes q.tail v.chain in
    (
      d.left,
      subst (λ k. destroy_nodes (suc k) q.heap.cell (some q.head) ≡ some d.left) v.size d.ends,
      d.gone q.head (ground (arith, v.once q.head)),
      d.gone q.tail (ground (arith, v.once q.tail, last)),
    )
