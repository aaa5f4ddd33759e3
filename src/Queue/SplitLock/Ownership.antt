-- ===== src/Queue/SplitLock/Ownership.antt =====
-- Who owns the nodes of `SplitLockLinkedQueue`: the list from `head_` to `tail_`, or one call that
-- has made a node or taken one off.
use laboratory.Base.{
  same, occurs, subst, ℕ, zero, suc, ◌+◌, ◌≤◌, ◌≡◌, sym, ◌∙◌, arith, ltb, if◌then◌else◌, Bool, true,
  false, List, [], ◌∷◌, length, Option, some, none, set, get_elem?, total, total-set, le-total, inl,
  inr, ◌⊎◌,
}
use laboratory.Queue.{Event}
use laboratory.Queue.Concurrent.{Env, pushed, popped, left_unset, closed_now}
use laboratory.Queue.SplitLock.{
  Node, SplitLockLinkedQueue, Pc, new_node, link, free_head, fault, done, micro, update,
}
use laboratory.Queue.SplitLock.Bounds.{Inv, micro-Inv}
use laboratory.Queue.SplitLock.Chain.{Chain, Chain-update}

-- The node that a call alone has a pointer to.
abbrev pub held : ℕ → Pc → ℕ
held a (link ev node) = same a node
held a (free_head ev old_head) = same a old_head
held a p = 0

-- That node is allocated, and before it is linked it holds the event of the call; no call has gone
-- wrong.
abbrev pub Holds : (ℕ → Option Node) → Pc → Type 0
Holds cell (link ev node) = cell node ≡ some (record { value = some ev; next = none })
Holds cell (free_head ev old_head) = (n : Node) × (cell old_head ≡ some n)
Holds cell fault = ⊥
Holds cell (done (left_unset b)) = ⊥
Holds cell p = Unit {0}

-- A call without a node of its own that has not gone wrong.
abbrev pub is_free : Pc → Bool
is_free (link ev node) = false
is_free (free_head ev old_head) = false
is_free fault = false
is_free (done (left_unset b)) = false
is_free p = true

pub record Owned (capacity : ℕ) (q : SplitLockLinkedQueue) (ps : List Pc) : Type 0 where
  pub counts : Inv capacity q ps
  pub nodes : List ℕ
  pub chain : Chain q.heap.cell q.head nodes q.tail
  pub size : length nodes ≡ q.depth
  pub once :
      (a : ℕ)
      → same a q.head + occurs a nodes + total (held a) ps ≤ (if ltb a q.heap.fresh then 1 else 0)
  pub holds : (j : ℕ) (p : Pc) → get_elem? ps j ≡ some p → Holds q.heap.cell p

pub free-Holds : (cell : ℕ → Option Node) (p : Pc) → is_free p ≡ true → Holds cell p
free-Holds cell (link ev node) h = absurd (ground arith)
free-Holds cell (free_head ev old_head) h = absurd (ground arith)
free-Holds cell fault h = absurd (ground arith)
free-Holds cell (done (left_unset b)) h = absurd (ground arith)
free-Holds cell (done (pushed b)) h = tt
free-Holds cell (done (popped b)) h = tt
free-Holds cell (done closed_now) h = tt
free-Holds cell p h = tt

pub free-held : (a : ℕ) (p : Pc) → is_free p ≡ true → held a p ≡ 0
free-held a p h = ground arith

-- An entry of a list with one entry replaced is the new one or an old one.
get_elem?-set :
    (ps : List Pc) (i j : ℕ) (p' p : Pc)
    → get_elem? (set ps i p') j ≡ some p
    → (p' ≡ p) ⊎ (get_elem? ps j ≡ some p)
get_elem?-set [] i j p' p h = inr h
get_elem?-set (x ∷ ps) zero zero p' p h = inl (ground arith)
get_elem?-set (x ∷ ps) zero (suc j) p' p h = inr h
get_elem?-set (x ∷ ps) (suc i) zero p' p h = inr h
get_elem?-set (x ∷ ps) (suc i) (suc j) p' p h = get_elem?-set ps i j p' p h

-- A node that nobody else holds can be written.
pub Holds-update :
    (cell : ℕ → Option Node) (x : ℕ) (written : Option Node) (p : Pc)
    → held x p ≡ 0
    → Holds cell p
    → Holds (update cell x written) p
Holds-update cell x written (link ev node) apart h = ground arith
Holds-update cell x written (free_head ev old_head) apart (n, at) = (n, ground arith)
Holds-update cell x written fault apart h = h
Holds-update cell x written (done (left_unset b)) apart h = h
Holds-update cell x written (done (pushed b)) apart h = tt
Holds-update cell x written (done (popped b)) apart h = tt
Holds-update cell x written (done closed_now) apart h = tt
Holds-update cell x written p apart h = tt

module _ {c : ℕ} {q : SplitLockLinkedQueue} {ps : List Pc} (i : ℕ) {p : Pc} (v : Owned c q ps)
    (at : get_elem? ps i ≡ some p) (p' : Pc) where
  pub change_held :
      (a : ℕ) → total (held a) (set ps i p') + held a p ≡ total (held a) ps + held a p'
  change_held a = total-set (held a) ps i p p' at

  -- What the calls hold after one of them has moved on, if the others' nodes are untouched.
  pub all_hold :
      (cell : ℕ → Option Node)
      → Holds cell p'
      → ((j : ℕ) (other : Pc)
          → get_elem? (set ps i p') j ≡ some other
          → get_elem? ps j ≡ some other
          → Holds cell other)
      → (j : ℕ) (other : Pc) → get_elem? (set ps i p') j ≡ some other
      → Holds cell other
  all_hold cell own others j other is = elim (get_elem?-set ps i j p' other is) [
    | inl e ↦ subst (Holds cell) e own
    | inr old ↦ others j other is old
  ]

  -- A step that leaves the nodes and the two ends alone, of a call that holds nothing afterwards
  -- that it did not hold before.
  pub still-Owned :
      (q' : SplitLockLinkedQueue)
      → Inv c q' (set ps i p')
      → q'.heap ≡ q.heap
      → q'.head ≡ q.head
      → q'.tail ≡ q.tail
      → q'.depth ≡ q.depth
      → ((a : ℕ) → held a p' ≤ held a p)
      → Holds q.heap.cell p'
      → Owned c q' (set ps i p')
  still-Owned q' counts' same_heap same_head same_tail same_depth no_more own = record {
    counts = counts';
    nodes = v.nodes;
    chain = rw (same_heap, same_head, same_tail) v.chain;
    size = v.size ∙ sym same_depth;
    once = λ a. rw (same_heap, same_head) (omega (arith, v.once a, change_held a, no_more a));
    holds = rw (same_heap) (all_hold q.heap.cell own (λ j other is old. v.holds j other old));
  }

module _ {c : ℕ} (e : Env) (q : SplitLockLinkedQueue) (ps : List Pc) (i : ℕ)
    (v : Owned c q ps) where
  -- What every step of a call that neither holds nor takes a node comes to.
  pub quiet_step :
      (p : Pc)
      → (at : get_elem? ps i ≡ some p) → (micro e q p).0.heap ≡ q.heap
      → (micro e q p).0.head ≡ q.head
      → (micro e q p).0.tail ≡ q.tail
      → (micro e q p).0.depth ≡ q.depth
      → is_free (micro e q p).1 ≡ true
      → Owned c (micro e q p).0 (set ps i (micro e q p).1)
  quiet_step p at h1 h2 h3 h4 free =
      still-Owned i v at (micro e q p).1 (micro e q p).0 (micro-Inv e q ps i p v.counts at) h1 h2 h3
        h4 (λ a. omega (arith, free-held a (micro e q p).1 free))
        (free-Holds q.heap.cell (micro e q p).1 free)

  pub new_node-Owned :
      (ev : Event)
      → (at : get_elem? ps i ≡ some (new_node ev))
      → Owned c (micro e q (new_node ev)).0 (set ps i (micro e q (new_node ev)).1)
  unfolding micro
  new_node-Owned ev at = record {
    counts = micro-Inv e q ps i (new_node ev) v.counts at;
    nodes = v.nodes;
    chain =
        Chain-update q.heap.cell q.heap.fresh _ q.head v.nodes q.tail
          (ground (arith, v.once q.heap.fresh)) v.chain;
    size = v.size;
    once = λ a. ground (arith, v.once a, change_held i v at (link ev q.heap.fresh) a);
    holds = all_hold i v at (link ev q.heap.fresh) _ (ground arith) λ j other is old.
        Holds-update q.heap.cell q.heap.fresh _ other
          (ground (arith, v.once q.heap.fresh, le-total (held q.heap.fresh) ps j other old))
          (v.holds j other old);
  }
