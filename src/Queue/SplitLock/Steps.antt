-- ===== src/Queue/SplitLock/Steps.antt =====
-- The steps of `SplitLockLinkedQueue` that link, unlink and delete nodes, and that every step keeps
-- the ownership of the nodes.
use laboratory.Base.{
  occurs-append, same, occurs, ℕ, ◌+◌, ◌-◌, ◌%◌, if◌then◌else◌, ltb, ◌≤◌, ◌≡◌, refl, sym, subst,
  arith, Bool, true, false, List, [], ◌∷◌, ◌++◌, length, length-append, Option, some, none, set,
  get_elem?, total, le-total,
}
use laboratory.Queue.{Event, two_64}
use laboratory.Queue.Concurrent.{Env, Op, Reply, pushed, popped, left_unset, closed_now}
use laboratory.Queue.SplitLock.{
  Node, SplitLockLinkedQueue, Pc, new_node, link, give_back, set_cell, link_at, take_value,
  post_item, take, free_head, post_slot, fault, done, micro, start, finished,
}
use laboratory.Queue.SplitLock.Bounds.{Inv, micro-Inv, call-Inv, owns_item}
use laboratory.Queue.SplitLock.Chain.{
  Chain, value_of, Chain-update, Chain-link, Chain-tail, occurs-tail,
}
use laboratory.Queue.SplitLock.Ownership.{
  Owned, held, is_free, free-Holds, free-held, Holds-update, change_held, all_hold, still-Owned,
  quiet_step, new_node-Owned,
}

module _ {c : ℕ} (e : Env) (q : SplitLockLinkedQueue) (ps : List Pc) (i : ℕ)
    (v : Owned c q ps) where
  -- A step that is known to lead to `q'` and `p'`.
  step_to :
      (p p' : Pc) (q' : SplitLockLinkedQueue)
      → get_elem? ps i ≡ some p
      → micro e q p ≡ (q', p')
      → (Inv c q' (set ps i p') → Owned c q' (set ps i p'))
      → Owned c (micro e q p).0 (set ps i (micro e q p).1)
  step_to p p' q' at leads owned =
      subst (λ out. Owned c out.0 (set ps i out.1)) (sym leads)
        (owned
          (subst (λ out. Inv c out.0 (set ps i out.1)) leads (micro-Inv e q ps i p v.counts at)))

  -- A call deletes the node that it holds, and holds none afterwards.
  delete-Owned :
      (p p' : Pc) (x : ℕ)
      → get_elem? ps i ≡ some p
      → held x p ≡ 1
      → is_free p' ≡ true
      → Inv c (set_cell q x none) (set ps i p')
      → Owned c (set_cell q x none) (set ps i p')
  delete-Owned p p' x at owner free counts' = record {
    counts = counts';
    nodes = v.nodes;
    chain =
        Chain-update q.heap.cell x none q.head v.nodes q.tail
          (ground (arith, v.once x, le-total (held x) ps i p at)) v.chain;
    size = v.size;
    once = λ a. ground (arith, v.once a, change_held i v at p' a, free-held a p' free);
    holds = all_hold i v at p' _ (free-Holds _ p' free) λ j other is old.
        Holds-update q.heap.cell x none other
          (ground (
            arith,
            v.once x,
            change_held i v at p' x,
            free-held x p' free,
            le-total (held x) (set ps i p') j other is,
          ))
          (v.holds j other old);
  }

  pub free_head-Owned :
      (ev : Event) (old_head : ℕ)
      → get_elem? ps i ≡ some (free_head ev old_head)
      → Owned c
          (micro e q (free_head ev old_head)).0
          (set ps i (micro e q (free_head ev old_head)).1)
  unfolding micro
  free_head-Owned ev old_head at =
      let (n, is) = v.holds i (free_head ev old_head) at in
      step_to (free_head ev old_head) (post_slot ev) (set_cell q old_head none) at (rw (is))
        (delete-Owned (free_head ev old_head) (post_slot ev) old_head at (ground arith) refl)

  taken_value :
      (m : Option Node) (b : ℕ) (ev : Event)
      → value_of m ≡ some ev
      → take_value q b m
        ≡ (record q { head = b; depth = (q.depth + two_64 - 1) % two_64 }, free_head ev q.head)
  taken_value none b ev value = absurd (ground arith)
  taken_value (some node) b ev value = rw (value)

  pub taken_leads :
      (n : Node) (b : ℕ) (ev : Event)
      → q.heap.cell q.head ≡ some n
      → n.next ≡ some b
      → value_of (q.heap.cell b) ≡ some ev
      → micro e q take
        ≡ (record q { head = b; depth = (q.depth + two_64 - 1) % two_64 }, free_head ev q.head)
  unfolding micro
  taken_leads n b ev is to value = rw (is, to) (taken_value (q.heap.cell b) b ev value)

  pub linked_leads :
      (last : Node) (ev : Event) (node : ℕ)
      → q.closed ≡ false
      → q.heap.cell q.tail ≡ some last
      → micro e q (link ev node) ≡ link_at q (some last) ev node
  unfolding micro
  linked_leads last ev node is_open is = ground arith

  pub deleted_leads :
      (last : Node) (ev : Event) (node : ℕ)
      → q.closed ≡ true
      → q.heap.cell node ≡ some last
      → micro e q (link ev node) ≡ (set_cell q node none, give_back)
  unfolding micro
  deleted_leads last ev node is_open is = ground arith

  pub take-Owned :
      (nodes : List ℕ)
      → (at : get_elem? ps i ≡ some take) → Chain q.heap.cell q.head nodes q.tail
      → length nodes ≡ q.depth
      → ((a : ℕ)
          → same a q.head + occurs a nodes + total (held a) ps
            ≤ (if ltb a q.heap.fresh then 1 else 0))
      → Owned c (micro e q take).0 (set ps i (micro e q take).1)
  take-Owned [] at chain size once =
      absurd (omega (arith, v.counts.items_at, le-total owns_item ps i take at, size))
  take-Owned (b ∷ bs) at ((n, is, to), (ev, value), rest) size once =
      step_to take (free_head ev q.head) _ at (taken_leads n b ev is to value) λ counts'. record {
        counts = counts';
        nodes = bs;
        chain = rest;
        size = ground (arith, size, v.counts.small);
        once = λ a. omega (arith, once a, change_held i v at (free_head ev q.head) a);
        holds =
            all_hold i v at (free_head ev q.head) q.heap.cell (n, is)
              (λ j other now old. v.holds j other old);
      }

  pub link-Owned :
      (ev : Event) (node : ℕ)
      → (at : get_elem? ps i ≡ some (link ev node)) → (closed : Bool) → q.closed ≡ closed
      → Owned c (micro e q (link ev node)).0 (set ps i (micro e q (link ev node)).1)
  link-Owned ev node at true is_closed =
      step_to (link ev node) give_back _ at (deleted_leads _ ev node is_closed (v.holds i _ at))
        (delete-Owned (link ev node) give_back node at (ground arith) refl)
  link-Owned ev node at false is_open =
      let (last, is, end) = Chain-tail q.heap.cell q.head v.nodes q.tail v.chain in
      let first = occurs-tail q.heap.cell q.head v.nodes q.tail v.chain in
      step_to (link ev node) post_item _ at (linked_leads last ev node is_open is) λ counts'.
        record {
          counts = counts';
          nodes = v.nodes ++ node ∷ [];
          chain =
              Chain-link q.heap.cell node ev (v.holds i _ at) q.tail last is
                (ground
                  (arith, v.once q.tail, first, le-total (held q.tail) ps i (link ev node) at))
                q.head v.nodes v.chain (ground (arith, v.once q.tail, first));
          size = ground (arith, length-append v.nodes (node ∷ []), v.size);
          once = λ a. omega (
            arith,
            v.once a,
            occurs-append a v.nodes (node ∷ []),
            change_held i v at post_item a,
          );
          holds = all_hold i v at post_item _ tt λ j other now old.
              Holds-update q.heap.cell q.tail _ other
                (ground (arith, v.once q.tail, first, le-total (held q.tail) ps j other old))
                (v.holds j other old);
        }

-- Every step of every thread keeps the ownership of the nodes.
pub micro-Owned :
    {c : ℕ} (e : Env) (q : SplitLockLinkedQueue) (ps : List Pc) (i : ℕ) (p : Pc)
    → Owned c q ps
    → get_elem? ps i ≡ some p
    → Owned c (micro e q p).0 (set ps i (micro e q p).1)
unfolding micro
micro-Owned e q ps i (link ev node) v at = link-Owned e q ps i v ev node at q.closed refl
micro-Owned e q ps i take v at = take-Owned e q ps i v v.nodes at v.chain v.size v.once
micro-Owned e q ps i (free_head ev old_head) v at = free_head-Owned e q ps i v ev old_head at
micro-Owned e q ps i (new_node ev) v at = new_node-Owned e q ps i v ev at
micro-Owned e q ps i fault v at = absurd (v.holds i fault at)
micro-Owned e q ps i (done (left_unset b)) v at = absurd (v.holds i _ at)
micro-Owned e q ps i (done (pushed b)) v at =
    quiet_step e q ps i v (done (pushed b)) at refl refl refl refl refl
micro-Owned e q ps i (done (popped b)) v at =
    quiet_step e q ps i v (done (popped b)) at refl refl refl refl refl
micro-Owned e q ps i (done closed_now) v at =
    quiet_step e q ps i v (done closed_now) at refl refl refl refl refl
micro-Owned e q ps i p v at =
    quiet_step e q ps i v p at (ground arith) (ground arith) (ground arith) (ground arith)
      (ground arith)

start_free : (op : Op) → is_free (start op) ≡ true
start_free (Op.push ev policy) = refl
start_free Op.pop = refl
start_free Op.close = refl

-- So does the call that a thread makes after its last one returned.
pub call-Owned :
    {c : ℕ} (q : SplitLockLinkedQueue) (ps : List Pc) (i : ℕ) (p : Pc) (r : Reply) (op : Op)
    → Owned c q ps
    → get_elem? ps i ≡ some p
    → finished p ≡ some r
    → Owned c q (set ps i (start op))
call-Owned q ps i p r op v at back =
    still-Owned i v at (start op) q (call-Inv q ps i p r op v.counts at back) refl refl refl refl
      (λ a. omega (arith, free-held a (start op) (start_free op)))
      (free-Holds q.heap.cell (start op) (start_free op))
