-- ===== src/Queue/SplitLock/Fifo.antt =====
-- `SplitLockLinkedQueue` fills the contract of a FIFO queue, and no call goes wrong.
use laboratory.Base.{
  same, occurs, ◌≢◌, ℕ, zero, suc, ◌+◌, ◌≤◌, ◌<◌, ◌≡◌, ◌^◌, refl, sym, ap, subst, ◌∙◌, arith, Bool,
  true, false, List, [], ◌∷◌, ◌++◌, append-nil, length, length-append, Option, some, none,
  get_elem?, le-total, total-replicate, replicate,
}
use laboratory.Queue.{Event, WaitStrategy, block, drop}
use laboratory.Queue.Concurrent.{
  Env, System, Reach, Reach-Inv, Reach-fifo, IsFifo, entering, leaving, left_unset, closed_now,
}
use laboratory.Queue.SplitLock.{
  Node, SplitLockLinkedQueue, Pc, make, code, label, try_slot, new_node, link, take, free_head,
  fault, done, micro, update,
}
use laboratory.Queue.SplitLock.Bounds.{make-Inv, initial, owns_item}
use laboratory.Queue.SplitLock.Chain.{
  walk-Chain, length-values, Chain, walk, walk-update, walk-link, walk-first, Chain-tail,
  occurs-tail,
}
use laboratory.Queue.SplitLock.Ownership.{Owned, Holds, held}
use laboratory.Queue.SplitLock.Steps.{
  micro-Owned, call-Owned, taken_leads, linked_leads, deleted_leads,
}

-- The queued events, oldest first.
abbrev pub view : SplitLockLinkedQueue → List Event
view q = walk q.heap.cell q.head q.depth

-- What the step from `p` to `out` owes the queued events.
abbrev Moves : SplitLockLinkedQueue → Pc → SplitLockLinkedQueue × Pc → Type 0
Moves q p out = view q ++ entering (label p out.1) ≡ leaving (label p out.1) ++ view out.0

module _ {c : ℕ} (e : Env) (q : SplitLockLinkedQueue) (ps : List Pc) (i : ℕ)
    (v : Owned c q ps) where
  -- Writing a node that is not in the list leaves the queued events alone.
  apart_view :
      (x : ℕ) (written : Option Node)
      → same x q.head + occurs x v.nodes ≡ 0
      → walk (update q.heap.cell x written) q.head q.depth ≡ view q
  apart_view x written apart =
      ap (walk (update q.heap.cell x written) q.head) (sym v.size)
      ∙ walk-update q.heap.cell x written q.head v.nodes q.tail apart v.chain
      ∙ ap (walk q.heap.cell q.head) v.size

  take-Moves :
      (nodes : List ℕ)
      → get_elem? ps i ≡ some take
      → Chain q.heap.cell q.head nodes q.tail
      → length nodes ≡ q.depth
      → Moves q take (micro e q take)
  take-Moves [] at chain size =
      absurd (omega (arith, v.counts.items_at, le-total owns_item ps i take at, size))
  take-Moves (b ∷ bs) at ((n, is, to), (ev, value), rest) size =
      subst (Moves q take) (sym (taken_leads e q ps i v n b ev is to value)) (
        append-nil (view q)
        ∙ ap (walk q.heap.cell q.head) (sym size)
        ∙ walk-first q.heap.cell q.head b (length bs) n ev is to value
        ∙ ap (λ k. ev ∷ walk q.heap.cell b k) (ground (arith, size, v.counts.small)))

  link-Moves :
      (ev : Event) (node : ℕ)
      → get_elem? ps i ≡ some (link ev node)
      → (closed : Bool) → q.closed ≡ closed
      → Moves q (link ev node) (micro e q (link ev node))
  link-Moves ev node at true is_closed =
      subst (Moves q (link ev node))
        (sym (deleted_leads e q ps i v _ ev node is_closed (v.holds i _ at)))
        (append-nil (view q)
          ∙ sym (
              apart_view node none
                (ground (arith, v.once node, le-total (held node) ps i (link ev node) at))))
  link-Moves ev node at false is_open =
      let (last, is, end) = Chain-tail q.heap.cell q.head v.nodes q.tail v.chain in
      let first = occurs-tail q.heap.cell q.head v.nodes q.tail v.chain in
      subst (Moves q (link ev node)) (sym (linked_leads e q ps i v last ev node is_open is)) (
        ap (λ n. walk q.heap.cell q.head n ++ ev ∷ []) (sym v.size)
        ∙ sym (
            walk-link q.heap.cell node ev (v.holds i _ at) q.tail last is
              (ground (arith, v.once q.tail, first, le-total (held q.tail) ps i (link ev node) at))
              q.head v.nodes v.chain (ground (arith, v.once q.tail, first)))
        ∙ ap (walk _ q.head)
            (ground (arith, length-append v.nodes (node ∷ []), v.size, v.counts.small)))

-- A step leaves the queued events alone, or puts one event behind them, or takes the first away.
pub step-view :
    {c : ℕ} (e : Env) (q : SplitLockLinkedQueue) (ps : List Pc) (i : ℕ) (p : Pc)
    → Owned c q ps
    → get_elem? ps i ≡ some p
    → Moves q p (micro e q p)
unfolding micro
step-view e q ps i (link ev node) v at = link-Moves e q ps i v ev node at q.closed refl
step-view e q ps i take v at = take-Moves e q ps i v v.nodes at v.chain v.size
step-view e q ps i (new_node ev) v at =
    append-nil (view q)
    ∙ sym (apart_view e q ps i v q.heap.fresh _ (ground (arith, v.once q.heap.fresh)))
step-view e q ps i (free_head ev old_head) v at =
    let (n, is) = v.holds i (free_head ev old_head) at in
    append-nil (view q)
    ∙ (rw (is) (
        sym (
          apart_view e q ps i v old_head none (
            ground
              (arith, v.once old_head, le-total (held old_head) ps i (free_head ev old_head) at)))))
step-view e q ps i (try_slot ev block spins) v at = ground (arith, append-nil (view q))
step-view e q ps i (try_slot ev drop spins) v at = ground (arith, append-nil (view q))
step-view e q ps i p v at = ground (arith, append-nil (view q))

abbrev pub fifo_laws : (c : ℕ) → IsFifo code (Owned c) view
fifo_laws c = record { run_keeps = micro-Owned; call_keeps = call-Owned; moves = step-view }

replicated : (n j : ℕ) {a p : Pc} → get_elem? (replicate n a) j ≡ some p → a ≡ p
replicated zero j at = absurd (ground arith)
replicated (suc n) zero at = ground arith
replicated (suc n) (suc j) at = replicated n j at

make-Owned :
    (capacity n : ℕ) (w : WaitStrategy)
    → 0 < capacity
    → capacity < 2 ^ 63
    → Owned capacity (make capacity w) (replicate n (done closed_now))
unfolding make
make-Owned capacity n w bounded small = record {
  counts = make-Inv capacity n w bounded small;
  nodes = [];
  chain = (refl, (record { value = none; next = none }, refl, refl));
  size = refl;
  once = λ a. ground (arith, total-replicate (held a) n (done closed_now));
  holds = λ j p at. subst (Holds _) (replicated n j at) tt;
}

view-make : (capacity : ℕ) (w : WaitStrategy) → view (make capacity w) ≡ []
unfolding make walk
view-make capacity w = refl

length-view :
    {c : ℕ} (q : SplitLockLinkedQueue) (ps : List Pc) → Owned c q ps → length (view q) ≡ q.depth
length-view q ps v =
    ap (λ n. length (walk q.heap.cell q.head n)) (sym v.size)
    ∙ ap length (walk-Chain q.heap.cell q.head v.nodes q.tail v.chain)
    ∙ length-values q.heap.cell v.nodes
    ∙ v.size

module _ (capacity n : ℕ) (w : WaitStrategy) (bounded : 0 < capacity) (small : capacity < 2 ^ 63)
    {s : System SplitLockLinkedQueue Pc} {ins outs : List Event}
    (r : Reach code (initial capacity w n) s ins outs) where
  pub reached-Owned : Owned capacity s.shared s.threads
  reached-Owned =
      Reach-Inv code (fifo_laws capacity) (make-Owned capacity n w bounded small)
        (view-make capacity w) r

  -- However `n` threads interleave over a new bounded queue (capacity from 1 up to 2^63 - 1), the
  -- events that entered are, in the same order, those that left followed by those still in the
  -- list of nodes, of which there are at most `capacity`: none is lost, doubled, reordered or made
  -- up.
  pub split_lock_in_order : (ins ≡ outs ++ view s.shared) × (length (view s.shared) ≤ capacity)
  split_lock_in_order = (
    Reach-fifo code (fifo_laws capacity) (make-Owned capacity n w bounded small)
        (view-make capacity w) r,
    let v = reached-Owned in
        let q = s.shared in ground (arith, length-view q s.threads v, v.counts.slots_at),
  )

  -- However `n` threads interleave over a new bounded queue (capacity from 1 up to 2^63 - 1), no
  -- call ever follows a null pointer or one to a deleted node, nor deletes a node twice, and no
  -- `pop` returns true without an event.
  pub split_lock_no_fault :
      (i : ℕ)
      → (get_elem? s.threads i ≢ some fault)
        × ((b : Bool) → get_elem? s.threads i ≢ some (done (left_unset b)))
  split_lock_no_fault i =
      (reached-Owned.holds i fault, λ b. reached-Owned.holds i (done (left_unset b)))
