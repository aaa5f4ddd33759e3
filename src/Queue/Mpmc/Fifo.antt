-- ===== src/Queue/Mpmc/Fifo.antt =====
-- Under any interleaving `MpmcRingQueue` is a bounded FIFO queue, and its sections touch only the
-- cells that they may.
use laboratory.Base.{
  ℕ, ◌+◌, ◌-◌, ◌≤◌, ◌<◌, ◌≡◌, ◌≢◌, ◌^◌, sym, ◌∙◌, List, [], ◌∷◌, ◌++◌, append-nil, get_elem?, some,
  total-replicate, replicate, length, length-replicate, arith, All, ok,
}
use laboratory.Queue.{Event, WaitStrategy, block, drop, default_event}
use laboratory.Queue.Ring.{window, window-set, window_pos, length-window, slot-ne, slot-lt}
use laboratory.Queue.Concurrent.{
  Env, entering, leaving, System, Reach, IsFifo, Reach-Inv, Reach-fifo, closed_now,
}
use laboratory.Queue.Mpmc.{MpmcRingQueue, make, Pc, saw_full, store, take, done, micro, label, code}
use laboratory.Queue.Mpmc.Invariant.{
  Inv, owns_slot, owns_item, owes_item, owes_slot, micro-Inv, call-Inv, Change, change, Returned,
  total-Returned,
}

-- The queued events, oldest first.
abbrev pub view : MpmcRingQueue → List Event
view q = window q.buffer q.ring_capacity q.head q.depth

pub view-store :
    {c : ℕ} (q : MpmcRingQueue) (ps : List Pc) (ev : Event) (e : Env)
    → Inv c q ps
    → q.depth < q.ring_capacity
    → view (micro e q (store ev)).0 ≡ view q ++ ev ∷ []
unfolding micro
view-store q ps ev e v room = ground (arith, window-set q.buffer q.ring_capacity ev q.depth q.head)

pub view-take :
    {c : ℕ} (q : MpmcRingQueue) (ps : List Pc) (e : Env)
    → Inv c q ps
    → 0 < q.depth
    → view q ≡ leaving (label take (micro e q take).1) ++ view (micro e q take).0
unfolding micro
view-take q ps e v some_item = ground (arith, window_pos q.buffer q.ring_capacity q.head q.depth)

-- A step leaves the queued events alone, or puts one event behind them, or takes the first away.
pub step-view :
    {c : ℕ} (e : Env) (q : MpmcRingQueue) (ps : List Pc) (i : ℕ) (p : Pc)
    → Inv c q ps
    → Change ps i p (micro e q p).1
    → view q ++ entering (label p (micro e q p).1)
      ≡ leaving (label p (micro e q p).1) ++ view (micro e q p).0
unfolding micro
step-view e q ps i (store ev) v ch = sym (view-store q ps ev e v (omega arith))
step-view e q ps i take v ch = append-nil (view q) ∙ view-take q ps e v (omega arith)
step-view e q ps i (saw_full ev block spins) v ch = ground (arith, append-nil (view q))
step-view e q ps i (saw_full ev drop spins) v ch = append-nil (view q)
step-view e q ps i p v ch = ground (arith, append-nil (view q))

abbrev pub fifo_laws : (c : ℕ) → IsFifo code (Inv c) view
fifo_laws c = record {
  run_keeps = micro-Inv;
  call_keeps = call-Inv;
  moves = λ e q ps i p v at. step-view e q ps i p v (change ps i p (micro e q p).1 at);
}

-- `n` threads over a new queue; none is in a call.
abbrev pub initial : MpmcRingQueue → ℕ → System MpmcRingQueue Pc
initial q n = record { shared = q; threads = replicate n (done closed_now) }

pub make-Inv :
    (max_size capacity n : ℕ) (w : WaitStrategy) {q : MpmcRingQueue}
    → capacity < 2 ^ 63
    → make max_size capacity w ≡ ok q
    → Inv capacity q (replicate n (done closed_now)) × (view q ≡ [])
unfolding make
make-Inv max_size capacity n w small e = ground (
  arith,
  length-replicate capacity default_event,
  total-replicate owns_slot n (done closed_now),
  total-replicate owns_item n (done closed_now),
  total-replicate owes_slot n (done closed_now),
  total-replicate owes_item n (done closed_now),
)

module _ (max_size capacity n : ℕ) (w : WaitStrategy) {q₀ : MpmcRingQueue}
    (small : capacity < 2 ^ 63) (made : make max_size capacity w ≡ ok q₀)
    {s : System MpmcRingQueue Pc} {ins outs : List Event}
    (r : Reach code (initial q₀ n) s ins outs) where
  pub reached-Inv : Inv capacity s.shared s.threads
  reached-Inv =
      let start = make-Inv max_size capacity n w small made in
      Reach-Inv code (fifo_laws capacity) start.0 start.1 r

  -- However `n` threads interleave over a new queue of fewer than 2^63 slots, the events that
  -- entered are, in the same order, those that left followed by those still queued, and no more
  -- are queued than the queue's capacity: none is lost, doubled, reordered or made up.
  pub mpmc_in_order : (ins ≡ outs ++ view s.shared) × (length (view s.shared) ≤ capacity)
  mpmc_in_order = (
    let start = make-Inv max_size capacity n w small made in
        Reach-fifo code (fifo_laws capacity) start.0 start.1 r,
    in_bounds (reached-Inv),
  )
    where
      in_bounds : Inv capacity s.shared s.threads → length (view s.shared) ≤ capacity
      in_bounds v =
          omega (
            arith,
            length-window s.shared.buffer s.shared.ring_capacity s.shared.head s.shared.depth,
          )

  -- In every state that `n` threads reach over a new queue of fewer than 2^63 slots: a thread in
  -- the section of a push is about to write a cell of the buffer, at an index that holds no queued
  -- event, and a thread in the section of a pop is about to read the cell of the oldest queued
  -- event. So two threads that are in both sections at once use different cells.
  pub mpmc_cells_apart :
      (i j : ℕ) (ev : Event)
      → get_elem? s.threads i ≡ some (store ev)
      → get_elem? s.threads j ≡ some take
      → let q = s.shared in
        (q.tail < length q.buffer)
        × (q.head < length q.buffer)
        × (q.tail ≢ q.head)
        × (0 < q.depth)
        × (q.depth < capacity)
  mpmc_cells_apart i j ev at_i at_j =
      let v = reached-Inv in
      let a = change s.threads i (store ev) (store ev) at_i in
      let b = change s.threads j take take at_j in
      let q = s.shared in
      ground (
        arith,
        slot-lt q.ring_capacity q.head q.depth,
        slot-ne q.ring_capacity q.head (q.depth - 1),
      )

  -- Whenever each of the `n` threads over a new queue of fewer than 2^63 slots has returned from
  -- its calls, no slot and no item is lost, whatever pushes failed meanwhile: the items announced
  -- are the events queued, and the slots free are the rest of the capacity.
  pub mpmc_nothing_leaks :
      All Returned s.threads
      → (s.shared.items ≡ length (view s.shared))
        × (s.shared.slots_available + length (view s.shared) ≡ capacity)
  mpmc_nothing_leaks idle =
      let v = reached-Inv in
      let q = s.shared in
      omega (
        arith,
        length-window q.buffer q.ring_capacity q.head q.depth,
        total-Returned s.threads idle,
      )
