-- ===== src/Queue/Spsc/Fifo.antt =====
-- Under any interleaving of its two sides `SpscRingQueue` is a bounded FIFO queue, and the sides
-- never touch the same cell.
use laboratory.Base.{
  ℕ, ◌-◌, ◌≤◌, ◌<◌, ◌≡◌, ◌≢◌, ◌^◌, sym, ◌∙◌, ap, List, [], ◌∷◌, ◌++◌, append-nil, append_assoc,
  length, length-replicate, arith, ok, get_or, set,
}
use laboratory.Queue.{Event, default_event, WaitStrategy, block, drop, update_max_depth}
use laboratory.Queue.Ring.{
  window, window-set_out, window_snoc, window_pos, length-window, slot, next_index,
}
use laboratory.Queue.Concurrent.{Env, Label, entering, leaving}
use laboratory.Queue.Spsc.{
  SpscRingQueue, make, PushPc, PopPc, write, publish, saw_full, read, advance, micro_push,
  micro_pop, push_label, pop_label, System, Step, produce, consume, call_push, call_pop, close,
  Reach, here, later,
}
use laboratory.Queue.Spsc.Invariant.{live, pending_depth, Inv, produce-Inv, consume-Inv, close-Inv}

-- The published events, oldest first.
abbrev pub view : SpscRingQueue → List Event
view q = window q.buffer q.ring_capacity q.head (live q.ring_capacity q.head q.tail)

-- Where the producer writes, and how far it is from the oldest event.
slot-live : (n h t : ℕ) → h < n → t < n → slot n h (live n h t) ≡ t
slot-live n h t p q = ground arith

write-view :
    {capacity : ℕ} (e : Env) (q : SpscRingQueue) (ev : Event) (tail next head : ℕ) (c : PopPc)
    → Inv capacity q (write ev tail next head) c
    → view (micro_push e q (write ev tail next head)).0 ≡ view q
unfolding micro_push
write-view e q ev tail next head c v =
    let k = live q.ring_capacity q.head q.tail in
    let at = slot-live q.ring_capacity q.head q.tail v.head_in v.tail_in in
    let out =
      window-set_out q.buffer q.ring_capacity ev k q.head (omega arith) v.head_in (ground arith) in
    ap (λ i. window (set q.buffer i ev) q.ring_capacity q.head k) (v.pushing.0 ∙ sym at) ∙ out

publish-view :
    {capacity : ℕ} (e : Env) (q : SpscRingQueue) (ev : Event) (next head : ℕ) (c : PopPc)
    → Inv capacity q (publish ev next head) c
    → view (micro_push e q (publish ev next head)).0 ≡ view q ++ ev ∷ []
unfolding micro_push
publish-view e q ev next head c v =
    let n = q.ring_capacity in
    let k = live n q.head q.tail in
    let at = slot-live n q.head q.tail v.head_in v.tail_in in
    let longer : live n q.head next ≡ ℕ.suc k = ground arith in
    ap (window q.buffer n q.head) longer
    ∙ window_snoc q.buffer n k q.head (omega arith) v.head_in (ground arith)
    ∙ ap (λ x. window q.buffer n q.head k ++ (x ∷ []))
        (ap (λ i. get_or q.buffer i default_event) at ∙ v.pushing.0)

advance-view :
    {capacity : ℕ} (e : Env) (q : SpscRingQueue) (ev : Event) (head : ℕ) (p : PushPc)
    → Inv capacity q p (advance ev head)
    → view q ≡ ev ∷ view (micro_pop e q (advance ev head)).0
unfolding micro_pop
advance-view e q ev head p v =
    let n = q.ring_capacity in
    let k = live n q.head q.tail in
    let shorter : live n (next_index n head) q.tail ≡ k - 1 = ground arith in
    let split = window_pos q.buffer n q.head k (ground arith) in ground (arith, split, shorter)

produce-view :
    {capacity : ℕ} (e : Env) (q : SpscRingQueue) (p : PushPc) (c : PopPc)
    → Inv capacity q p c
    → view q ++ entering (push_label p) ≡ leaving (push_label p) ++ view (micro_push e q p).0
unfolding micro_push
produce-view e q (write ev tail next head) c v =
    append-nil (view q) ∙ sym (write-view e q ev tail next head c v)
produce-view e q (publish ev next head) c v = sym (publish-view e q ev next head c v)
produce-view e q (saw_full ev block spins) c v = append-nil (view q)
produce-view e q (saw_full ev drop spins) c v = append-nil (view q)
produce-view e q p c v = ground (arith, append-nil (view q))

consume-view :
    {capacity : ℕ} (e : Env) (q : SpscRingQueue) (p : PushPc) (c : PopPc)
    → Inv capacity q p c
    → view q ++ entering (pop_label c) ≡ leaving (pop_label c) ++ view (micro_pop e q c).0
unfolding micro_pop
consume-view e q p (advance ev head) v = append-nil (view q) ∙ advance-view e q ev head p v
consume-view e q p c v = ground (arith, append-nil (view q))

abbrev SystemInv : ℕ → System → Type 0
SystemInv capacity s = Inv capacity s.queue s.producer s.consumer

Step-Inv :
    {capacity : ℕ} {s t : System} {l : Label}
    → Step s l t
    → SystemInv capacity s
    → SystemInv capacity t
Step-Inv {s} (produce e) v = produce-Inv e s.queue s.producer s.consumer v
Step-Inv {s} (consume e) v = consume-Inv e s.queue s.producer s.consumer v
Step-Inv (call_push ev policy back) v = ground arith
Step-Inv (call_pop back) v = ground arith
Step-Inv {s} close v = close-Inv s.queue s.producer s.consumer v

Step-view :
    {capacity : ℕ} {s t : System} {l : Label}
    → Step s l t
    → SystemInv capacity s
    → view s.queue ++ entering l ≡ leaving l ++ view t.queue
Step-view {s} (produce e) v = produce-view e s.queue s.producer s.consumer v
Step-view {s} (consume e) v = consume-view e s.queue s.producer s.consumer v
Step-view {s} (call_push ev policy back) v = append-nil (view s.queue)
Step-view {s} (call_pop back) v = append-nil (view s.queue)
Step-view {s} close v = append-nil (view s.queue)

-- A new queue; neither side is in a call.
abbrev pub initial : SpscRingQueue → System
initial q = record { queue = q; producer = PushPc.idle; consumer = PopPc.idle }

make-Inv :
    (max_size capacity : ℕ) (w : WaitStrategy) {q : SpscRingQueue}
    → capacity < 2 ^ 63
    → make max_size capacity w ≡ ok q
    → SystemInv capacity (initial q) × (view q ≡ [])
unfolding make
make-Inv max_size capacity w small e = ground (arith, length-replicate capacity default_event)

module _ (max_size capacity : ℕ) (w : WaitStrategy) {q₀ : SpscRingQueue} (small : capacity < 2 ^ 63)
    (made : make max_size capacity w ≡ ok q₀) where
  reached-Inv :
      {s : System} {ins outs : List Event} → Reach (initial q₀) s ins outs → SystemInv capacity s
  reached-Inv here = (make-Inv max_size capacity w small made).0
  reached-Inv (later r st) = Step-Inv st (reached-Inv r)

  reached-fifo :
      {s : System} {ins outs : List Event}
      → Reach (initial q₀) s ins outs
      → ins ≡ outs ++ view s.queue
  reached-fifo here = sym (make-Inv max_size capacity w small made).1
  reached-fifo (later {s} {t} {l} {ins} {outs} r st) =
      ap (λ evs. evs ++ entering l) (reached-fifo r)
      ∙ append_assoc outs (view s.queue) (entering l)
      ∙ ap (λ evs. outs ++ evs) (Step-view st (reached-Inv r))
      ∙ sym (append_assoc outs (leaving l) (view t.queue))

  module _ {s : System} {ins outs : List Event} (r : Reach (initial q₀) s ins outs) where
    -- However the producer and the consumer interleave over a new queue, the events published are,
    -- in the same order, those consumed followed by those still queued, of which there are at most
    -- `capacity` (below 2^63): none is lost, doubled, reordered or made up.
    pub spsc_in_order : (ins ≡ outs ++ view s.queue) × (length (view s.queue) ≤ capacity)
    spsc_in_order =
        let v = reached-Inv r in
        let q = s.queue in
        let k = live q.ring_capacity q.head q.tail in
        let size = length-window q.buffer q.ring_capacity q.head k in
        (reached-fifo r, ground (arith, size))

    -- However the producer and the consumer interleave over a new queue of capacity below 2^63, the
    -- largest depth reported so far, or the depth that a push between its store of `tail_` and its
    -- report is about to report if that is larger, is at least the number of queued events,
    -- although the producer computes it from an old `head_`. The largest depth reported is at most
    -- the capacity.
    pub spsc_observed_maximum :
        (length (view s.queue)
          ≤ update_max_depth s.queue.stats.max_observed_depth (pending_depth s.queue s.producer))
        × (s.queue.stats.max_observed_depth ≤ capacity)
    spsc_observed_maximum =
        let v = reached-Inv r in
        let q = s.queue in
        let k = live q.ring_capacity q.head q.tail in
        let size = length-window q.buffer q.ring_capacity q.head k in ground (arith, size)

    -- In every state reached over a new queue of capacity below 2^63: while the producer is about
    -- to write a cell and the consumer about to read one, both are cells of the buffer, they
    -- differ, and an event is queued.
    pub spsc_cells_apart :
        (ev : Event) (tail next head h : ℕ)
        → s.producer ≡ write ev tail next head
        → s.consumer ≡ read h
        → (tail < length s.queue.buffer)
          × (h < length s.queue.buffer)
          × (tail ≢ h)
          × (0 < length (view s.queue))
    spsc_cells_apart ev tail next head h at_write at_read =
        let v = reached-Inv r in
        let q = s.queue in
        let k = live q.ring_capacity q.head q.tail in
        let size = length-window q.buffer q.ring_capacity q.head k in ground (arith, size)
