-- ===== src/Queue/Spsc/Invariant.antt =====
-- The invariant of `SpscRingQueue`: what each side knows of the indices and of its cell.
use laboratory.Base.{
  ℕ, ◌+◌, ◌-◌, ◌≤◌, ◌<◌, ◌≡◌, ◌≢◌, ◌^◌, true, length, length-set, get_or, get_or-set_self,
  get_or-set_ne, arith, leb, if◌then◌else◌,
}
use laboratory.Queue.{default_event, block, drop, update_max_depth}
use laboratory.Queue.Ring.{next_index}
use laboratory.Queue.Concurrent.{Env}
use laboratory.Queue.Spsc.{
  SpscRingQueue, PushPc, PopPc, load_head, write, publish, observe, saw_full, read, advance,
  micro_push, micro_pop, observed_depth,
}

-- How many places `t` lies after `h` on the ring.
abbrev pub live : ℕ → ℕ → ℕ → ℕ
live n h t = if leb h t then t - h else n - h + t

-- The indices of a push that has found room: they stay true until it publishes its event.
abbrev pub HasRoom : SpscRingQueue → ℕ → ℕ → Type 0
HasRoom q next head =
    (next ≡ next_index q.ring_capacity q.tail)
    × (next ≢ q.head)
    × (head < q.ring_capacity)
    × (live q.ring_capacity q.head next ≤ observed_depth q.ring_capacity next head)
    × (observed_depth q.ring_capacity next head < q.ring_capacity)

abbrev pub PushKnows : SpscRingQueue → PushPc → Type 0
PushKnows q (write ev tail next head) = (tail ≡ q.tail) × HasRoom q next head
PushKnows q (publish ev next head) =
    (get_or q.buffer q.tail default_event ≡ ev) × HasRoom q next head
PushKnows q (observe next head) = observed_depth q.ring_capacity next head < q.ring_capacity
PushKnows q p = Unit

-- The depth that a push has still to report for the event that it has published.
abbrev pub pending_depth : SpscRingQueue → PushPc → ℕ
pending_depth q (observe next head) = observed_depth q.ring_capacity next head
pending_depth q p = 0

abbrev pub PopKnows : SpscRingQueue → PopPc → Type 0
PopKnows q (read head) = (head ≡ q.head) × (q.head ≢ q.tail)
PopKnows q (advance ev head) =
    (get_or q.buffer q.head default_event ≡ ev) × (head ≡ q.head) × (q.head ≢ q.tail)
PopKnows q p = Unit

pub record Inv (capacity : ℕ) (q : SpscRingQueue) (p : PushPc) (c : PopPc) : Type 0 where
  pub sized : q.ring_capacity ≡ capacity + 1
  pub small : capacity < 2 ^ 63
  pub some_room : 0 < capacity
  pub storage : length q.buffer ≡ q.ring_capacity
  pub head_in : q.head < q.ring_capacity
  pub tail_in : q.tail < q.ring_capacity
  pub deepest_le : q.stats.max_observed_depth ≤ capacity
  pub deepest :
      live q.ring_capacity q.head q.tail
      ≤ update_max_depth q.stats.max_observed_depth (pending_depth q p)
  pub pushing : PushKnows q p
  pub popping : PopKnows q c

pub produce-Inv :
    {capacity : ℕ} (e : Env) (q : SpscRingQueue) (p : PushPc) (c : PopPc)
    → Inv capacity q p c
    → Inv capacity (micro_push e q p).0 (micro_push e q p).1 c
unfolding micro_push
produce-Inv e q (saw_full ev block spins) c v = ground arith
produce-Inv e q (saw_full ev drop spins) c v = ground arith
produce-Inv e q (write ev tail next head) (read h) v =
    ground (arith, length-set q.buffer q.tail ev, get_or-set_self q.buffer q.tail ev default_event)
produce-Inv e q (write ev tail next head) (advance out h) v = ground (
  arith,
  length-set q.buffer q.tail ev,
  get_or-set_self q.buffer q.tail ev default_event,
  get_or-set_ne q.buffer {i = q.tail} {j = q.head} ev default_event,
)
produce-Inv e q (write ev tail next head) c v =
    ground (arith, length-set q.buffer q.tail ev, get_or-set_self q.buffer q.tail ev default_event)
produce-Inv e q (publish ev next head) (read h) v = ground arith
produce-Inv e q (publish ev next head) c v = ground arith
produce-Inv e q (observe next head) c v = ground arith
produce-Inv e q (load_head ev policy spins) c v = ground arith
produce-Inv e q p c v = ground arith

pub consume-Inv :
    {capacity : ℕ} (e : Env) (q : SpscRingQueue) (p : PushPc) (c : PopPc)
    → Inv capacity q p c
    → Inv capacity (micro_pop e q c).0 p (micro_pop e q c).1
unfolding micro_pop
consume-Inv e q (write ev tail next head) (advance out h) v = ground arith
consume-Inv e q p c v = ground arith

-- `close()` keeps it too.
pub close-Inv :
    {capacity : ℕ} (q : SpscRingQueue) (p : PushPc) (c : PopPc)
    → Inv capacity q p c
    → Inv capacity (record q { closed = true }) p c
close-Inv q (write ev tail next head) (read h) v = ground arith
close-Inv q p c v = ground arith
