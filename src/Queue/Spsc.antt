-- ===== src/Queue/Spsc.antt =====
-- queues.cpp, `SpscRingQueue`, with one producer and one consumer, a step at a time. A step is one
-- access to an index that the other side writes, to a cell of the buffer, or to the two flags; the
-- index that a side writes alone is read, and counters are bumped, in a neighbouring step.
pub mod Invariant
pub mod Fifo
use laboratory.Base.{
  ℕ, ◌≡◌, ◌+◌, ◌-◌, ◌%◌, Bool, true, false, not, ◌||◌, ltb, ◌==◌, if◌then◌else◌, List, [], ◌∷◌,
  ◌++◌, get_or, set, replicate, Option, some, none, Result, ok, err, Error, length_error,
}
use laboratory.Queue.{
  Event, default_event, BackpressurePolicy, block, drop, WaitStrategy, spsc_ring, QueueStats,
  zero_stats, two_64, bump, pause, update_max_depth, resolve_wait_strategy,
}
use laboratory.Queue.Ring.{next_index}
use laboratory.Queue.Concurrent.{Env, Label, quiet, enters, leaves, entering, leaving}

pub record SpscRingQueue : Type 0 where
  pub ring_capacity : ℕ
  pub buffer : List Event
  pub head : ℕ
  pub tail : ℕ
  pub closed : Bool
  pub wait_strategy : WaitStrategy
  pub stats : QueueStats

-- The constructor: one cell more than the capacity, as a `std::size_t`. The vector throws
-- `std::length_error` above its `max_size()`, before the body looks for capacity 0.
unfoldable pub make : (max_size capacity : ℕ) → WaitStrategy → Result SpscRingQueue
make max_size capacity requested =
    let cells = (capacity + 1) % two_64 in
    if ltb max_size cells
    then err length_error
    else if capacity == 0
    then err Error.spsc_capacity_zero
    else ok (record {
      ring_capacity = cells;
      buffer = replicate cells default_event;
      head = 0;
      tail = 0;
      closed = false;
      wait_strategy = resolve_wait_strategy spsc_ring requested;
      stats = zero_stats;
    })

-- Where the producer stands in `push`, with its live locals (`head` as it was loaded).
pub data PushPc : Type 0 where
  idle : PushPc
  enter_push : (ev : Event) (policy : BackpressurePolicy) → PushPc
  check_open : (ev : Event) (policy : BackpressurePolicy) (spins : ℕ) → PushPc
  load_head : (ev : Event) (policy : BackpressurePolicy) (spins : ℕ) → PushPc
  write : (ev : Event) (tail next head : ℕ) → PushPc
  publish : (ev : Event) (next head : ℕ) → PushPc
  observe : (next head : ℕ) → PushPc
  saw_full : (ev : Event) (policy : BackpressurePolicy) (spins : ℕ) → PushPc
  pushed : (accepted : Bool) → PushPc

-- Where the consumer stands in `pop`.
pub data PopPc : Type 0 where
  idle : PopPc
  load_tail : (spins : ℕ) → PopPc
  read : (head : ℕ) → PopPc
  advance : (ev : Event) (head : ℕ) → PopPc
  saw_empty : (spins : ℕ) → PopPc
  popped : (out : Option Event) → PopPc

-- `closed_.load() || stop_flag.load()`
abbrev pub shut : Env → SpscRingQueue → Bool
shut e q = q.closed || e.stop

abbrev pub count : SpscRingQueue → QueueStats → SpscRingQueue
count q s = record q { stats = s }

-- The depth that `push` reports, from the indices that it has read.
abbrev pub observed_depth : ℕ → ℕ → ℕ → ℕ
observed_depth ring_capacity next head =
    if ltb head next then next - head else ring_capacity - head + next

unfoldable pub micro_push : Env → SpscRingQueue → PushPc → SpscRingQueue × PushPc
micro_push e q idle = (q, idle)
micro_push e q (enter_push ev policy) = (
  count q (record q.stats { push_attempts = bump q.stats.push_attempts }),
  check_open ev policy 0,
)
micro_push e q (check_open ev policy spins) =
    if shut e q
    then (count q (record q.stats { push_fail = bump q.stats.push_fail }), pushed false)
    else (q, load_head ev policy spins)
micro_push e q (load_head ev policy spins) =
    let next = next_index q.ring_capacity q.tail in
    if next == q.head
    then (count q (record q.stats { full_hits = bump q.stats.full_hits }), saw_full ev policy spins)
    else (q, write ev q.tail next q.head)
micro_push e q (write ev tail next head) =
    (record q { buffer = set q.buffer tail ev }, publish ev next head)
micro_push e q (publish ev next head) = (record q { tail = next }, observe next head)
micro_push e q (observe next head) = (
  count q (record q.stats {
    max_observed_depth =
        update_max_depth q.stats.max_observed_depth (observed_depth q.ring_capacity next head);
    push_success = bump q.stats.push_success;
  }),
  pushed true,
)
micro_push e q (saw_full ev drop spins) =
    (count q (record q.stats { push_fail = bump q.stats.push_fail }), pushed false)
micro_push e q (saw_full ev block spins) =
    (count q (pause spins q.stats).1, check_open ev block (pause spins q.stats).0)
micro_push e q (pushed accepted) = (q, pushed accepted)

unfoldable pub micro_pop : Env → SpscRingQueue → PopPc → SpscRingQueue × PopPc
micro_pop e q idle = (q, idle)
micro_pop e q (load_tail spins) =
    if q.head == q.tail
    then (count q (record q.stats { empty_hits = bump q.stats.empty_hits }), saw_empty spins)
    else (q, read q.head)
micro_pop e q (read head) = (q, advance (get_or q.buffer head default_event) head)
micro_pop e q (advance ev head) = (
  record q {
    head = next_index q.ring_capacity head;
    stats = record q.stats { pop_success = bump q.stats.pop_success };
  },
  popped (some ev),
)
micro_pop e q (saw_empty spins) =
    if shut e q
    then (q, popped none)
    else (count q (pause spins q.stats).1, load_tail (pause spins q.stats).0)
micro_pop e q (popped out) = (q, popped out)

-- An event enters the queue when its `tail_` is published, and leaves when `head_` is advanced.
abbrev pub push_label : PushPc → Label
push_label (publish ev next head) = enters ev
push_label p = quiet

abbrev pub pop_label : PopPc → Label
pop_label (advance ev head) = leaves ev
pop_label p = quiet

-- Whether the side is in no call.
abbrev pub push_returned : PushPc → Bool
push_returned idle = true
push_returned (pushed accepted) = true
push_returned p = false

abbrev pub pop_returned : PopPc → Bool
pop_returned idle = true
pop_returned (popped out) = true
pop_returned p = false

pub record System : Type 0 where
  pub queue : SpscRingQueue
  pub producer : PushPc
  pub consumer : PopPc

-- One step of either side, a new call of a side whose last call has returned, or `close()`, which
-- any thread may call.
pub data Step (s : System) : Label → System → Type 0 where
  produce :
      (e : Env)
      → Step s (push_label s.producer) (record s {
        queue = (micro_push e s.queue s.producer).0;
        producer = (micro_push e s.queue s.producer).1;
      })
  consume :
      (e : Env)
      → Step s (pop_label s.consumer) (record s {
        queue = (micro_pop e s.queue s.consumer).0;
        consumer = (micro_pop e s.queue s.consumer).1;
      })
  call_push :
      (ev : Event) (policy : BackpressurePolicy)
      → push_returned s.producer ≡ true
      → Step s quiet (record s { producer = enter_push ev policy })
  call_pop : pop_returned s.consumer ≡ true → Step s quiet (record s { consumer = load_tail 0 })
  close : Step s quiet (record s { queue = record s.queue { closed = true } })

-- Reached from `s₀`, with the events that entered and left so far.
pub data Reach (s₀ : System) : System → List Event → List Event → Type 0 where
  here : Reach s₀ s₀ [] []
  later :
      {s t : System} {l : Label} {ins outs : List Event}
      → Reach s₀ s ins outs
      → Step s l t
      → Reach s₀ t (ins ++ entering l) (outs ++ leaving l)
