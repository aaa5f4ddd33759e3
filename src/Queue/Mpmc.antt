-- ===== src/Queue/Mpmc.antt =====
-- queues.cpp, `MpmcRingQueue`, a step at a time. A step is one access to a semaphore, to the two
-- flags, or one section under `tail_mu_` or `head_mu_`; the counters that are bumped right after
-- such an access are bumped in its step. `Invariant` and `Fifo` prove what holds of every
-- interleaving of any number of threads, and `Solo` what a call does when it runs alone.
pub mod Invariant
pub mod Fifo
pub mod Accounting
pub mod Solo
use laboratory.Base.{
  ℕ, ◌+◌, ◌-◌, ◌%◌, Bool, true, false, not, ◌&&◌, ◌||◌, ltb, ◌==◌, if◌then◌else◌, List, [], ◌∷◌,
  get_or, set, replicate, Option, some, none, Result, ok, err, Error, length_error,
}
use laboratory.Queue.{
  Event, default_event, BackpressurePolicy, block, drop, WaitStrategy, mpmc_ring, two_64,
  QueueStats, zero_stats, bump, pause, update_max_depth, resolve_wait_strategy,
}
use laboratory.Queue.Ring.{next_index}
use laboratory.Queue.Concurrent.{
  Op, Reply, pushed, popped, closed_now, Env, Label, quiet, enters, leaves, QueueCode,
}

pub record MpmcRingQueue : Type 0 where
  pub ring_capacity : ℕ
  pub wait_strategy : WaitStrategy
  pub buffer : List Event
  pub head : ℕ
  pub tail : ℕ
  pub depth : ℕ
  pub closed : Bool
  pub items : ℕ
  pub slots_available : ℕ
  pub stats : QueueStats

-- The constructor. The vector throws `std::length_error` above its `max_size()`, before the body
-- looks for capacity 0.
unfoldable pub make : (max_size capacity : ℕ) → WaitStrategy → Result MpmcRingQueue
make max_size capacity requested =
    if ltb max_size capacity
    then err length_error
    else if capacity == 0
    then err Error.mpmc_capacity_zero
    else ok (record {
      ring_capacity = capacity;
      wait_strategy = resolve_wait_strategy mpmc_ring requested;
      buffer = replicate capacity default_event;
      head = 0;
      tail = 0;
      depth = 0;
      closed = false;
      items = 0;
      slots_available = capacity;
      stats = zero_stats;
    })

-- Where a call stands, with its live locals; `spins` is the waiter's count.
pub data Pc : Type 0 where
  enter_push : (ev : Event) (policy : BackpressurePolicy) → Pc
  try_slot : (ev : Event) (policy : BackpressurePolicy) (spins : ℕ) → Pc
  saw_full : (ev : Event) (policy : BackpressurePolicy) (spins : ℕ) → Pc
  check_open : (ev : Event) → Pc
  give_back : Pc
  store : (ev : Event) → Pc
  post_item : Pc
  try_item : (spins : ℕ) → Pc
  saw_empty : (spins : ℕ) → Pc
  take : Pc
  post_slot : (ev : Event) → Pc
  closing : Pc
  done : (r : Reply) → Pc

-- `std::counting_semaphore::try_acquire`: whether it succeeds on a semaphore at `n`.
abbrev pub acquires : Env → ℕ → Bool
acquires e n = ltb 0 n && not e.spurious

-- `closed_.load() || stop_flag.load()`
abbrev pub shut : Env → MpmcRingQueue → Bool
shut e q = q.closed || e.stop

abbrev pub count : MpmcRingQueue → QueueStats → MpmcRingQueue
count q s = record q { stats = s }

unfoldable pub micro : Env → MpmcRingQueue → Pc → MpmcRingQueue × Pc
micro e q (enter_push ev policy) =
    (count q (record q.stats { push_attempts = bump q.stats.push_attempts }), try_slot ev policy 0)
micro e q (try_slot ev policy spins) =
    if acquires e q.slots_available
    then (record q { slots_available = q.slots_available - 1 }, check_open ev)
    else (count q (record q.stats { full_hits = bump q.stats.full_hits }), saw_full ev policy spins)
micro e q (saw_full ev drop spins) =
    (count q (record q.stats { push_fail = bump q.stats.push_fail }), done (pushed false))
micro e q (saw_full ev block spins) =
    if shut e q
    then (count q (record q.stats { push_fail = bump q.stats.push_fail }), done (pushed false))
    else (count q (pause spins q.stats).1, try_slot ev block (pause spins q.stats).0)
micro e q (check_open ev) = if shut e q then (q, give_back) else (q, store ev)
micro e q give_back = (
  record q {
    slots_available = q.slots_available + 1;
    stats = record q.stats { push_fail = bump q.stats.push_fail };
  },
  done (pushed false),
)
micro e q (store ev) = (
  record q {
    buffer = set q.buffer q.tail ev;
    tail = next_index q.ring_capacity q.tail;
    depth = bump q.depth;
    stats = record q.stats {
      max_observed_depth = update_max_depth q.stats.max_observed_depth (bump q.depth);
    };
  },
  post_item,
)
micro e q post_item = (
  record q {
    items = q.items + 1;
    stats = record q.stats { push_success = bump q.stats.push_success };
  },
  done (pushed true),
)
micro e q (try_item spins) =
    if acquires e q.items
    then (record q { items = q.items - 1 }, take)
    else (count q (record q.stats { empty_hits = bump q.stats.empty_hits }), saw_empty spins)
micro e q (saw_empty spins) =
    if shut e q
    then (q, done (popped none))
    else (count q (pause spins q.stats).1, try_item (pause spins q.stats).0)
micro e q take = (
  record q { head = next_index q.ring_capacity q.head; depth = (q.depth + two_64 - 1) % two_64 },
  post_slot (get_or q.buffer q.head default_event),
)
micro e q (post_slot ev) = (
  record q {
    slots_available = q.slots_available + 1;
    stats = record q.stats { pop_success = bump q.stats.pop_success };
  },
  done (popped (some ev)),
)
micro e q closing = (record q { closed = true }, done closed_now)
micro e q (done r) = (q, done r)

abbrev pub start : Op → Pc
start (Op.push ev policy) = enter_push ev policy
start Op.pop = try_item 0
start Op.close = closing

abbrev pub finished : Pc → Option Reply
finished (done r) = some r
finished p = none

-- An event enters the queue in the section under `tail_mu_`, and leaves it in the one under
-- `head_mu_`.
abbrev pub label : Pc → Pc → Label
label (store ev) p' = enters ev
label take (post_slot ev) = leaves ev
label p p' = quiet

abbrev pub code : QueueCode MpmcRingQueue Pc
code = record { start = start; finished = finished; micro = micro; label = label }
