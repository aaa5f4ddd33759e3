-- ===== src/Queue/GlobalLock.antt =====
-- queues.cpp, `GlobalLockQueue`, a step at a time. A step is one section under `mu_`: up to the
-- return, to the wait on a condition variable, or to the unlock before a pause.
pub mod Invariant
pub mod Fifo
use laboratory.Base.{
  ℕ, ◌+◌, ◌-◌, Bool, true, false, ◌&&◌, ◌||◌, not, ltb, leb, ◌==◌, if◌then◌else◌, List, [], ◌∷◌,
  ◌++◌, length, Option, some, none, min,
}
use laboratory.Queue.{
  Event, BackpressurePolicy, block, drop, WaitStrategy, condition_variable, queue_default,
  spin_yield, global_lock, QueueStats, zero_stats, bump, pause, update_max_depth,
  resolve_wait_strategy,
}
use laboratory.Queue.Concurrent.{
  Op, Reply, pushed, popped, closed_now, Env, Label, quiet, enters, leaves, QueueCode,
}

-- `std::condition_variable`: the threads that wait on it, and how many of them have been notified
-- and have not yet gone on. A wait may also end spuriously.
pub record CondVar : Type 0 where
  pub waiting : ℕ
  pub signals : ℕ

abbrev pub start_wait : CondVar → CondVar
start_wait cv = record cv { waiting = cv.waiting + 1 }

abbrev pub end_wait : CondVar → CondVar
end_wait cv = record { waiting = cv.waiting - 1; signals = cv.signals - 1 }

abbrev pub notify_one : CondVar → CondVar
notify_one cv = record cv { signals = min (cv.signals + 1) cv.waiting }

abbrev pub notify_all : CondVar → CondVar
notify_all cv = record cv { signals = cv.waiting }

-- Whether a waiting thread goes on.
abbrev pub wakes : Env → CondVar → Bool
wakes e cv = ltb 0 cv.signals || e.spurious

pub record GlobalLockQueue : Type 0 where
  pub not_empty_cv : CondVar
  pub not_full_cv : CondVar
  pub queue : List Event
  pub capacity : ℕ
  pub closed : Bool
  pub wait_strategy : WaitStrategy
  pub stats : QueueStats

abbrev no_waiters : CondVar
no_waiters = record { waiting = 0; signals = 0 }

-- The constructor. Capacity 0 means unbounded.
unfoldable pub make : ℕ → WaitStrategy → GlobalLockQueue
make capacity requested = record {
  not_empty_cv = no_waiters;
  not_full_cv = no_waiters;
  queue = [];
  capacity = capacity;
  closed = false;
  wait_strategy = resolve_wait_strategy global_lock requested;
  stats = zero_stats;
}

-- Where a call stands: before it takes the lock, or waiting; `spins` is the waiter's count.
pub data Pc : Type 0 where
  enter_push : (ev : Event) (policy : BackpressurePolicy) → Pc
  lock_push : (ev : Event) (policy : BackpressurePolicy) → Pc
  wait_not_full : (ev : Event) → Pc
  relock_push : (ev : Event) (spins : ℕ) → Pc
  lock_pop : Pc
  wait_not_empty : Pc
  relock_pop : (spins : ℕ) → Pc
  lock_close : Pc
  done : (r : Reply) → Pc

abbrev pub shut : Env → GlobalLockQueue → Bool
shut e q = q.closed || e.stop

abbrev pub uses_cv : GlobalLockQueue → Bool
uses_cv q = elim q.wait_strategy [ condition_variable ↦ true | _ ↦ false ]

abbrev pub count : GlobalLockQueue → QueueStats → GlobalLockQueue
count q s = record q { stats = s }

-- The end of `push`, from `queue_.push_back`.
abbrev pub append : GlobalLockQueue → Event → GlobalLockQueue × Pc
append q ev =
    let longer = q.queue ++ ev ∷ [] in
    (
      record q {
        queue = longer;
        not_empty_cv = notify_one q.not_empty_cv;
        stats = record q.stats {
          max_observed_depth = update_max_depth q.stats.max_observed_depth (length longer);
          push_success = bump q.stats.push_success;
        };
      },
      done (pushed true),
    )

abbrev pub fail : GlobalLockQueue → GlobalLockQueue × Pc
fail q = (count q (record q.stats { push_fail = bump q.stats.push_fail }), done (pushed false))

-- The end of `pop`, from the test of `queue_.empty()`, on the events that are queued.
abbrev pub take_front : GlobalLockQueue → List Event → GlobalLockQueue × Pc
take_front q [] = (q, done (popped none))
take_front q (ev ∷ evs) = (
  record q {
    queue = evs;
    not_full_cv = notify_one q.not_full_cv;
    stats = record q.stats { pop_success = bump q.stats.pop_success };
  },
  done (popped (some ev)),
)

abbrev pub full : GlobalLockQueue → Bool
full q = leb q.capacity (length q.queue)

-- One turn of the spinning loop of `push`, under the lock.
abbrev pub spin_push : Env → GlobalLockQueue → Event → ℕ → GlobalLockQueue × Pc
spin_push e q ev spins =
    if full q
    then (let q' = count q (record q.stats { full_hits = bump q.stats.full_hits }) in
        if shut e q
        then fail q'
        else (count q' (pause spins q'.stats).1, relock_push ev (pause spins q'.stats).0))
    else append q ev

-- One evaluation of the predicate of `not_full_cv_`, and what follows it if it holds.
abbrev pub wake_push : Env → GlobalLockQueue → Event → GlobalLockQueue × Pc
wake_push e q ev =
    if shut e q
    then fail q
    else (if full q
        then (record q { not_full_cv = start_wait q.not_full_cv }, wait_not_full ev)
        else append q ev)

abbrev pub is_empty : List Event → Bool
is_empty [] = true
is_empty (ev ∷ evs) = false

-- One turn of the spinning loop of `pop`, under the lock.
abbrev pub spin_pop : Env → GlobalLockQueue → ℕ → GlobalLockQueue × Pc
spin_pop e q spins =
    if is_empty q.queue
    then (let q' = count q (record q.stats { empty_hits = bump q.stats.empty_hits }) in
        if shut e q
        then (q', done (popped none))
        else (count q' (pause spins q'.stats).1, relock_pop (pause spins q'.stats).0))
    else take_front q q.queue

-- One evaluation of the predicate of `not_empty_cv_`, and what follows it if it holds.
abbrev pub wake_pop : Env → GlobalLockQueue → GlobalLockQueue × Pc
wake_pop e q =
    if shut e q || not (is_empty q.queue)
    then take_front q q.queue
    else (record q { not_empty_cv = start_wait q.not_empty_cv }, wait_not_empty)

unfoldable pub micro : Env → GlobalLockQueue → Pc → GlobalLockQueue × Pc
micro e q (enter_push ev policy) =
    (count q (record q.stats { push_attempts = bump q.stats.push_attempts }), lock_push ev policy)
micro e q (lock_push ev policy) =
    if q.closed
    then fail q
    else (if q.capacity == 0 then append q ev else elim policy [
      | block ↦
          if uses_cv q
          then wake_push e (count q (record q.stats { park_count = bump q.stats.park_count })) ev
          else spin_push e q ev 0
      | drop ↦
          if full q
          then fail (count q (record q.stats { full_hits = bump q.stats.full_hits }))
          else append q ev
    ])
micro e q (wait_not_full ev) =
    if wakes e q.not_full_cv
    then wake_push e (record q { not_full_cv = end_wait q.not_full_cv }) ev
    else (q, wait_not_full ev)
micro e q (relock_push ev spins) = spin_push e q ev spins
micro e q lock_pop =
    if uses_cv q
    then wake_pop e (count q (record q.stats { park_count = bump q.stats.park_count }))
    else spin_pop e q 0
micro e q wait_not_empty =
    if wakes e q.not_empty_cv
    then wake_pop e (record q { not_empty_cv = end_wait q.not_empty_cv })
    else (q, wait_not_empty)
micro e q (relock_pop spins) = spin_pop e q spins
micro e q lock_close = (
  record q {
    closed = true;
    not_empty_cv = notify_all q.not_empty_cv;
    not_full_cv = notify_all q.not_full_cv;
  },
  done closed_now,
)
micro e q (done r) = (q, done r)

abbrev pub start : Op → Pc
start (Op.push ev policy) = enter_push ev policy
start Op.pop = lock_pop
start Op.close = lock_close

abbrev pub finished : Pc → Option Reply
finished (done r) = some r
finished p = none

-- An event enters the queue in the section that returns true from its push, and leaves it in the
-- section that returns it from a pop.
abbrev pub label : Pc → Pc → Label
label (lock_push ev policy) (done (pushed true)) = enters ev
label (wait_not_full ev) (done (pushed true)) = enters ev
label (relock_push ev spins) (done (pushed true)) = enters ev
label lock_pop (done (popped (some ev))) = leaves ev
label wait_not_empty (done (popped (some ev))) = leaves ev
label (relock_pop spins) (done (popped (some ev))) = leaves ev
label p p' = quiet

abbrev pub code : QueueCode GlobalLockQueue Pc
code = record { start = start; finished = finished; micro = micro; label = label }
