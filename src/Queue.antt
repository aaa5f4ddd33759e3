-- ===== src/Queue.antt =====
-- custom-queue-latency/src/queues.hpp: the types that the four queues share, their statistics
-- (also in queues.cpp: `updateMaxDepth`, `snapshotQueueStats`) and the spinning waiter.
pub mod Names
pub mod Waiter
pub mod Statistics
pub mod Schedule
pub mod Factory
pub mod SplitLock
pub mod GlobalLock
pub mod Spsc
pub mod Mpmc
pub mod Ring
pub mod Concurrent
use laboratory.Base.{
  ℕ, zero, suc, ◌+◌, ◌-◌, ◌%◌, ◌^◌, Bool, true, false, ltb, if◌then◌else◌, List, [], ◌∷◌, Option,
  some, none,
}

pub data BackpressurePolicy : Type 0 where
  block drop : BackpressurePolicy

pub data WaitStrategy : Type 0 where
  queue_default condition_variable spin_yield : WaitStrategy

pub data QueueKind : Type 0 where
  global_lock split_lock_linked mpmc_ring spsc_ring : QueueKind

-- `created_at` counts clock ticks from the clock's epoch.
pub record Event : Type 0 where
  pub id : ℕ
  pub route_key : ℕ
  pub target_worker : ℕ
  pub created_at : ℕ

-- `Event{}`
abbrev pub default_event : Event
default_event = record { id = 0; route_key = 0; target_worker = 0; created_at = 0 }

abbrev pub two_64 : ℕ
two_64 = 2 ^ 64

-- `fetch_add(1)` on a `std::atomic<std::uint64_t>`.
abbrev pub bump : ℕ → ℕ
bump n = (n + 1) % two_64

-- The counters, each an atomic of its own.
pub record QueueStats : Type 0 where
  pub push_attempts : ℕ
  pub push_success : ℕ
  pub push_fail : ℕ
  pub pop_success : ℕ
  pub spin_count : ℕ
  pub yield_count : ℕ
  pub park_count : ℕ
  pub full_hits : ℕ
  pub empty_hits : ℕ
  pub max_observed_depth : ℕ

abbrev pub zero_stats : QueueStats
zero_stats = record {
  push_attempts = 0;
  push_success = 0;
  push_fail = 0;
  pop_success = 0;
  spin_count = 0;
  yield_count = 0;
  park_count = 0;
  full_hits = 0;
  empty_hits = 0;
  max_observed_depth = 0;
}

-- One turn of the loop of `updateMaxDepth` for each entry of the list: whether the weak
-- compare-exchange fails spuriously there. `none`: the list was too short for the loop to end.
-- `memory` is the atomic and `current` the local copy of it.
unfoldable pub cas_max : List Bool → ℕ → ℕ → ℕ → Option ℕ
cas_max [] memory current depth = if ltb current depth then none else some memory
cas_max (spurious ∷ rest) memory current depth =
    let retry = cas_max rest memory memory depth in
    if ltb current depth then (if spurious then retry else some depth) else some memory

-- `updateMaxDepth` where no other thread writes the counter meanwhile, which the locks of the
-- callers (or their being the only producer) ensure; `Statistics` proves it of `cas_max`.
abbrev pub update_max_depth : ℕ → ℕ → ℕ
update_max_depth max_depth depth = if ltb max_depth depth then depth else max_depth

-- A relaxed load of each counter.
unfoldable pub snapshot_queue_stats : QueueStats → QueueStats
snapshot_queue_stats stats = record {
  push_attempts = stats.push_attempts;
  push_success = stats.push_success;
  push_fail = stats.push_fail;
  pop_success = stats.pop_success;
  spin_count = stats.spin_count;
  yield_count = stats.yield_count;
  park_count = stats.park_count;
  full_hits = stats.full_hits;
  empty_hits = stats.empty_hits;
  max_observed_depth = stats.max_observed_depth;
}

-- `SpinYieldWaiter::kSpinBeforeYield`
abbrev pub spin_before_yield : ℕ
spin_before_yield = 64

-- `SpinYieldWaiter::pause`: the waiter's own count and the queue's counters after it.
abbrev pub pause : ℕ → QueueStats → ℕ × QueueStats
pause spins stats =
    if ltb spins spin_before_yield
    then (spins + 1, record stats { spin_count = bump stats.spin_count })
    else (spins, record stats { yield_count = bump stats.yield_count })

-- `resolveWaitStrategy`
abbrev pub resolve_wait_strategy : QueueKind → WaitStrategy → WaitStrategy
resolve_wait_strategy global_lock queue_default = condition_variable
resolve_wait_strategy split_lock_linked queue_default = spin_yield
resolve_wait_strategy mpmc_ring queue_default = spin_yield
resolve_wait_strategy spsc_ring queue_default = spin_yield
resolve_wait_strategy kind condition_variable = condition_variable
resolve_wait_strategy kind spin_yield = spin_yield
