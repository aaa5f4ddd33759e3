-- ===== src/Pipeline/Channel.antt =====
-- custom-queue-latency/src/queues.hpp, `IEventQueue`, as the threads of pipeline.cpp and harness.cpp
-- see one queue: events in order, a capacity and a flag. What a call does to the events it does in
-- one step, as the `IsFifo` contract of Queue/Concurrent has it for each class.
use laboratory.Base.{
  ℕ, Bool, true, false, ◌||◌, ◌&&◌, not, ◌≡◌, refl, arith, List, [], ◌∷◌, ◌++◌, length, Option,
  some, none, ltb, ◌==◌, if◌then◌else◌,
}
use laboratory.Queue.{
  Event, BackpressurePolicy, block, drop, QueueKind, global_lock, split_lock_linked, mpmc_ring,
  spsc_ring,
}

pub record Channel : Type 0 where
  pub waiting : List Event
  pub closed : Bool
  pub capacity : ℕ
  pub kind : QueueKind

abbrev pub empty_channel : QueueKind → ℕ → Channel
empty_channel kind capacity = record {
  waiting = [];
  closed = false;
  capacity = capacity;
  kind = kind;
}

-- `pop` of the mutex queue tests for emptiness and for the flags in one section. The other three
-- find the queue empty first and load the flags afterwards.
abbrev pub pops_at_once : QueueKind → Bool
pops_at_once global_lock = true
pops_at_once split_lock_linked = false
pops_at_once mpmc_ring = false
pops_at_once spsc_ring = false

-- `try_acquire` of the semaphore that counts the events may fail though there is one: spuriously,
-- or because the push has not released it yet.
abbrev pub may_miss : QueueKind → Bool
may_miss global_lock = false
may_miss split_lock_linked = true
may_miss mpmc_ring = true
may_miss spsc_ring = false

-- The queues that decide in one step miss no event.
pub pops_at_once-may_miss : (kind : QueueKind) → pops_at_once kind ≡ true → may_miss kind ≡ false
pops_at_once-may_miss global_lock h = refl
pops_at_once-may_miss split_lock_linked h = absurd (ground arith)
pops_at_once-may_miss mpmc_ring h = absurd (ground arith)
pops_at_once-may_miss spsc_ring h = absurd (ground arith)

abbrev pub is_drop : BackpressurePolicy → Bool
is_drop drop = true
is_drop block = false

-- The step of `push` that settles its result. It accepts where there is room;
-- without a capacity there always is. It refuses where
-- the queue is closed or the stop flag set, and under `Drop` also where the queue is full or a
-- semaphore fails spuriously. `none`: the call goes on waiting, that is not its result now.
unfoldable pub push_call :
    BackpressurePolicy → Bool → Channel → Event → Bool → Option (Channel × Bool)
push_call policy stop c ev true =
    if c.capacity == 0 || ltb (length c.waiting) c.capacity
    then some (record c { waiting = c.waiting ++ ev ∷ [] }, true)
    else none
push_call policy stop c ev false =
    if c.closed || stop || is_drop policy then some (c, false) else none

-- What a step of `pop` comes to: it returns true with an event, or false; it has found the queue
-- empty and loads the flags next; it starts again.
pub data Popped : Type 0 where
  got : Event → Channel → Popped
  ended found_empty again : Popped

-- The first step of a turn of `pop`, from whether the queue is empty and, where an event may be
-- missed, whether it is not.
unfoldable pub pop_look : Bool → Bool → Channel → List Event → Popped
pop_look stop ready c (ev ∷ rest) =
    if may_miss c.kind && not ready then found_empty else got ev (record c { waiting = rest })
pop_look stop ready c [] =
    if pops_at_once c.kind then (if c.closed || stop then ended else again) else found_empty

-- The loads of the two flags after the queue was found empty.
unfoldable pub pop_flags : Bool → Channel → Popped
pop_flags stop c = if c.closed || stop then ended else again

abbrev pub close : Channel → Channel
close c = record c { closed = true }
