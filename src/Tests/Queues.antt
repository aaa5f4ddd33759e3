-- ===== src/Tests/Queues.antt =====
-- Runs of the queue with one producer, of the one with a global lock and of the linked one.
use laboratory.Base.{
  ◌^◌, ◌-◌, ok, ℕ, zero, suc, ◌+◌, ◌%◌, ◌≤◌, ◌<◌, ◌≡◌, ◌≢◌, ◌⊎◌, refl, List, [], ◌∷◌, ◌++◌, length,
  true, false, arith,
}
use laboratory.Queue.{
  Event, block, drop, queue_default, spin_yield, default_event, zero_stats, two_64,
  update_max_depth,
}
use laboratory.Queue.Concurrent.{Op, Env, Reply, Label}
use laboratory.Queue.Schedule.{Run, schedule, calls, steps}
use laboratory.Queue.Spsc
use laboratory.Queue.Spsc.{
  SpscRingQueue, System, Step, Reach, here, later, produce, consume, call_push, call_pop,
}
use laboratory.Queue.Spsc.Fifo.{
  view, initial, spsc_in_order, spsc_observed_maximum, spsc_cells_apart,
}
use laboratory.Queue.GlobalLock
use laboratory.Queue.GlobalLock.Fifo
use laboratory.Queue.GlobalLock.Fifo.{global_lock_in_order, global_lock_balance}

abbrev event : ℕ → Event
event n = record { id = n; route_key = n; target_worker = 0; created_at = n }

abbrev going : Env
going = record { stop = false; spurious = false }

abbrev stopped : Env
stopped = record { stop = true; spurious = false }

-- The single-producer ring that the constructor makes for capacity 1.
abbrev pair : SpscRingQueue
pair = record {
  ring_capacity = 2;
  buffer = default_event ∷ default_event ∷ [];
  head = 0;
  tail = 0;
  closed = false;
  wait_strategy = spin_yield;
  stats = zero_stats;
}

-- A state of a ring that is reached.
record Reached (q : SpscRingQueue) : Type 0 where
  last : System
  ins : List Event
  outs : List Event
  reach : Reach (initial q) last ins outs

and_then :
    {q : SpscRingQueue} {l : Label} {t : System} → (r : Reached q) → Step r.last l t → Reached q
and_then r st = record { last = _; ins = _; outs = _; reach = later r.reach st }

produces : {q : SpscRingQueue} → ℕ → Reached q → Reached q
unfolding and_then
produces zero r = r
produces (suc n) r = produces n (and_then r (produce going))

consumes : {q : SpscRingQueue} → ℕ → Reached q → Reached q
unfolding and_then
consumes zero r = r
consumes (suc n) r = consumes n (and_then r (consume going))

abbrev fresh : (q : SpscRingQueue) → Reached q
fresh q = record { last = initial q; ins = []; outs = []; reach = here }

-- One event is published, and its depth is not reported yet.
published : Reached pair
unfolding produces and_then
published = produces 5 (and_then (fresh pair) (call_push (event 7) block refl))

passed_on : Reached pair
unfolding published consumes Spsc.micro_push
passed_on = consumes 3 (and_then published (call_pop refl))

passed_on_events : (passed_on.ins ≡ event 7 ∷ []) × (passed_on.outs ≡ event 7 ∷ [])
unfolding passed_on Spsc.micro_pop
passed_on_events = (refl, refl)

spsc_in_order_example :
    (published.ins ≡ published.outs ++ view published.last.queue)
    × (length (view published.last.queue) ≤ 1)
unfolding Spsc.make
spsc_in_order_example = spsc_in_order 9 1 queue_default (omega arith) refl published.reach

spsc_observed_maximum_example :
    (length (view published.last.queue) ≤ update_max_depth 0 1)
    × (published.last.queue.stats.max_observed_depth ≤ 1)
unfolding Spsc.make Spsc.micro_push published produces and_then
spsc_observed_maximum_example =
    spsc_observed_maximum 9 1 queue_default (omega arith) refl published.reach

-- The largest capacity wraps to a ring without cells.
wrapped_ring :
    Spsc.make 9 (2 ^ 64 - 1) queue_default ≡ ok (record pair { ring_capacity = 0; buffer = [] })
unfolding Spsc.make
wrapped_ring = refl

-- The ring for capacity 2.
abbrev triple : SpscRingQueue
triple = record pair {
  ring_capacity = 3;
  buffer = default_event ∷ default_event ∷ default_event ∷ [];
}

-- One event is published, the producer is about to write the next cell, and the consumer about to
-- read the first.
ready : Reached triple
unfolding produces consumes and_then Spsc.micro_push Spsc.micro_pop
ready =
    let first = produces 6 (and_then (fresh triple) (call_push (event 7) block refl)) in
    let second = produces 3 (and_then first (call_push (event 8) drop refl)) in
    consumes 1 (and_then second (call_pop refl))

spsc_cells_apart_example :
    (1 < length ready.last.queue.buffer)
    × (0 < length ready.last.queue.buffer)
    × (◌≢◌ {A = ℕ} 1 0)
    × (0 < length (view ready.last.queue))
unfolding Spsc.make ready
spsc_cells_apart_example =
    spsc_cells_apart 9 2 queue_default (omega arith) refl ready.reach (event 8) 1 2 0 0 refl refl

-- Three threads over a global-lock queue of capacity 1: thread 1 waits for room until thread 2 has
-- taken the event of thread 0.
abbrev waited : Run GlobalLock.code (Fifo.initial 1 queue_default 3)
waited = schedule GlobalLock.code (Fifo.initial 1 queue_default 3) (
    calls 0 (Op.push (event 7) block)
    ∷ steps 0 going 2
    ∷ calls 1 (Op.push (event 8) block)
    ∷ steps 1 going 2
    ∷ calls 2 Op.pop
    ∷ steps 2 going 1
    ∷ steps 1 going 1
    ∷ [])

waited_events : (waited.ins ≡ event 7 ∷ event 8 ∷ []) × (waited.outs ≡ event 7 ∷ [])
unfolding schedule GlobalLock.micro GlobalLock.make
waited_events = (refl, refl)

global_lock_in_order_example :
    (waited.ins ≡ waited.outs ++ waited.last.shared.queue)
    × (◌≡◌ {A = ℕ} 1 0
        ⊎ ((length waited.last.shared.queue ≤ 1)
            × (waited.last.shared.stats.max_observed_depth ≤ 1)))
global_lock_in_order_example = global_lock_in_order 1 3 queue_default waited.reach

global_lock_balance_example :
    let q = waited.last.shared in
    (q.not_full_cv.waiting + q.not_empty_cv.waiting ≡ 0)
    × (q.stats.push_attempts ≡ (q.stats.push_success + q.stats.push_fail) % two_64)
    × (q.stats.push_success % two_64 ≡ (q.stats.pop_success + length q.queue) % two_64)
unfolding schedule GlobalLock.micro GlobalLock.make
global_lock_balance_example =
    global_lock_balance 1 3 queue_default waited.reach ((_, refl), ((_, refl), ((_, refl), tt)))

-- With capacity 1 fewer waiters are woken than wait: threads 1 and 2 wait for room, the pop wakes
-- one of them, which sees the stop flag and returns without a notification, and the other stays.
abbrev left_behind : Run GlobalLock.code (Fifo.initial 1 queue_default 4)
left_behind = schedule GlobalLock.code (Fifo.initial 1 queue_default 4) (
    calls 0 (Op.push (event 7) block)
    ∷ steps 0 going 2
    ∷ calls 1 (Op.push (event 8) block)
    ∷ steps 1 going 2
    ∷ calls 2 (Op.push (event 9) block)
    ∷ steps 2 going 2
    ∷ calls 3 Op.pop
    ∷ steps 3 going 1
    ∷ steps 1 stopped 1
    ∷ calls 3 Op.pop
    ∷ steps 3 going 9
    ∷ steps 2 stopped 9
    ∷ [])

left_behind_waits :
    (left_behind.last.threads
      ≡ GlobalLock.done (Reply.pushed true)
        ∷ GlobalLock.done (Reply.pushed false)
        ∷ GlobalLock.wait_not_full (event 9)
        ∷ GlobalLock.wait_not_empty
        ∷ [])
    × (left_behind.last.shared.queue ≡ [])
    × (left_behind.last.shared.not_full_cv.signals ≡ 0)
unfolding schedule GlobalLock.micro GlobalLock.make
left_behind_waits = (refl, refl, refl)
