-- ===== src/Tests/Rings.antt =====
-- Runs of the two ring queues.
use laboratory.Base.{
  ℕ, ◌+◌, ◌%◌, ◌≤◌, ◌<◌, ◌≡◌, ◌≢◌, refl, [], ◌∷◌, ◌++◌, length, true, false, inl, inr, arith, total,
  some,
}
use laboratory.Queue.{
  Event, block, drop, queue_default, spin_yield, default_event, zero_stats, two_64,
}
use laboratory.Queue.Concurrent.{Op, Env, pushed, popped, solo}
use laboratory.Queue.Schedule.{Run, schedule, calls, steps}
use laboratory.Queue.Mpmc
use laboratory.Queue.Mpmc.{MpmcRingQueue}
use laboratory.Queue.Mpmc.Fifo.{view, initial, mpmc_in_order, mpmc_cells_apart, mpmc_nothing_leaks}
use laboratory.Queue.Mpmc.Accounting.{mpmc_observed_maximum, mpmc_counters_balance}
use laboratory.Queue.Mpmc.Invariant
use laboratory.Queue.Mpmc.Solo.{After, mpmc_push_alone, mpmc_pop_alone}

abbrev event : ℕ → Event
event n = record { id = n; route_key = n; target_worker = 0; created_at = n }

-- A running caller, and one that has been told to stop; no spurious failure.
abbrev going : Env
going = record { stop = false; spurious = false }

abbrev stopped : Env
stopped = record { stop = true; spurious = false }

-- The queue that the constructor makes for capacity 2.
abbrev ring : MpmcRingQueue
ring = record {
  ring_capacity = 2;
  wait_strategy = spin_yield;
  buffer = default_event ∷ default_event ∷ [];
  head = 0;
  tail = 0;
  depth = 0;
  closed = false;
  items = 0;
  slots_available = 2;
  stats = zero_stats;
}

-- Thread 0 pushes two events, thread 1 pops one, and both return.
abbrev one_passed : Run Mpmc.code (initial ring 2)
one_passed = schedule Mpmc.code (initial ring 2) (
    calls 0 (Op.push (event 7) block)
    ∷ steps 0 going 5
    ∷ calls 0 (Op.push (event 8) drop)
    ∷ calls 1 Op.pop
    ∷ steps 1 going 1
    ∷ steps 0 going 5
    ∷ steps 1 going 3
    ∷ [])

-- Thread 0 is about to store its second event while thread 1 is about to take the first.
abbrev both_inside : Run Mpmc.code (initial ring 2)
both_inside = schedule Mpmc.code (initial ring 2) (
    calls 0 (Op.push (event 7) block)
    ∷ steps 0 going 5
    ∷ calls 1 Op.pop
    ∷ steps 1 going 1
    ∷ calls 0 (Op.push (event 8) block)
    ∷ steps 0 going 3
    ∷ [])

one_passed_events : (one_passed.ins ≡ event 7 ∷ event 8 ∷ []) × (one_passed.outs ≡ event 7 ∷ [])
unfolding schedule Mpmc.micro
one_passed_events = (refl, refl)

mpmc_in_order_example :
    (one_passed.ins ≡ one_passed.outs ++ view one_passed.last.shared)
    × (length (view one_passed.last.shared) ≤ 2)
unfolding Mpmc.make
mpmc_in_order_example = mpmc_in_order 9 2 2 queue_default (omega arith) refl one_passed.reach

mpmc_cells_apart_example :
    let q = both_inside.last.shared in
    (q.tail < length q.buffer)
    × (q.head < length q.buffer)
    × (q.tail ≢ q.head)
    × (0 < q.depth)
    × (q.depth < 2)
unfolding Mpmc.make schedule Mpmc.micro
mpmc_cells_apart_example =
    mpmc_cells_apart 9 2 2 queue_default (omega arith) refl both_inside.reach 0 1 (event 8) refl
      refl

mpmc_nothing_leaks_example :
    (one_passed.last.shared.items ≡ length (view one_passed.last.shared))
    × (one_passed.last.shared.slots_available + length (view one_passed.last.shared) ≡ 2)
unfolding Mpmc.make schedule Mpmc.micro
mpmc_nothing_leaks_example =
    mpmc_nothing_leaks 9 2 2 queue_default (omega arith) refl one_passed.reach
      ((_, refl), ((_, refl), tt))

mpmc_observed_maximum_example :
    (length (view one_passed.last.shared) ≤ one_passed.last.shared.stats.max_observed_depth)
    × (one_passed.last.shared.stats.max_observed_depth ≤ 2)
unfolding Mpmc.make
mpmc_observed_maximum_example =
    mpmc_observed_maximum 9 2 2 queue_default (omega arith) refl one_passed.reach

mpmc_counters_balance_example :
    let st = one_passed.last.shared.stats in
    (st.push_attempts ≡ (st.push_success + st.push_fail) % two_64)
    × (st.push_success % two_64 ≡ (st.pop_success + length (view one_passed.last.shared)) % two_64)
unfolding Mpmc.make schedule Mpmc.micro
mpmc_counters_balance_example =
    mpmc_counters_balance 9 2 2 queue_default (omega arith) refl one_passed.reach
      ((_, refl), ((_, refl), tt))

-- The ring with one event, and with no call pending.
abbrev holding : MpmcRingQueue
holding = record ring {
  buffer = event 7 ∷ default_event ∷ [];
  tail = 1;
  depth = 1;
  items = 1;
  slots_available = 1;
}

holding-Inv : Invariant.Inv 2 holding []
unfolding total
holding-Inv = omega arith

mpmc_push_alone_example :
    After 2
      (solo Mpmc.code 5 going holding (Mpmc.start (Op.push (event 8) block)))
      (pushed true)
      (event 7 ∷ event 8 ∷ [])
mpmc_push_alone_example =
    mpmc_push_alone going holding (event 8) block holding-Inv refl (inr (inr (omega arith)))

-- A stopped caller still gets the event that is queued.
mpmc_pop_alone_example :
    After 2 (solo Mpmc.code 3 stopped holding (Mpmc.start Op.pop)) (popped (some (event 7))) []
mpmc_pop_alone_example = mpmc_pop_alone stopped holding holding-Inv refl (inl refl)
