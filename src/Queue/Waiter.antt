-- ===== src/Queue/Waiter.antt =====
-- queues.cpp, `SpinYieldWaiter`: how a run of pauses is counted.
use laboratory.Base.{ℕ, zero, suc, ◌+◌, ◌-◌, ◌%◌, ◌≤◌, ◌<◌, ◌≡◌, arith, min}
use laboratory.Queue.{QueueStats, pause, two_64, spin_before_yield}

-- `n` pauses in a row, the count and the counters passed on.
pub pauses : ℕ → ℕ → QueueStats → ℕ × QueueStats
pauses zero spins stats = (spins, stats)
pauses (suc n) spins stats = pauses n (pause spins stats).0 (pause spins stats).1

-- A waiter that has spun `spins` times spins in its next pauses until it has spun 64 times and
-- yields in all the others: of `n` pauses `min n (64 - spins)` go to the spin counter and the
-- rest to the yield counter, both modulo 2^64.
pub pauses_lem :
    (n spins : ℕ) (stats : QueueStats)
    → spins ≤ spin_before_yield
    → stats.spin_count < two_64
    → stats.yield_count < two_64
    → let spun = min n (spin_before_yield - spins) in
      ((pauses n spins stats).0 ≡ spins + spun)
      × ((pauses n spins stats).1.spin_count ≡ (stats.spin_count + spun) % two_64)
      × ((pauses n spins stats).1.yield_count ≡ (stats.yield_count + (n - spun)) % two_64)
unfolding pauses
pauses_lem zero spins stats h s y = omega arith
pauses_lem (suc n) spins stats h s y =
    ground (arith, pauses_lem n (pause spins stats).0 (pause spins stats).1)
