-- ===== src/Queue/GlobalLock/Fifo.antt =====
-- Under any interleaving `GlobalLockQueue` is a FIFO queue, bounded unless its capacity is 0, and
-- its counters balance.
use laboratory.Base.{
  ℕ, ◌+◌, ◌%◌, ◌≤◌, ◌≡◌, ◌⊎◌, List, [], ◌++◌, append-nil, total-replicate, replicate, length, All,
  arith,
}
use laboratory.Queue.{Event, WaitStrategy, block, drop, two_64}
use laboratory.Queue.Concurrent.{
  Env, entering, leaving, System, Reach, IsFifo, Reach-Inv, Reach-fifo, closed_now,
}
use laboratory.Queue.GlobalLock.{GlobalLockQueue, make, Pc, lock_push, done, micro, label, code}
use laboratory.Queue.GlobalLock.Invariant.{
  Inv, in_push, waits_not_full, waits_not_empty, micro-Inv, call-Inv, Returned, total-Returned,
}

-- A section leaves the queued events alone, or appends the event that it accepts, or removes the
-- oldest one, which it returns.
pub step-view :
    (e : Env) (q : GlobalLockQueue) (p : Pc)
    → q.queue ++ entering (label p (micro e q p).1)
      ≡ leaving (label p (micro e q p).1) ++ (micro e q p).0.queue
unfolding micro
step-view e q (lock_push ev block) = ground (arith, append-nil q.queue)
step-view e q (lock_push ev drop) = ground (arith, append-nil q.queue)
step-view e q p = ground (arith, append-nil q.queue)

abbrev pub fifo_laws : (c : ℕ) → IsFifo code (Inv c) (λ q. q.queue)
fifo_laws c = record {
  run_keeps = micro-Inv;
  call_keeps = call-Inv;
  moves = λ e q ps i p v at. step-view e q p;
}

-- `n` threads over a new queue; none is in a call.
abbrev pub initial : ℕ → WaitStrategy → ℕ → System GlobalLockQueue Pc
initial capacity w n = record { shared = make capacity w; threads = replicate n (done closed_now) }

pub make-Inv :
    (capacity n : ℕ) (w : WaitStrategy)
    → Inv capacity (make capacity w) (replicate n (done closed_now))
      × ((make capacity w).queue ≡ [])
unfolding make
make-Inv capacity n w = ground (
  arith,
  total-replicate in_push n (done closed_now),
  total-replicate waits_not_full n (done closed_now),
  total-replicate waits_not_empty n (done closed_now),
)

module _ (capacity n : ℕ) (w : WaitStrategy) {s : System GlobalLockQueue Pc} {ins outs : List Event}
    (r : Reach code (initial capacity w n) s ins outs) where
  pub reached-Inv : Inv capacity s.shared s.threads
  reached-Inv =
      let start = make-Inv capacity n w in Reach-Inv code (fifo_laws capacity) start.0 start.1 r

  -- However `n` threads interleave over a new queue, the events that entered are, in the same
  -- order, those that left followed by those still queued; and unless the capacity is 0, which
  -- means unbounded, no more are queued, nor have ever been observed, than the capacity.
  pub global_lock_in_order :
      (ins ≡ outs ++ s.shared.queue)
      × ((capacity ≡ 0)
          ⊎ ((length s.shared.queue ≤ capacity) × (s.shared.stats.max_observed_depth ≤ capacity)))
  global_lock_in_order = (
    let start = make-Inv capacity n w in Reach-fifo code (fifo_laws capacity) start.0 start.1 r,
    let v = reached-Inv in ground arith,
  )

  -- Whenever each of the `n` threads over a new queue has returned from its calls, nobody is
  -- counted as waiting, each push attempt has been counted as one success or one failure, and each
  -- successful push as one successful pop or one queued event (the counters run modulo 2^64).
  pub global_lock_balance :
      All Returned s.threads
      → let q = s.shared in
        (q.not_full_cv.waiting + q.not_empty_cv.waiting ≡ 0)
        × (q.stats.push_attempts ≡ (q.stats.push_success + q.stats.push_fail) % two_64)
        × (q.stats.push_success % two_64 ≡ (q.stats.pop_success + length q.queue) % two_64)
  global_lock_balance idle = let v = reached-Inv in omega (arith, total-Returned s.threads idle)
