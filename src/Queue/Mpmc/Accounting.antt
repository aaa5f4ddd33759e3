-- ===== src/Queue/Mpmc/Accounting.antt =====
-- The counters of `MpmcRingQueue`, and the largest depth that it has observed.
use laboratory.Base.{
  ℕ, ◌+◌, ◌%◌, ◌≤◌, ◌<◌, ◌≡◌, ◌^◌, List, set, get_elem?, ap, some, total, total-set, total-All,
  total-replicate, replicate, length, All, arith, ok,
}
use laboratory.Queue.{Event, two_64, WaitStrategy, block, drop}
use laboratory.Queue.Concurrent.{Env, Op, Reply, System, Reach, Reach_keeps, closed_now}
use laboratory.Queue.Ring.{length-window}
use laboratory.Queue.Mpmc.{
  MpmcRingQueue, make, Pc, enter_push, try_slot, saw_full, check_open, give_back, store, post_item,
  try_item, closing, done, micro, start, finished, code,
}
use laboratory.Queue.Mpmc.Invariant.{
  Inv, owes_item, owes_slot, Returned, total-Returned, Change, change, micro-Inv, call-Inv,
}
use laboratory.Queue.Mpmc.Fifo.{view, initial, make-Inv}

-- A push that has counted its attempt and not its outcome.
abbrev pub in_push : Pc → ℕ
in_push (try_slot ev policy spins) = 1
in_push (saw_full ev policy spins) = 1
in_push (check_open ev) = 1
in_push give_back = 1
in_push (store ev) = 1
in_push post_item = 1
in_push p = 0

pub record Counted (c : ℕ) (q : MpmcRingQueue) (ps : List Pc) : Type 0 where
  pub attempts :
      q.stats.push_attempts ≡ (q.stats.push_success + q.stats.push_fail + total in_push ps) % two_64
  pub passed :
      (q.stats.push_success + total owes_item ps) % two_64
      ≡ (q.stats.pop_success + total owes_slot ps + q.depth) % two_64
  pub deepest : q.depth ≤ q.stats.max_observed_depth
  pub deepest_le : q.stats.max_observed_depth ≤ c

step-Counted :
    {c : ℕ} (e : Env) (q : MpmcRingQueue) (ps : List Pc) (i : ℕ) (p : Pc)
    → Inv c q ps
    → Counted c q ps
    → Change ps i p (micro e q p).1
    → total in_push (set ps i (micro e q p).1) + in_push p
      ≡ total in_push ps + in_push (micro e q p).1
    → Counted c (micro e q p).0 (set ps i (micro e q p).1)
unfolding micro
step-Counted e q ps i (saw_full ev block spins) v k ch calls = ground arith
step-Counted e q ps i (saw_full ev drop spins) v k ch calls = ground arith
step-Counted e q ps i p v k ch calls = ground arith

call-Counted :
    {c : ℕ} (q : MpmcRingQueue) (ps : List Pc) (i : ℕ) (p : Pc) (r : Reply) (op : Op)
    → Counted c q ps
    → get_elem? ps i ≡ some p
    → finished p ≡ some r
    → Counted c q (set ps i (start op))
call-Counted q ps i (done r') r (Op.push ev policy) k at back =
    let calls = total-set in_push ps i (done r') (enter_push ev policy) at in
    let ch = change ps i (done r') (enter_push ev policy) at in ground arith
call-Counted q ps i (done r') r Op.pop k at back =
    let calls = total-set in_push ps i (done r') (try_item 0) at in
    let ch = change ps i (done r') (try_item 0) at in ground arith
call-Counted q ps i (done r') r Op.close k at back =
    let calls = total-set in_push ps i (done r') closing at in
    let ch = change ps i (done r') closing at in ground arith
call-Counted q ps i p r op k at back = cc

make-Counted :
    (max_size capacity n : ℕ) (w : WaitStrategy) {q : MpmcRingQueue}
    → make max_size capacity w ≡ ok q
    → Counted capacity q (replicate n (done closed_now))
unfolding make
make-Counted max_size capacity n w e = ground (
  arith,
  total-replicate in_push n (done closed_now),
  total-replicate owes_slot n (done closed_now),
  total-replicate owes_item n (done closed_now),
)

abbrev Both : ℕ → MpmcRingQueue → List Pc → Type 0
Both c q ps = Inv c q ps × Counted c q ps

module _ (max_size capacity n : ℕ) (w : WaitStrategy) {q₀ : MpmcRingQueue}
    (small : capacity < 2 ^ 63) (made : make max_size capacity w ≡ ok q₀)
    {s : System MpmcRingQueue Pc} {ins outs : List Event}
    (r : Reach code (initial q₀ n) s ins outs) where
  reached-Both : Both capacity s.shared s.threads
  reached-Both =
      let start = make-Inv max_size capacity n w small made in
      Reach_keeps code (Both capacity)
        (λ e q ps i p h at.
          let ch = change ps i p (micro e q p).1 at in
          (
            micro-Inv e q ps i p h.0 at,
            step-Counted e q ps i p h.0 h.1 ch (total-set in_push ps i p (micro e q p).1 at),
          ))
        (λ q ps i p reply op h at back.
          (call-Inv q ps i p reply op h.0 at back, call-Counted q ps i p reply op h.1 at back))
        (start.0, make-Counted max_size capacity n w made) r

  size : length (view s.shared) ≡ s.shared.depth
  size = length-window s.shared.buffer s.shared.ring_capacity s.shared.head s.shared.depth

  -- However `n` threads interleave over a new queue of fewer than 2^63 slots, the observed maximum
  -- is at least the number of queued events and at most the capacity.
  pub mpmc_observed_maximum :
      (length (view s.shared) ≤ s.shared.stats.max_observed_depth)
      × (s.shared.stats.max_observed_depth ≤ capacity)
  mpmc_observed_maximum = let both = reached-Both in omega (arith, size)

  -- Over a new queue of fewer than 2^63 slots, in every state in which each of the `n` threads has
  -- returned from its calls, each push attempt has been counted as one success or one failure, and
  -- each successful push as one successful pop or one queued event (the counters run modulo 2^64).
  pub mpmc_counters_balance :
      All Returned s.threads
      → let st = s.shared.stats in
        (st.push_attempts ≡ (st.push_success + st.push_fail) % two_64)
        × (st.push_success % two_64 ≡ (st.pop_success + length (view s.shared)) % two_64)
  mpmc_counters_balance idle =
      let both = reached-Both in
      omega (
        arith,
        size,
        total-Returned s.threads idle,
        total-All in_push Returned (λ p back. ap in_push back.1) s.threads idle,
      )
