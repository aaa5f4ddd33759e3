-- ===== src/Queue/GlobalLock/Invariant.antt =====
-- The invariant of `GlobalLockQueue`: its bound, its waiters and its counters.
use laboratory.Base.{
  ℕ, refl, ◌+◌, ◌%◌, ◌≤◌, ◌≡◌, ◌⊎◌, [], ◌∷◌, List, set, get_elem?, some, total, total-set,
  total-All, le-total, All, ap, length, length-append, arith,
}
use laboratory.Queue.{two_64, block, drop}
use laboratory.Queue.Concurrent.{Env, Op, Reply}
use laboratory.Queue.GlobalLock.{
  GlobalLockQueue, Pc, enter_push, lock_push, wait_not_full, relock_push, lock_pop, wait_not_empty,
  lock_close, done, micro, start, finished,
}

-- A push that has counted its attempt and not its outcome.
abbrev pub in_push : Pc → ℕ
in_push (lock_push ev policy) = 1
in_push (wait_not_full ev) = 1
in_push (relock_push ev spins) = 1
in_push p = 0

abbrev pub waits_not_full : Pc → ℕ
waits_not_full (wait_not_full ev) = 1
waits_not_full p = 0

abbrev pub waits_not_empty : Pc → ℕ
waits_not_empty wait_not_empty = 1
waits_not_empty p = 0

pub record Inv (capacity : ℕ) (q : GlobalLockQueue) (ps : List Pc) : Type 0 where
  pub sized : q.capacity ≡ capacity
  pub bounded : (capacity ≡ 0) ⊎ (q.stats.max_observed_depth ≤ capacity)
  pub deepest : length q.queue ≤ q.stats.max_observed_depth
  pub attempts :
      q.stats.push_attempts ≡ (q.stats.push_success + q.stats.push_fail + total in_push ps) % two_64
  pub passed : q.stats.push_success % two_64 ≡ (q.stats.pop_success + length q.queue) % two_64
  pub full_waiters : q.not_full_cv.waiting ≡ total waits_not_full ps
  pub empty_waiters : q.not_empty_cv.waiting ≡ total waits_not_empty ps
  pub full_signals : q.not_full_cv.signals ≤ q.not_full_cv.waiting
  pub empty_signals : q.not_empty_cv.signals ≤ q.not_empty_cv.waiting

-- What one step of thread `i` from `p` to `p'` does to the sums.
pub record Change (ps : List Pc) (i : ℕ) (p p' : Pc) : Type 0 where
  pub pushes : total in_push (set ps i p') + in_push p ≡ total in_push ps + in_push p'
  pub full_waits :
      total waits_not_full (set ps i p') + waits_not_full p
      ≡ total waits_not_full ps + waits_not_full p'
  pub empty_waits :
      total waits_not_empty (set ps i p') + waits_not_empty p
      ≡ total waits_not_empty ps + waits_not_empty p'
  pub full_le : waits_not_full p ≤ total waits_not_full ps
  pub empty_le : waits_not_empty p ≤ total waits_not_empty ps

pub change : (ps : List Pc) (i : ℕ) (p p' : Pc) → get_elem? ps i ≡ some p → Change ps i p p'
change ps i p p' at = record {
  pushes = total-set in_push ps i p p' at;
  full_waits = total-set waits_not_full ps i p p' at;
  empty_waits = total-set waits_not_empty ps i p p' at;
  full_le = le-total waits_not_full ps i p at;
  empty_le = le-total waits_not_empty ps i p at;
}

step-Inv :
    {c : ℕ} (e : Env) (q : GlobalLockQueue) (ps : List Pc) (i : ℕ) (p : Pc)
    → Inv c q ps
    → Change ps i p (micro e q p).1
    → Inv c (micro e q p).0 (set ps i (micro e q p).1)
unfolding micro
step-Inv e q ps i (lock_push ev block) v ch = ground (arith, length-append q.queue (ev ∷ []))
step-Inv e q ps i (lock_push ev drop) v ch = ground (arith, length-append q.queue (ev ∷ []))
step-Inv e q ps i (wait_not_full ev) v ch = ground (arith, length-append q.queue (ev ∷ []))
step-Inv e q ps i (relock_push ev spins) v ch = ground (arith, length-append q.queue (ev ∷ []))
step-Inv e q ps i p v ch = ground arith

-- Every step of every thread keeps the invariant.
pub micro-Inv :
    {c : ℕ} (e : Env) (q : GlobalLockQueue) (ps : List Pc) (i : ℕ) (p : Pc)
    → Inv c q ps
    → get_elem? ps i ≡ some p
    → Inv c (micro e q p).0 (set ps i (micro e q p).1)
micro-Inv e q ps i p v at = step-Inv e q ps i p v (change ps i p (micro e q p).1 at)

call-step :
    {c : ℕ} (q : GlobalLockQueue) (ps : List Pc) (i : ℕ) (r : Reply) (p' : Pc)
    → Inv c q ps
    → Change ps i (done r) p'
    → in_push p' + waits_not_full p' + waits_not_empty p' ≡ 0
    → Inv c q (set ps i p')
call-step q ps i r p' v ch none_of = ground arith

-- So does the call that a thread makes after its last one returned.
pub call-Inv :
    {c : ℕ} (q : GlobalLockQueue) (ps : List Pc) (i : ℕ) (p : Pc) (r : Reply) (op : Op)
    → Inv c q ps
    → get_elem? ps i ≡ some p
    → finished p ≡ some r
    → Inv c q (set ps i (start op))
call-Inv q ps i (done r') r (Op.push ev policy) v at back =
    call-step q ps i r' (enter_push ev policy) v (change ps i _ _ at) refl
call-Inv q ps i (done r') r Op.pop v at back =
    call-step q ps i r' lock_pop v (change ps i _ _ at) refl
call-Inv q ps i (done r') r Op.close v at back =
    call-step q ps i r' lock_close v (change ps i _ _ at) refl
call-Inv q ps i p r op v at back = cc

-- The thread has returned from its last call.
abbrev pub Returned : Pc → Type 0
Returned p = (r : Reply) × (p ≡ done r)

-- The sums are 0 once every thread has returned.
pub total-Returned :
    (ps : List Pc)
    → All Returned ps
    → (total in_push ps ≡ 0) × (total waits_not_full ps ≡ 0) × (total waits_not_empty ps ≡ 0)
total-Returned ps h = (
  total-All in_push Returned (λ p back. ap in_push back.1) ps h,
  total-All waits_not_full Returned (λ p back. ap waits_not_full back.1) ps h,
  total-All waits_not_empty Returned (λ p back. ap waits_not_empty back.1) ps h,
)
