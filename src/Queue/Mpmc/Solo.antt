-- ===== src/Queue/Mpmc/Solo.antt =====
-- What a call of `MpmcRingQueue` does when no other thread moves during it.
use laboratory.Base.{
  total, suc, sym, subst, ℕ, ◌-◌, ◌<◌, ◌≡◌, refl, List, [], ◌∷◌, ◌++◌, Bool, true, false, not, ◌&&◌,
  Option, some, none, arith, ltb, if◌then◌else◌, length, Bool-cases, ◌⊎◌, inl, inr, append-nil,
}
use laboratory.Queue.{bump, Event, BackpressurePolicy, block, drop}
use laboratory.Queue.Ring.{length-window}
use laboratory.Queue.Concurrent.{Env, Op, Reply, pushed, popped, solo}
use laboratory.Queue.Mpmc.{
  MpmcRingQueue, Pc, enter_push, try_slot, saw_full, check_open, give_back, store, post_item,
  try_item, saw_empty, take, post_slot, done, micro, start, finished, count, shut, acquires, code,
}
use laboratory.Queue.Mpmc.Invariant.{Inv, micro-Inv}
use laboratory.Queue.Mpmc.Fifo.{view, view-store, view-take}

abbrev pub head? : List Event → Option Event
head? [] = none
head? (ev ∷ evs) = some ev

abbrev pub rest : List Event → List Event
rest [] = []
rest (ev ∷ evs) = evs

-- What `push` promises of the queued events: an event is accepted if the queue is open and the
-- caller is not stopped and there is room.
abbrev pub accepts : ℕ → Env → MpmcRingQueue → Bool
accepts capacity e q = not (shut e q) && ltb (length (view q)) capacity

-- What holds of the queue and the program counter that a call alone ends with.
pub record After (c : ℕ) (out : MpmcRingQueue × Pc) (r : Reply) (evs : List Event) : Type 0 where
  pub back : out.1 ≡ done r
  pub queued : view out.0 ≡ evs
  pub inv : Inv c out.0 []

-- The thread of the call, and no other.
abbrev only : Pc → List Pc
only p = p ∷ []

done-Inv : {c : ℕ} (q : MpmcRingQueue) (r : Reply) → Inv c q (only (done r)) → Inv c q []
unfolding total
done-Inv q r v = omega arith

begin-Inv : {c : ℕ} (q : MpmcRingQueue) (op : Op) → Inv c q [] → Inv c q (only (start op))
unfolding total
begin-Inv q (Op.push ev policy) v = omega arith
begin-Inv q Op.pop v = omega arith
begin-Inv q Op.close v = omega arith

module _ {c : ℕ} (e : Env) where
  next-Inv :
      (q : MpmcRingQueue) (p : Pc) → Inv c q (only p) → Inv c (micro e q p).0 (only (micro e q p).1)
  next-Inv q p v = micro-Inv e q (only p) 0 p v refl

  -- One step of the call, and then the rest of it.
  step_to :
      (n : ℕ) (q : MpmcRingQueue) (p : Pc) (q' : MpmcRingQueue) (p' : Pc) (r : Reply)
      (evs : List Event)
      → finished p ≡ none
      → micro e q p ≡ (q', p')
      → Inv c q (only p)
      → (Inv c q' (only p') → After c (solo code n e q' p') r evs)
      → After c (solo code (suc n) e q p) r evs
  unfolding solo
  step_to n q p q' p' r evs going m v k =
      rw (going, solo)
        (subst (λ x. After c (solo code n e x.0 x.1) r evs) (sym m)
          (k (subst (λ x. Inv c x.0 (only x.1)) m (next-Inv q p v))))

  done-After :
      (q : MpmcRingQueue) (r : Reply) (evs : List Event)
      → view q ≡ evs
      → Inv c q (only (done r))
      → After c (solo code 0 e q (done r)) r evs
  unfolding solo
  done-After q r evs h v = record { back = refl; queued = h; inv = done-Inv q r v }

  store-After :
      (q : MpmcRingQueue) (ev : Event)
      → Inv c q (only (store ev))
      → After c (solo code 2 e q (store ev)) (pushed true) (view q ++ ev ∷ [])
  unfolding micro total
  store-After q ev v =
      let e' = view-store q (only (store ev)) ev e v (omega arith) in
      step_to 1 q (store ev) _ _ _ _ refl refl v
        λ v1. step_to 0 _ post_item _ _ _ _ refl refl v1 λ v2. done-After _ (pushed true) _ e' v2

  give_back-After :
      (q : MpmcRingQueue)
      → Inv c q (only give_back)
      → After c (solo code 1 e q give_back) (pushed false) (view q)
  unfolding micro
  give_back-After q v = step_to 0 q give_back _ _ _ _ refl refl v λ v1. done-After _ _ _ refl v1

  check_open-After :
      (q : MpmcRingQueue) (ev : Event) (b : Bool)
      → b ≡ not (shut e q)
      → Inv c q (only (check_open ev))
      → After c
          (solo code 3 e q (check_open ev))
          (pushed b)
          (view q ++ (if b then (ev ∷ []) else []))
  unfolding micro solo
  check_open-After q ev b h v = elim (Bool-cases (shut e q)) [
    | inl t ↦
        rw (h, t)
          (step_to 2 q (check_open ev) q give_back _ _ refl (rw t) v
            λ v1. rw (append-nil (view q)) (give_back-After q v1))
    | inr f ↦
        rw (h, f)
          (step_to 2 q (check_open ev) q (store ev) _ _ refl (rw f) v λ v1. store-After q ev v1)
  ]

  saw_full-After :
      (q : MpmcRingQueue) (ev : Event) (policy : BackpressurePolicy) (b : Bool)
      → b ≡ false
      → (policy ≡ drop) ⊎ (shut e q ≡ true)
      → Inv c q (only (saw_full ev policy 0))
      → After c
          (solo code 3 e q (saw_full ev policy 0))
          (pushed b)
          (view q ++ (if b then (ev ∷ []) else []))
  unfolding micro solo
  saw_full-After q ev drop b h ready v =
      rw (h, append-nil (view q))
        (step_to 2 q (saw_full ev drop 0) _ _ _ _ refl refl v λ v1. done-After _ _ _ refl v1)
  saw_full-After q ev block b h (inl never) v = cc
  saw_full-After q ev block b h (inr t) v =
      let q' = count q (record q.stats { push_fail = bump q.stats.push_fail }) in
      rw (h, append-nil (view q))
        (step_to 2 q (saw_full ev block 0) q' (done (pushed false)) _ _ refl (rw t) v
          λ v1. done-After _ _ _ refl v1)

  -- A free slot is at hand exactly if the queue is not full.
  free_iff_room :
      (q : MpmcRingQueue)
      → Inv c q []
      → e.spurious ≡ false
      → acquires e q.slots_available ≡ ltb (length (view q)) c
  unfolding total
  free_iff_room q v ns = ground (arith, length-window q.buffer q.ring_capacity q.head q.depth)

  -- A push alone on a queue in which the invariant holds and no other call is pending, whose
  -- attempts on the semaphores do not fail spuriously, unless it has to wait, which it may under
  -- `Block` while the queue is open and full: it returns whether it is accepted, the event goes
  -- behind the queued ones exactly if it is, and the invariant is kept.
  pub mpmc_push_alone :
      (q : MpmcRingQueue) (ev : Event) (policy : BackpressurePolicy)
      → Inv c q []
      → e.spurious ≡ false
      → (policy ≡ drop) ⊎ ((shut e q ≡ true) ⊎ (length (view q) < c))
      → After c
          (solo code 5 e q (start (Op.push ev policy)))
          (pushed (accepts c e q))
          (view q ++ (if accepts c e q then (ev ∷ []) else []))
  unfolding micro
  mpmc_push_alone q ev policy v ns ready =
      let room = free_iff_room q v ns in
      let q1 = count q (record q.stats { push_attempts = bump q.stats.push_attempts }) in
      step_to 4 q (enter_push ev policy) q1 (try_slot ev policy 0) _ _ refl refl
        (begin-Inv q (Op.push ev policy) v)
        λ v1. elim (Bool-cases (acquires e q.slots_available)) [
          | inl got ↦
              step_to 3 q1 (try_slot ev policy 0)
                (record q1 { slots_available = q1.slots_available - 1 }) (check_open ev) _ _ refl
                (rw got) v1 (check_open-After _ ev (accepts c e q) (ground arith))
          | inr full ↦
              step_to 3 q1 (try_slot ev policy 0)
                (count q1 (record q1.stats { full_hits = bump q1.stats.full_hits }))
                (saw_full ev policy 0) _ _ refl (rw full) v1
                (saw_full-After _ ev policy (accepts c e q) (ground arith) (ground arith))
        ]

  take-After :
      (q : MpmcRingQueue)
      → Inv c q (only take)
      → After c (solo code 2 e q take) (popped (head? (view q))) (rest (view q))
  unfolding micro total
  take-After q v =
      let split = view-take q (only take) e v (omega arith) in
      rw split (
        step_to 1 q take _ _ _ _ refl refl v
          λ v1. step_to 0 _ (post_slot _) _ _ _ _ refl refl v1 λ v2. done-After _ _ _ refl v2)

  item_iff_queued :
      (q : MpmcRingQueue)
      → Inv c q []
      → e.spurious ≡ false
      → acquires e q.items ≡ ltb 0 (length (view q))
  unfolding total
  item_iff_queued q v ns = ground (arith, length-window q.buffer q.ring_capacity q.head q.depth)

  -- A pop alone on a queue in which the invariant holds and no other call is pending, whose
  -- attempts on the semaphores do not fail spuriously, unless it has to wait for an event: it
  -- returns the oldest queued event and leaves the others, also on a closed queue or for a stopped
  -- caller, returns none if there is none, and the invariant is kept.
  pub mpmc_pop_alone :
      (q : MpmcRingQueue)
      → Inv c q []
      → e.spurious ≡ false
      → (shut e q ≡ true) ⊎ (0 < length (view q))
      → After c (solo code 3 e q (start Op.pop)) (popped (head? (view q))) (rest (view q))
  unfolding micro solo
  mpmc_pop_alone q v ns ready =
      let some_item = item_iff_queued q v ns in
      let v0 = begin-Inv q Op.pop v in
      elim (Bool-cases (acquires e q.items)) [
        | inl got ↦
            step_to 2 q (try_item 0) (record q { items = q.items - 1 }) take _ _ refl (rw got) v0
              (take-After _)
        | inr none_left ↦
            let q1 = count q (record q.stats { empty_hits = bump q.stats.empty_hits }) in
            step_to 2 q (try_item 0) q1 (saw_empty 0) _ _ refl (rw none_left) v0 λ v1.
              let t : shut e q ≡ true = ground arith in
              let nil : view q ≡ [] = ground arith in
              step_to 1 q1 (saw_empty 0) q1 (done (popped none)) _ _ refl (rw t) v1
                λ v2. rw nil (done-After q1 _ [] nil v2)
      ]
