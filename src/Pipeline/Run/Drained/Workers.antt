-- ===== src/Pipeline/Run/Drained/Workers.antt =====
-- The steps of the workers where the queue is under one mutex.
use laboratory.Base.{
  ℕ, zero, suc, ◌≡◌, refl, sym, subst, Bool, true, false, List, [], ◌∷◌, some, none, Bool-cases,
  Option-cases, ◌⊎◌, inl, inr, get_elem?, set, length, length-set, ◌<◌, All, All-get_elem?, All-set,
  arith,
}
use laboratory.Queue.{Event}
use laboratory.Pipeline.Channel.{pops_at_once-may_miss, Channel, pop_look}
use laboratory.Pipeline.Run.{Plan, Wiring, Worker, WorkerPc, State, Reading, done, end_step}
use laboratory.Pipeline.Run.WorkerLoop.{worker_step, take, complete, at}
use laboratory.Pipeline.Run.Schedule.{worker_ended}
use laboratory.Pipeline.Run.Rule.{After}
use laboratory.Pipeline.Run.Joined.{past_ingress}
use laboratory.Pipeline.Run.Balance.{WorkerFine}
use laboratory.Pipeline.Run.Drained.{
  IsDrained, DrainedAs, NotLooked, AtOnce, IsOver, any_worker_ended,
}

any_worker_ended-set :
    (ts : List Worker) (i : ℕ) (t : Worker)
    → any_worker_ended (set ts i t) ≡ true
    → (worker_ended t.pc ≡ true) ⊎ (any_worker_ended ts ≡ true)
unfolding any_worker_ended
any_worker_ended-set [] i t h = inr h
any_worker_ended-set (x ∷ xs) zero t h = elim (Bool-cases (worker_ended t.pc)) [
  | inl e ↦ inl e
  | inr e ↦ inr (ground arith)
]
any_worker_ended-set (x ∷ xs) (suc i) t h = elim (Bool-cases (worker_ended x.pc)) [
  | inl e ↦ inr (ground arith)
  | inr e ↦ elim (any_worker_ended-set xs i t (ground arith)) [
    | inl a ↦ inl a
    | inr b ↦ inr (ground arith)
  ]
]

-- The only queue is replaced.
DrainedAs-replace :
    (qs : List Channel) (c c' : Channel) (e past e' past' : Bool)
    → get_elem? qs 0 ≡ some c
    → (DrainedAs (c ∷ []) e past → DrainedAs (c' ∷ []) e' past')
    → DrainedAs qs e past
    → DrainedAs (set qs 0 c') e' past'
DrainedAs-replace [] c c' e past e' past' has f d = absurd (ground arith)
DrainedAs-replace (x ∷ y ∷ qs) c c' e past e' past' has f d = absurd (ground arith)
DrainedAs-replace (x ∷ []) c c' e past e' past' has f d =
    let same : x ≡ c = ground arith in f (subst (λ y. DrainedAs (y ∷ []) e past) same d)

-- What is known of the queue changes.
DrainedAs-learn :
    (qs : List Channel) (c : Channel) (e past e' past' : Bool)
    → get_elem? qs 0 ≡ some c
    → (DrainedAs (c ∷ []) e past → DrainedAs (c ∷ []) e' past')
    → DrainedAs qs e past
    → DrainedAs qs e' past'
DrainedAs-learn [] c e past e' past' has f d = absurd (ground arith)
DrainedAs-learn (x ∷ y ∷ qs) c e past e' past' has f d = absurd (ground arith)
DrainedAs-learn (x ∷ []) c e past e' past' has f d =
    let same : x ≡ c = ground arith in
    subst (λ y. DrainedAs (y ∷ []) e' past') (sym same)
      (f (subst (λ y. DrainedAs (y ∷ []) e past) same d))

AtOnce-at :
    (qs : List Channel) (c : Channel) (e past : Bool)
    → get_elem? qs 0 ≡ some c
    → DrainedAs qs e past
    → AtOnce c
AtOnce-at [] c e past has d = absurd (ground arith)
AtOnce-at (x ∷ y ∷ qs) c e past has d = absurd (ground arith)
AtOnce-at (x ∷ []) c e past has d = ground (arith, d.0)

-- Only the threads change.
pub DrainedAs-mono :
    (qs : List Channel) (e past e' past' : Bool)
    → (e' ≡ true → e ≡ true)
    → (past ≡ true → past' ≡ true)
    → DrainedAs qs e past
    → DrainedAs qs e' past'
DrainedAs-mono [] e past e' past' f g d = d
DrainedAs-mono (x ∷ y ∷ qs) e past e' past' f g d = d
DrainedAs-mono (x ∷ []) e past e' past' f g d = (d.0, λ h. g (d.1 h), λ h. d.2 (f h))

module _ (p : Plan) (w : Wiring) (only : (i : ℕ) → w.worker_queue i ≡ 0) (s : State)
    (d : IsDrained s) (i : ℕ) (t : Worker) where
  still_staffed : (t' : Worker) → 0 < length (set s.workers i t')
  still_staffed t' = omega (arith, length-set s.workers i t', d.staffed)

  -- A step of a worker that goes on: the queue stays.
  goes_on :
      (t' : Worker)
      → worker_ended t'.pc ≡ false
      → NotLooked t'.pc
      → DrainedAs s.queues (any_worker_ended (set s.workers i t')) (past_ingress s.main)
        × All (λ x. NotLooked x.pc) (set s.workers i t')
  goes_on t' busy fine = (
    DrainedAs-mono s.queues _ _ _ _
        (λ h. elim (any_worker_ended-set s.workers i t' h) [
          | inl x ↦ absurd (ground arith)
          | inr x ↦ x
        ])
        (λ h. h) d.queue,
    All-set (λ x. NotLooked x.pc) s.workers i t' d.not_looked fine,
  )

  -- A worker that takes an event finds none ended.
  still_none :
      (c : Channel) (ev : Event) (rest : List Event)
      → c.waiting ≡ ev ∷ rest
      → (any_worker_ended s.workers ≡ true → IsOver c)
      → any_worker_ended (set s.workers i (at t (WorkerPc.working ev))) ≡ true
      → IsOver (record c { waiting = rest })
  still_none c ev rest e over h =
      elim (any_worker_ended-set s.workers i (at t (WorkerPc.working ev)) h) [
        | inl x ↦ absurd (ground arith)
        | inr x ↦ absurd (ground (arith, over x))
      ]

  takes :
      (ready : Bool) (c : Channel) (xs : List Event)
      → c.waiting ≡ xs
      → get_elem? s.queues 0 ≡ some c
      → IsDrained (take s i t 0 (pop_look false ready c xs))
  unfolding pop_look take
  takes ready c (ev ∷ rest) e has =
      let t' = at t (WorkerPc.working ev) in
      let sees =
        pops_at_once-may_miss c.kind
          (AtOnce-at s.queues c (any_worker_ended s.workers) (past_ingress s.main) has d.queue) in
      rw sees (record {
        staffed = still_staffed _;
        no_dispatcher = d.no_dispatcher;
        not_looked = All-set (λ x. NotLooked x.pc) s.workers i t' d.not_looked tt;
        queue =
            DrainedAs-replace s.queues c (record c { waiting = rest }) (any_worker_ended s.workers)
              (past_ingress s.main) (any_worker_ended (set s.workers i t')) (past_ingress s.main)
              has (λ f. (f.0, f.1, still_none c ev rest e f.2)) d.queue;
      })
  takes ready c [] e has =
      rw (AtOnce-at s.queues c (any_worker_ended s.workers) (past_ingress s.main) has d.queue)
        (elim (Bool-cases c.closed) [
          | inl shut ↦ rw shut (record {
            staffed = still_staffed _;
            no_dispatcher = d.no_dispatcher;
            not_looked =
                All-set (λ x. NotLooked x.pc) s.workers i (at t (WorkerPc.ending done)) d.not_looked
                  tt;
            queue =
                DrainedAs-learn s.queues c _ _ _ _ has (λ f. (f.0, f.1, λ h. (shut, e))) d.queue;
          })
          | inr opened ↦
              let (q, n) = goes_on (at t WorkerPc.popping) refl tt in
              rw opened (record {
                staffed = still_staffed _;
                no_dispatcher = d.no_dispatcher;
                not_looked = n;
                queue = q;
              })
        ])

  drained_at :
      (r : Reading) (pc : WorkerPc)
      → WorkerFine pc
      → NotLooked pc
      → After IsDrained (worker_step p w r s i t pc)
  unfolding worker_step complete end_step
  drained_at r WorkerPc.popping fine n =
      subst
        (λ q. After IsDrained (elim (get_elem? s.queues q) [
          | none ↦ none
          | some c ↦ some (take s i t q (pop_look false r.ok c c.waiting))
        ]))
        (sym (only i))
        (elim (Option-cases (get_elem? s.queues 0)) [
          | inl x ↦ rw x tt
          | inr (c, has) ↦ rw has (takes r.ok c c.waiting refl has)
        ])
  drained_at r WorkerPc.looked fine n = absurd (ground arith)
  drained_at r (WorkerPc.working ev) fine n =
      let (q, x) = goes_on _ refl tt in
      record {
        staffed = still_staffed _;
        no_dispatcher = d.no_dispatcher;
        not_looked = x;
        queue = q;
      }
  drained_at r (WorkerPc.ending e) fine n =
      subst (λ y. After IsDrained (worker_step p w r s i t (WorkerPc.ending y))) (sym fine) tt

  pub IsDrained-by_worker :
      (r : Reading)
      → WorkerFine t.pc
      → get_elem? s.workers i ≡ some t
      → After IsDrained (worker_step p w r s i t t.pc)
  IsDrained-by_worker r fine has =
      drained_at r t.pc fine (All-get_elem? (λ x. NotLooked x.pc) s.workers i d.not_looked has)
