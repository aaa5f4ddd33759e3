-- ===== src/Pipeline/Run/Drained/Ends.antt =====
-- The main thread closes the shared queue, and nothing is left in it at the end of a run.
use laboratory.Base.{
  ℕ, zero, suc, ◌+◌, ◌<◌, ◌≡◌, refl, sym, ap, subst, ◌∙◌, Bool, true, false, List, [], ◌∷◌, Option,
  some, none, Bool-cases, Option-cases, inl, inr, get_elem?, set, length, All-get_elem?, total,
  arith, ltb,
}
use laboratory.Base.Int.{ℤ}
use laboratory.Pipeline.Channel.{Channel, close}
use laboratory.Pipeline.Run.{
  Plan, Wiring, Worker, DispatcherPc, MainPc, sleeping, joining_ingress, joining_dispatcher,
  joining_workers, finished, State, done, end_step,
}
use laboratory.Pipeline.Run.DispatcherLoop.{dispatcher_step}
use laboratory.Pipeline.Run.Schedule.{
  Reach, main_step, all_ingress_ended, all_workers_ended, dispatcher_ended,
}
use laboratory.Pipeline.Run.Topologies.{start, start_workers}
use laboratory.Pipeline.Run.Rule.{After, IsKept, Reach-IsKept}
use laboratory.Pipeline.Run.Joined.{IsJoined, IsJoined-IsKept, past_ingress, past_workers}
use laboratory.Pipeline.Run.Balance.{
  IsBalanced, IngressFine, WorkerFine, queued, weight, measure_start,
}
use laboratory.Pipeline.Run.Balance.Totals.{
  IsBalanced-IsKept, starts-IsBalanced, starts-IsJoined, IsNew, All-start_workers,
}
use laboratory.Pipeline.Run.Drained.{
  IsDrained, DrainedAs, AtOnce, NotLooked, any_worker_ended, IsDrained-by_ingress,
}
use laboratory.Pipeline.Run.Drained.Workers.{IsDrained-by_worker, DrainedAs-mono}

DrainedAs-close :
    (qs : List Channel) (k : ℕ) (c : Channel) (e past : Bool)
    → get_elem? qs k ≡ some c
    → DrainedAs qs e past
    → DrainedAs (set qs k (close c)) e true
DrainedAs-close [] k c e past has d = absurd (ground arith)
DrainedAs-close (x ∷ y ∷ qs) k c e past has d = absurd (ground arith)
DrainedAs-close (x ∷ []) (suc k) c e past has d = absurd (ground arith)
DrainedAs-close (x ∷ []) zero c e past has d =
    (ground (arith, d.0), λ h. refl, λ h. (refl, ground (arith, d.2 h)))

module _ (w : Wiring) (s : State) (d : IsDrained s) where
  -- The main thread goes on.
  moves :
      (pc : MainPc)
      → (past_ingress s.main ≡ true → past_ingress pc ≡ true)
      → IsDrained (record s { main = pc })
  moves pc later = record {
    staffed = d.staffed;
    no_dispatcher = d.no_dispatcher;
    not_looked = d.not_looked;
    queue = DrainedAs-mono s.queues _ _ _ _ (λ h. h) later d.queue;
  }

  IsDrained-by_main : (pc : MainPc) → s.main ≡ pc → After IsDrained (main_step w s pc)
  unfolding main_step
  IsDrained-by_main sleeping e = record {
    staffed = d.staffed;
    no_dispatcher = d.no_dispatcher;
    not_looked = d.not_looked;
    queue = DrainedAs-mono s.queues _ _ _ _ (λ h. h) (λ h. sym (ap past_ingress e) ∙ h) d.queue;
  }
  IsDrained-by_main joining_ingress e = elim (Bool-cases (all_ingress_ended s.ingress)) [
    | inl x ↦ rw (x, main_step) (moves (MainPc.closing 0) (λ h. refl))
    | inr x ↦ rw (x, main_step) tt
  ]
  IsDrained-by_main (MainPc.closing k) e = elim (Bool-cases (ltb k w.main_closes)) [
    | inl more ↦ elim (Option-cases (get_elem? s.queues k)) [
      | inl x ↦ rw (more, main_step, x) tt
      | inr (c, has) ↦
          rw (more, main_step, has)
            (record {
              staffed = d.staffed;
              no_dispatcher = d.no_dispatcher;
              not_looked = d.not_looked;
              queue =
                  DrainedAs-close s.queues k c (any_worker_ended s.workers) (past_ingress s.main)
                    has d.queue;
            })
    ]
    | inr over ↦ rw (over, main_step) (moves joining_dispatcher (λ h. refl))
  ]
  IsDrained-by_main joining_dispatcher e = elim (Bool-cases (dispatcher_ended s.dispatcher)) [
    | inl x ↦ rw (x, main_step) (moves joining_workers (λ h. refl))
    | inr x ↦ rw (x, main_step) tt
  ]
  IsDrained-by_main joining_workers e = elim (Bool-cases (all_workers_ended s.workers)) [
    | inl x ↦ rw (x, main_step) (moves finished (λ h. refl))
    | inr x ↦ rw (x, main_step) tt
  ]
  IsDrained-by_main finished e = tt

-- All three invariants of a run.
abbrev IsSettled : Plan → Wiring → State → Type 0
IsSettled p w s = IsBalanced p w s × IsJoined s × IsDrained s

-- Its parts, each after a step.
settled :
    (p : Plan) (w : Wiring) (m : Option State)
    → After (IsBalanced p w) m
    → After IsJoined m
    → After IsDrained m
    → After (IsSettled p w) m
settled p w none b j d = tt
settled p w (some s) b j d = (b, j, d)

-- Nothing waits in the only queue once a worker has ended.
DrainedAs-queued :
    (start : ℤ) (qs : List Channel) (past : Bool)
    → DrainedAs qs true past
    → total (queued start) qs ≡ 0
unfolding total
DrainedAs-queued start [] past d = refl
DrainedAs-queued start (x ∷ y ∷ qs) past d = absurd (ground arith)
DrainedAs-queued start (x ∷ []) past d =
    omega (arith, ap (λ xs. total (weight start) xs) (d.2 refl).1)

all-any :
    (ts : List Worker) → 0 < length ts → all_workers_ended ts ≡ true → any_worker_ended ts ≡ true
unfolding all_workers_ended any_worker_ended
all-any [] h e = absurd (omega arith)
all-any (t ∷ ts) h e = ground arith

length-start_workers : (seed i n : ℕ) → length (start_workers seed i n) ≡ n
unfolding start_workers
length-start_workers seed i zero = refl
length-start_workers seed i (suc n) = omega (arith, length-start_workers seed (i + 1) n)

none_ended : (seed i n : ℕ) → any_worker_ended (start_workers seed i n) ≡ false
unfolding start_workers any_worker_ended
none_ended seed i zero = refl
none_ended seed i (suc n) = none_ended seed (i + 1) n

module _ (p : Plan) (w : Wiring) (only : (i : ℕ) → w.worker_queue i ≡ 0) where
  IsSettled-IsKept : IsKept p w (IsSettled p w)
  IsSettled-IsKept = record {
    by_ingress = λ r s i t h has.
        settled p w _ ((IsBalanced-IsKept p w).by_ingress r s i t h.0 has)
          ((IsJoined-IsKept p w).by_ingress r s i t h.1 has)
          (IsDrained-by_ingress p w s h.2 h.1 r i t t.pc refl
            (All-get_elem? (λ x. IngressFine (measure_start s) x.pc) s.ingress i h.0.ingress_fine
              has)
            has);
    by_worker = λ r s i t h has.
        settled p w _ ((IsBalanced-IsKept p w).by_worker r s i t h.0 has)
          ((IsJoined-IsKept p w).by_worker r s i t h.1 has)
          (IsDrained-by_worker p w only s h.2 i t r
            (All-get_elem? (λ x. WorkerFine x.pc) s.workers i h.0.workers_fine has) has);
    by_dispatcher = λ r s h.
        settled p w _ ((IsBalanced-IsKept p w).by_dispatcher r s h.0)
          ((IsJoined-IsKept p w).by_dispatcher r s h.1)
          (subst (λ pc. After IsDrained (dispatcher_step p r s pc)) (sym h.2.no_dispatcher)
            (unfold dispatcher_step end_step in tt));
    by_main = λ s h.
        settled p w _ ((IsBalanced-IsKept p w).by_main s h.0) ((IsJoined-IsKept p w).by_main s h.1)
          (IsDrained-by_main w s h.2 s.main refl);
  }

  -- The state at the start, for a queue that is popped at once.
  starts-IsDrained :
      (warmup_end : ℤ) (workers ingress_threads : ℕ) (c : Channel)
      → IsNew c
      → AtOnce c
      → 0 < workers
      → IsDrained (start w warmup_end workers ingress_threads (c ∷ []) (DispatcherPc.ending done))
  unfolding start
  starts-IsDrained warmup_end workers ingress_threads c new once staff = record {
    staffed = omega (arith, length-start_workers w.seed 0 workers);
    no_dispatcher = refl;
    not_looked = All-start_workers (λ t. NotLooked t.pc) (λ rng. tt) w.seed 0 workers;
    queue = (
      once,
      λ shut. absurd (ground (arith, new.1)),
      λ h. absurd (ground (arith, none_ended w.seed 0 workers)),
    );
  }

  pub nothing_left :
      (warmup_end : ℤ) (workers ingress_threads : ℕ) (c : Channel) {s : State}
      → IsNew c
      → AtOnce c
      → 0 < workers
      → Reach p w (start w warmup_end workers ingress_threads (c ∷ []) (DispatcherPc.ending done)) s
      → s.thread_error ≡ none
      → s.main ≡ finished
      → total (queued (measure_start s)) s.queues ≡ 0
  nothing_left warmup_end workers ingress_threads c {s} new once staff r calm over =
      let h =
        Reach-IsKept p w (IsSettled p w) IsSettled-IsKept
          (
            starts-IsBalanced p w warmup_end workers ingress_threads (c ∷ [])
                (DispatcherPc.ending done) (new, tt) refl,
            starts-IsJoined p w warmup_end workers ingress_threads (c ∷ [])
                (DispatcherPc.ending done) (new, tt) refl,
            starts-IsDrained warmup_end workers ingress_threads c new once staff,
          )
          r calm in
      let some_ended = all-any s.workers h.2.staffed (h.1.of_workers (ap past_workers over)) in
      DrainedAs-queued (measure_start s) s.queues (past_ingress s.main)
        (subst (λ e. DrainedAs s.queues e (past_ingress s.main)) some_ended h.2.queue)
