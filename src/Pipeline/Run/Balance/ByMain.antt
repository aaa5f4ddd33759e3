-- ===== src/Pipeline/Run/Balance/ByMain.antt =====
-- The steps of the main thread keep the balance.
use laboratory.Base.{
  ℕ, zero, suc, ◌<◌, ◌≡◌, Bool, true, false, List, [], ◌∷◌, some, none, Option-cases, Bool-cases,
  inl, inr, get_elem?, set, ltb, ltb→lt, arith, if◌then◌else◌,
}
use laboratory.Pipeline.Channel.{Channel, close}
use laboratory.Pipeline.Run.{
  Plan, Wiring, MainPc, sleeping, joining_ingress, joining_dispatcher, joining_workers, finished,
  State,
}
use laboratory.Pipeline.Run.Schedule.{
  put, main_step, all_ingress_ended, all_workers_ended, dispatcher_ended,
}
use laboratory.Pipeline.Run.Balance.{IsBalanced, measure_start, LanesOpen}
use laboratory.Pipeline.Run.Balance.Queues.{queued-close}
use laboratory.Pipeline.Run.Rule.{After}

module _ (p : Plan) (w : Wiring) (s : State) (b : IsBalanced p w s) where
  moves : (pc : MainPc) → IsBalanced p w (put s pc)
  moves pc = record {
    ingress_fine = b.ingress_fine;
    workers_fine = b.workers_fine;
    dispatcher_fine = b.dispatcher_fine;
    lanes = b.lanes;
    has_samples = b.has_samples;
    sampled = b.sampled;
    accepted_fits = b.accepted_fits;
    generated_once = b.generated_once;
    accounted = b.accounted;
  }

  if_all :
      (all : Bool) (pc : MainPc) → After (IsBalanced p w) (if all then some (put s pc) else none)
  if_all true pc = moves pc
  if_all false pc = tt

  -- The first queue is no worker's where there is a dispatcher.
  still_open :
      (qs : List Channel) (k : ℕ) (c : Channel) → k < 1 → LanesOpen qs → LanesOpen (set qs k c)
  still_open [] k c lt h = h
  still_open (x ∷ xs) zero c lt h = h
  still_open (x ∷ xs) (suc k) c lt h = absurd (omega arith)

  closes :
      (k : ℕ) (c : Channel)
      → ltb k w.main_closes ≡ true
      → get_elem? s.queues k ≡ some c
      → IsBalanced p w
          (record s { queues = set s.queues k (close c); main = MainPc.closing (suc k) })
  closes k c lt hc = record {
    ingress_fine = b.ingress_fine;
    workers_fine = b.workers_fine;
    dispatcher_fine = b.dispatcher_fine;
    lanes = λ d. (
      still_open s.queues k (close c) (omega (arith, ltb→lt k w.main_closes lt, (b.lanes d).1))
          (b.lanes d).0,
      (b.lanes d).1,
    );
    has_samples = b.has_samples;
    sampled = b.sampled;
    accepted_fits = b.accepted_fits;
    generated_once = b.generated_once;
    accounted = omega (arith, queued-close (measure_start s) s.queues k c hc, b.accounted);
  }

  steps_at : (pc : MainPc) → After (IsBalanced p w) (main_step w s pc)
  unfolding main_step
  steps_at sleeping = record {
    ingress_fine = b.ingress_fine;
    workers_fine = b.workers_fine;
    dispatcher_fine = b.dispatcher_fine;
    lanes = b.lanes;
    has_samples = b.has_samples;
    sampled = b.sampled;
    accepted_fits = b.accepted_fits;
    generated_once = b.generated_once;
    accounted = b.accounted;
  }
  steps_at joining_ingress = if_all (all_ingress_ended s.ingress) (MainPc.closing 0)
  steps_at (MainPc.closing k) = elim (Bool-cases (ltb k w.main_closes)) [
    | inl more ↦ elim (Option-cases (get_elem? s.queues k)) [
      | inl x ↦ rw (more, main_step, x) tt
      | inr (c, hc) ↦ rw (more, main_step, hc) (closes k c more hc)
    ]
    | inr over ↦ rw (over, main_step) (moves joining_dispatcher)
  ]
  steps_at joining_dispatcher = if_all (dispatcher_ended s.dispatcher) joining_workers
  steps_at joining_workers = if_all (all_workers_ended s.workers) finished
  steps_at finished = tt

  pub keeps : After (IsBalanced p w) (main_step w s s.main)
  keeps = steps_at s.main
