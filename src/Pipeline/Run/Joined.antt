-- ===== src/Pipeline/Run/Joined.antt =====
-- What the main thread has waited for: the threads that it has joined have ended and stay so.
use laboratory.Base.{
  ℕ, ◌≡◌, refl, sym, ap, ◌∙◌, Bool, true, false, List, [], ◌∷◌, Option, some, none, get_elem?,
  arith, zero, suc,
}
use laboratory.Pipeline.Channel.{pop_look, pop_flags}
use laboratory.Pipeline.Run.{
  Plan, Wiring, Ingress, IngressPc, starting, head, checked, Worker, WorkerPc, DispatcherPc, MainPc,
  sleeping, joining_ingress, joining_dispatcher, joining_workers, finished, State, Reading,
  stopping, closing, done, end_step,
}
use laboratory.Pipeline.Run.IngressLoop.{ingress_step, fire, fire_or_wait, push_event}
use laboratory.Pipeline.Run.WorkerLoop.{worker_step, take, complete}
use laboratory.Pipeline.Run.DispatcherLoop
use laboratory.Pipeline.Run.DispatcherLoop.{dispatcher_step, hand_on}
use laboratory.Pipeline.Run.Schedule.{
  main_step, all_ingress_ended, all_workers_ended, ingress_ended, worker_ended, dispatcher_ended,
}
use laboratory.Pipeline.Run.Rule.{After, IsKept}

-- Whether the main thread is past a join.
abbrev pub past_ingress : MainPc → Bool
past_ingress sleeping = false
past_ingress joining_ingress = false
past_ingress pc = true

abbrev pub past_dispatcher : MainPc → Bool
past_dispatcher joining_workers = true
past_dispatcher finished = true
past_dispatcher pc = false

abbrev pub past_workers : MainPc → Bool
past_workers finished = true
past_workers pc = false

pub record IsJoined (s : State) : Type 0 where
  pub of_ingress : past_ingress s.main ≡ true → all_ingress_ended s.ingress ≡ true
  pub of_dispatcher : past_dispatcher s.main ≡ true → dispatcher_ended s.dispatcher ≡ true
  pub of_workers : past_workers s.main ≡ true → all_workers_ended s.workers ≡ true

pub ingress_ended_at :
    (ts : List Ingress) (i : ℕ) {t : Ingress}
    → all_ingress_ended ts ≡ true
    → get_elem? ts i ≡ some t
    → ingress_ended t.pc ≡ true
unfolding all_ingress_ended
ingress_ended_at [] i h e = absurd (ground arith)
ingress_ended_at (x ∷ xs) zero h e = ground arith
ingress_ended_at (x ∷ xs) (suc i) h e = ingress_ended_at xs i (ground arith) e

pub worker_ended_at :
    (ts : List Worker) (i : ℕ) {t : Worker}
    → all_workers_ended ts ≡ true
    → get_elem? ts i ≡ some t
    → worker_ended t.pc ≡ true
unfolding all_workers_ended
worker_ended_at [] i h e = absurd (ground arith)
worker_ended_at (x ∷ xs) zero h e = ground arith
worker_ended_at (x ∷ xs) (suc i) h e = worker_ended_at xs i (ground arith) e

module _ (p : Plan) (w : Wiring) where
  -- An ingress thread that can step has not ended; it changes no other thread.
  abbrev IngressFrame : State → IngressPc → State → Type 0
  IngressFrame s pc t =
      (ingress_ended pc ≡ false)
      × (t.main ≡ s.main)
      × (t.dispatcher ≡ s.dispatcher)
      × (t.workers ≡ s.workers)

  ingress_frame :
      (r : Reading) (s : State) (i : ℕ) (t : Ingress) (pc : IngressPc)
      → After (IngressFrame s pc) (ingress_step p w r s i t pc)
  unfolding ingress_step fire fire_or_wait push_event end_step
  ingress_frame r s i t starting = ground arith
  ingress_frame r s i t head = ground arith
  ingress_frame r s i t checked = ground arith
  ingress_frame r s i t (IngressPc.pushing ev m) = ground arith
  ingress_frame r s i t (IngressPc.counting ok m) = ground arith
  ingress_frame r s i t (IngressPc.ending stopping) = ground arith
  ingress_frame r s i t (IngressPc.ending (closing k)) = ground arith
  ingress_frame r s i t (IngressPc.ending done) = ground arith

  abbrev WorkerFrame : State → WorkerPc → State → Type 0
  WorkerFrame s pc t =
      (worker_ended pc ≡ false)
      × (t.main ≡ s.main)
      × (t.dispatcher ≡ s.dispatcher)
      × (t.ingress ≡ s.ingress)

  worker_frame :
      (r : Reading) (s : State) (i : ℕ) (t : Worker) (pc : WorkerPc)
      → After (WorkerFrame s pc) (worker_step p w r s i t pc)
  unfolding worker_step take complete end_step pop_look pop_flags
  worker_frame r s i t WorkerPc.popping = ground arith
  worker_frame r s i t WorkerPc.looked = ground arith
  worker_frame r s i t (WorkerPc.working ev) = ground arith
  worker_frame r s i t (WorkerPc.ending stopping) = ground arith
  worker_frame r s i t (WorkerPc.ending (closing k)) = ground arith
  worker_frame r s i t (WorkerPc.ending done) = ground arith

  abbrev DispatcherFrame : State → DispatcherPc → State → Type 0
  DispatcherFrame s pc t =
      (dispatcher_ended pc ≡ false)
      × (t.main ≡ s.main)
      × (t.ingress ≡ s.ingress)
      × (t.workers ≡ s.workers)

  dispatcher_frame :
      (r : Reading) (s : State) (pc : DispatcherPc)
      → After (DispatcherFrame s pc) (dispatcher_step p r s pc)
  unfolding dispatcher_step DispatcherLoop.take hand_on end_step pop_look pop_flags
  dispatcher_frame r s DispatcherPc.popping = ground arith
  dispatcher_frame r s DispatcherPc.looked = ground arith
  dispatcher_frame r s (DispatcherPc.pushing ev m) = ground arith
  dispatcher_frame r s (DispatcherPc.counting ok m) = ground arith
  dispatcher_frame r s (DispatcherPc.ending stopping) = ground arith
  dispatcher_frame r s (DispatcherPc.ending (closing k)) = ground arith
  dispatcher_frame r s (DispatcherPc.ending done) = ground arith

  IsJoined-by_ingress :
      (s : State) (i : ℕ) (t : Ingress) (m : Option State)
      → IsJoined s
      → get_elem? s.ingress i ≡ some t
      → After (IngressFrame s t.pc) m
      → After IsJoined m
  IsJoined-by_ingress s i t none j has f = tt
  IsJoined-by_ingress s i t (some u) j has f = record {
    of_ingress = λ past. absurd (
        ground (
          arith,
          j.of_ingress (ap past_ingress (sym f.1) ∙ past),
          ingress_ended_at s.ingress i (j.of_ingress (ap past_ingress (sym f.1) ∙ past)) has,
        ));
    of_dispatcher =
        λ past. ap dispatcher_ended f.2 ∙ j.of_dispatcher (ap past_dispatcher (sym f.1) ∙ past);
    of_workers = λ past. ap all_workers_ended f.3 ∙ j.of_workers (ap past_workers (sym f.1) ∙ past);
  }

  IsJoined-by_worker :
      (s : State) (i : ℕ) (t : Worker) (m : Option State)
      → IsJoined s
      → get_elem? s.workers i ≡ some t
      → After (WorkerFrame s t.pc) m
      → After IsJoined m
  IsJoined-by_worker s i t none j has f = tt
  IsJoined-by_worker s i t (some u) j has f = record {
    of_ingress = λ past. ap all_ingress_ended f.3 ∙ j.of_ingress (ap past_ingress (sym f.1) ∙ past);
    of_dispatcher =
        λ past. ap dispatcher_ended f.2 ∙ j.of_dispatcher (ap past_dispatcher (sym f.1) ∙ past);
    of_workers = λ past. absurd (
        ground (
          arith,
          worker_ended_at s.workers i (j.of_workers (ap past_workers (sym f.1) ∙ past)) has,
        ));
  }

  IsJoined-by_dispatcher :
      (s : State) (m : Option State)
      → IsJoined s
      → After (DispatcherFrame s s.dispatcher) m
      → After IsJoined m
  IsJoined-by_dispatcher s none j f = tt
  IsJoined-by_dispatcher s (some u) j f = record {
    of_ingress = λ past. ap all_ingress_ended f.2 ∙ j.of_ingress (ap past_ingress (sym f.1) ∙ past);
    of_dispatcher =
        λ past. absurd (ground (arith, j.of_dispatcher (ap past_dispatcher (sym f.1) ∙ past)));
    of_workers = λ past. ap all_workers_ended f.3 ∙ j.of_workers (ap past_workers (sym f.1) ∙ past);
  }

  IsJoined-by_main :
      (s : State) (pc : MainPc) → s.main ≡ pc → IsJoined s → After IsJoined (main_step w s pc)
  unfolding main_step
  IsJoined-by_main s sleeping e j = ground (arith, j.of_ingress, j.of_dispatcher, j.of_workers)
  IsJoined-by_main s joining_ingress e j = ground arith
  IsJoined-by_main s (MainPc.closing k) e j = ground (arith, j.of_ingress (ap past_ingress e))
  IsJoined-by_main s joining_dispatcher e j = ground (arith, j.of_ingress (ap past_ingress e))
  IsJoined-by_main s joining_workers e j =
      ground (arith, j.of_ingress (ap past_ingress e), j.of_dispatcher (ap past_dispatcher e))
  IsJoined-by_main s finished e j = tt

  pub IsJoined-IsKept : IsKept p w IsJoined
  IsJoined-IsKept = record {
    by_ingress = λ r s i t j has. IsJoined-by_ingress s i t _ j has (ingress_frame r s i t t.pc);
    by_worker = λ r s i t j has. IsJoined-by_worker s i t _ j has (worker_frame r s i t t.pc);
    by_dispatcher = λ r s j. IsJoined-by_dispatcher s _ j (dispatcher_frame r s s.dispatcher);
    by_main = λ s j. IsJoined-by_main s s.main refl j;
  }
