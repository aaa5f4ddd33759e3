-- ===== src/Pipeline/Run/Rule.antt =====
-- What holds in all states of a run in which no exception was recorded: a rule for its proofs.
use laboratory.Base.{ℕ, ◌≡◌, Option, some, none, get_elem?, Option-cases, arith, subst, inl, inr}
use laboratory.Pipeline.Channel.{pop_look, pop_flags}
use laboratory.Pipeline.Run.{
  Plan, Wiring, Ingress, IngressPc, starting, head, checked, Worker, WorkerPc, DispatcherPc, MainPc,
  sleeping, joining_ingress, joining_dispatcher, joining_workers, finished, State, Reading,
  stopping, closing, done, end_step,
}
use laboratory.Pipeline.Run.IngressLoop.{
  ingress_step, ingress_throws, fire, fire_or_wait, push_event,
}
use laboratory.Pipeline.Run.WorkerLoop.{worker_step, worker_throws, take, complete}
use laboratory.Pipeline.Run.DispatcherLoop
use laboratory.Pipeline.Run.DispatcherLoop.{dispatcher_step, dispatcher_throws, hand_on}
use laboratory.Pipeline.Run.Schedule.{
  Choice, ingress, worker, dispatcher, main, ingress_throw, worker_throw, dispatcher_throw, Reach,
  here, next, step, main_step,
}

-- `P` of the state after a step, if it can be made.
abbrev pub After : (State → Type 0) → Option State → Type 0
After P none = Unit
After P (some s) = P s

pub After-some : (P : State → Type 0) (m : Option State) {t : State} → After P m → m ≡ some t → P t
After-some P none h e = cc
After-some P (some s) h e = subst P (cc) h

-- The recorded exception stays.
abbrev Stays : State → State → Type 0
Stays s t = t.thread_error ≡ none → s.thread_error ≡ none

module _ (p : Plan) (w : Wiring) where
  ingress_step-Stays :
      (r : Reading) (s : State) (i : ℕ) (t : Ingress) (pc : IngressPc)
      → After (Stays s) (ingress_step p w r s i t pc)
  unfolding ingress_step fire fire_or_wait push_event end_step
  ingress_step-Stays r s i t starting = ground arith
  ingress_step-Stays r s i t head = ground arith
  ingress_step-Stays r s i t checked = ground arith
  ingress_step-Stays r s i t (IngressPc.pushing ev m) = ground arith
  ingress_step-Stays r s i t (IngressPc.counting ok m) = ground arith
  ingress_step-Stays r s i t (IngressPc.ending stopping) = ground arith
  ingress_step-Stays r s i t (IngressPc.ending (closing k)) = ground arith
  ingress_step-Stays r s i t (IngressPc.ending done) = ground arith

  worker_step-Stays :
      (r : Reading) (s : State) (i : ℕ) (t : Worker) (pc : WorkerPc)
      → After (Stays s) (worker_step p w r s i t pc)
  unfolding worker_step take complete end_step pop_look pop_flags
  worker_step-Stays r s i t WorkerPc.popping = ground arith
  worker_step-Stays r s i t WorkerPc.looked = ground arith
  worker_step-Stays r s i t (WorkerPc.working ev) = ground arith
  worker_step-Stays r s i t (WorkerPc.ending stopping) = ground arith
  worker_step-Stays r s i t (WorkerPc.ending (closing k)) = ground arith
  worker_step-Stays r s i t (WorkerPc.ending done) = ground arith

  dispatcher_step-Stays :
      (r : Reading) (s : State) (pc : DispatcherPc) → After (Stays s) (dispatcher_step p r s pc)
  unfolding dispatcher_step DispatcherLoop.take hand_on end_step pop_look pop_flags
  dispatcher_step-Stays r s DispatcherPc.popping = ground arith
  dispatcher_step-Stays r s DispatcherPc.looked = ground arith
  dispatcher_step-Stays r s (DispatcherPc.pushing ev m) = ground arith
  dispatcher_step-Stays r s (DispatcherPc.counting ok m) = ground arith
  dispatcher_step-Stays r s (DispatcherPc.ending stopping) = ground arith
  dispatcher_step-Stays r s (DispatcherPc.ending (closing k)) = ground arith
  dispatcher_step-Stays r s (DispatcherPc.ending done) = ground arith

  main_step-Stays : (s : State) (pc : MainPc) → After (Stays s) (main_step w s pc)
  unfolding main_step
  main_step-Stays s sleeping = ground arith
  main_step-Stays s joining_ingress = ground arith
  main_step-Stays s (MainPc.closing k) = ground arith
  main_step-Stays s joining_dispatcher = ground arith
  main_step-Stays s joining_workers = ground arith
  main_step-Stays s finished = tt

  -- A property that each step of each thread keeps while nothing throws.
  pub record IsKept (P : State → Type 0) : Type 0 where
    pub by_ingress :
        (r : Reading) (s : State) (i : ℕ) (t : Ingress)
        → P s
        → get_elem? s.ingress i ≡ some t
        → After P (ingress_step p w r s i t t.pc)
    pub by_worker :
        (r : Reading) (s : State) (i : ℕ) (t : Worker)
        → P s
        → get_elem? s.workers i ≡ some t
        → After P (worker_step p w r s i t t.pc)
    pub by_dispatcher :
        (r : Reading) (s : State) → P s → After P (dispatcher_step p r s s.dispatcher)
    pub by_main : (s : State) → P s → After P (main_step w s s.main)

  step-Stays : (s : State) (c : Choice) → After (Stays s) (step p w s c)
  unfolding step ingress_throws worker_throws dispatcher_throws
  step-Stays s (ingress i r) = elim (Option-cases (get_elem? s.ingress i)) [
    | inl e ↦ rw (e, step) tt
    | inr (t, e) ↦ rw (e, step) (ingress_step-Stays r s i t t.pc)
  ]
  step-Stays s (worker i r) = elim (Option-cases (get_elem? s.workers i)) [
    | inl e ↦ rw (e, step) tt
    | inr (t, e) ↦ rw (e, step) (worker_step-Stays r s i t t.pc)
  ]
  step-Stays s (dispatcher r) = dispatcher_step-Stays r s s.dispatcher
  step-Stays s main = main_step-Stays s s.main
  step-Stays s (ingress_throw i e) = ground arith
  step-Stays s (worker_throw i e) = ground arith
  step-Stays s (dispatcher_throw e) = ground arith

  step-keeps :
      (P : State → Type 0)
      → IsKept P
      → (s : State) → P s
      → (c : Choice) (t : State) → step p w s c ≡ some t
      → t.thread_error ≡ none
      → P t
  unfolding step ingress_throws worker_throws dispatcher_throws
  step-keeps P k s h (ingress i r) t st calm = elim (Option-cases (get_elem? s.ingress i)) [
    | inl e ↦ absurd (ground arith)
    | inr (x, e) ↦ After-some P _ (k.by_ingress r s i x h e) (rw (e, step) at st)
  ]
  step-keeps P k s h (worker i r) t st calm = elim (Option-cases (get_elem? s.workers i)) [
    | inl e ↦ absurd (ground arith)
    | inr (x, e) ↦ After-some P _ (k.by_worker r s i x h e) (rw (e, step) at st)
  ]
  step-keeps P k s h (dispatcher r) t st calm = After-some P _ (k.by_dispatcher r s h) st
  step-keeps P k s h main t st calm = After-some P _ (k.by_main s h) st
  step-keeps P k s h (ingress_throw i e) t st calm = absurd (ground arith)
  step-keeps P k s h (worker_throw i e) t st calm = absurd (ground arith)
  step-keeps P k s h (dispatcher_throw e) t st calm = absurd (ground arith)

  -- It holds in every state of a run without exceptions.
  pub Reach-IsKept :
      (P : State → Type 0)
      → IsKept P
      → {s₀ t : State} → P s₀
      → Reach p w s₀ t
      → t.thread_error ≡ none
      → P t
  Reach-IsKept P k h here calm = h
  Reach-IsKept P k h (next {s} {t} c r st) calm =
      step-keeps P k s (Reach-IsKept P k h r (After-some (Stays s) _ (step-Stays s c) st calm)) c t
        st calm
