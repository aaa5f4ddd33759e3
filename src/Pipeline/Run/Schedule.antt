-- ===== src/Pipeline/Run/Schedule.antt =====
-- pipeline.cpp: the main thread of the three run functions, and runs: any order of the steps of
-- all threads.
use laboratory.Base.{
  ℕ, suc, Bool, true, false, ◌&&◌, ◌≡◌, subst, Option-cases, inl, inr, arith, List, [], ◌∷◌, Option,
  some, none, set, get_elem?, ltb, if◌then◌else◌,
}
use laboratory.Pipeline.Channel.{close}
use laboratory.Pipeline.Run.{
  Plan, Wiring, Ingress, IngressPc, Worker, WorkerPc, DispatcherPc, MainPc, sleeping,
  joining_ingress, joining_dispatcher, joining_workers, finished, State, Reading, Ending, stopping,
  closing, done,
}
use laboratory.Pipeline.Run.IngressLoop.{ingress_step, ingress_throws}
use laboratory.Pipeline.Run.WorkerLoop.{worker_step, worker_throws}
use laboratory.Pipeline.Run.DispatcherLoop.{dispatcher_step, dispatcher_throws}

abbrev pub has_ended : Ending → Bool
has_ended done = true
has_ended stopping = false
has_ended (closing k) = false

abbrev pub ingress_ended : IngressPc → Bool
ingress_ended (IngressPc.ending e) = has_ended e
ingress_ended pc = false

abbrev pub worker_ended : WorkerPc → Bool
worker_ended (WorkerPc.ending e) = has_ended e
worker_ended pc = false

abbrev pub dispatcher_ended : DispatcherPc → Bool
dispatcher_ended (DispatcherPc.ending e) = has_ended e
dispatcher_ended pc = false

-- Whether a loop of `join` is through.
unfoldable pub all_ingress_ended : List Ingress → Bool
all_ingress_ended [] = true
all_ingress_ended (t ∷ ts) = ingress_ended t.pc && all_ingress_ended ts

unfoldable pub all_workers_ended : List Worker → Bool
all_workers_ended [] = true
all_workers_ended (t ∷ ts) = worker_ended t.pc && all_workers_ended ts

abbrev pub put : State → MainPc → State
put s pc = record s { main = pc }

-- The main thread sleeps until the measurement is over, sets the flag, joins the ingress threads,
-- closes its queues and joins the others. `none`: it waits.
unfoldable pub main_step : Wiring → State → MainPc → Option State
main_step w s sleeping =
    some (record s { counters = record s.counters { ingress_stop = true }; main = joining_ingress })
main_step w s joining_ingress =
    if all_ingress_ended s.ingress then some (put s (MainPc.closing 0)) else none
main_step w s (MainPc.closing k) =
    if ltb k w.main_closes
    then (elim (get_elem? s.queues k) [
      | none ↦ none
      | some c ↦
          some (record s { queues = set s.queues k (close c); main = MainPc.closing (suc k) })
    ])
    else some (put s joining_dispatcher)
main_step w s joining_dispatcher =
    if dispatcher_ended s.dispatcher then some (put s joining_workers) else none
main_step w s joining_workers = if all_workers_ended s.workers then some (put s finished) else none
main_step w s finished = none

-- Which thread makes the next step, and what the surroundings settle in it; or whose loop throws.
pub data Choice : Type 0 where
  ingress : ℕ → Reading → Choice
  worker : ℕ → Reading → Choice
  dispatcher : Reading → Choice
  main : Choice
  ingress_throw : ℕ → ℕ → Choice
  worker_throw : ℕ → ℕ → Choice
  dispatcher_throw : ℕ → Choice

-- `none`: that thread cannot make that step.
unfoldable pub step : Plan → Wiring → State → Choice → Option State
step p w s (ingress i r) = elim (get_elem? s.ingress i) [
  | none ↦ none
  | some t ↦ ingress_step p w r s i t t.pc
]
step p w s (worker i r) = elim (get_elem? s.workers i) [
  | none ↦ none
  | some t ↦ worker_step p w r s i t t.pc
]
step p w s (dispatcher r) = dispatcher_step p r s s.dispatcher
step p w s main = main_step w s s.main
step p w s (ingress_throw i e) = elim (get_elem? s.ingress i) [
  | none ↦ none
  | some t ↦ ingress_throws e s i t
]
step p w s (worker_throw i e) = elim (get_elem? s.workers i) [
  | none ↦ none
  | some t ↦ worker_throws e s i t
]
step p w s (dispatcher_throw e) = dispatcher_throws e s

-- The states that a run passes through.
pub data Reach (p : Plan) (w : Wiring) (s₀ : State) : State → Type 0 where
  here : Reach p w s₀ s₀
  next : {s t : State} (c : Choice) → Reach p w s₀ s → step p w s c ≡ some t → Reach p w s₀ t

-- The run of a schedule.
unfoldable pub run : Plan → Wiring → State → List Choice → Option State
run p w s [] = some s
run p w s (c ∷ cs) = elim (step p w s c) [ none ↦ none | some t ↦ run p w t cs ]

-- A schedule that can be run is a run.
pub run-Reach :
    (p : Plan) (w : Wiring) (s : State) (cs : List Choice) {t : State}
    → run p w s cs ≡ some t
    → Reach p w s t
unfolding run
run-Reach p w s cs h = after here cs h
  where
    after :
        {u : State}
        → Reach p w s u
        → (ds : List Choice) {t : State} → run p w u ds ≡ some t
        → Reach p w s t
    after r [] e = subst (Reach p w s) (ground arith) r
    after {u} r (d ∷ ds) e = elim (Option-cases (step p w u d)) [
      | inl x ↦ absurd (ground arith)
      | inr (v, x) ↦ after (next d r x) ds (rw (x, run) at e)
    ]
