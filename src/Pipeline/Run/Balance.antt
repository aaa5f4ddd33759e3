-- ===== src/Pipeline/Run/Balance.antt =====
-- What the counters of a run come to: where the measured events are.
pub mod Queues
mod ByIngress
mod ByWorker
mod ByDispatcher
mod ByMain
pub mod Totals
use laboratory.Base.{
  ℕ, suc, ◌+◌, ◌%◌, ◌≤◌, ◌<◌, ◌≡◌, Bool, true, false, ◌&&◌, List, [], ◌∷◌, length, All, total,
  if◌then◌else◌,
}
use laboratory.Base.Int.{ℤ, pos, leb_ℤ}
use laboratory.Queue.{Event, two_64}
use laboratory.Pipeline.Channel.{Channel, is_drop}
use laboratory.Pipeline.Run.{
  Plan, Wiring, Ingress, IngressPc, Worker, WorkerPc, DispatcherPc, State, Ending, done,
}
use laboratory.Pipeline.Run.DispatcherLoop.{is_ending}

abbrev pub one : Bool → ℕ
one true = 1
one false = 0

-- Whether an event is created in the measured time.
abbrev pub measures : ℤ → Event → Bool
measures start ev = leb_ℤ (pos 0) start && leb_ℤ start (pos ev.created_at)

abbrev pub weight : ℤ → Event → ℕ
weight start ev = one (measures start ev)

-- The measured events that wait in a queue.
abbrev pub queued : ℤ → Channel → ℕ
queued start c = total (weight start) c.waiting

-- An event that an ingress thread has counted as generated only.
abbrev pub offered : IngressPc → ℕ
offered (IngressPc.pushing ev m) = one m
offered (IngressPc.counting ok m) = one m
offered pc = 0

-- An event that a queue has accepted and its ingress thread has not counted yet.
abbrev pub unreported : IngressPc → ℕ
unreported (IngressPc.counting true m) = one m
unreported pc = 0

abbrev pub in_work : ℤ → WorkerPc → ℕ
in_work start (WorkerPc.working ev) = weight start ev
in_work start pc = 0

-- An event in the dispatcher's hands, or refused and not counted yet.
abbrev pub in_dispatch : ℤ → DispatcherPc → ℕ
in_dispatch start (DispatcherPc.pushing ev m) = weight start ev
in_dispatch start (DispatcherPc.counting false m) = one m
in_dispatch start pc = 0

-- Nothing was thrown, and the thread's flag is that of its event.
abbrev pub IngressFine : ℤ → IngressPc → Type 0
IngressFine start (IngressPc.pushing ev m) = m ≡ measures start ev
IngressFine start (IngressPc.ending e) = e ≡ done
IngressFine start pc = Unit

abbrev pub WorkerFine : WorkerPc → Type 0
WorkerFine (WorkerPc.ending e) = e ≡ done
WorkerFine pc = Unit

-- Without exceptions the dispatcher's queues are open, so only `Drop` refuses.
abbrev pub DispatcherFine : Plan → ℤ → DispatcherPc → Type 0
DispatcherFine p start (DispatcherPc.pushing ev m) = m ≡ measures start ev
DispatcherFine p start (DispatcherPc.counting ok m) = (ok ≡ false → is_drop p.policy ≡ true)
DispatcherFine p start (DispatcherPc.ending Ending.stopping) = true ≡ false
DispatcherFine p start pc = Unit

abbrev pub IsOpen : Channel → Type 0
IsOpen c = c.closed ≡ false

-- The queues behind the first one.
abbrev pub LanesOpen : List Channel → Type 0
LanesOpen [] = Unit
LanesOpen (c ∷ cs) = All IsOpen cs

-- What a worker counted is what it has samples for.
abbrev pub HasSamples : Worker → Type 0
HasSamples t = t.metrics.completed ≡ length t.metrics.latencies_ns % two_64

abbrev pub samples : Worker → ℕ
samples t = length t.metrics.latencies_ns

abbrev pub measure_start : State → ℤ
measure_start s = s.counters.measure_start_ns

pub record IsBalanced (p : Plan) (w : Wiring) (s : State) : Type 0 where
  pub ingress_fine : All (λ t. IngressFine (measure_start s) t.pc) s.ingress
  pub workers_fine : All (λ t. WorkerFine t.pc) s.workers
  pub dispatcher_fine : DispatcherFine p (measure_start s) s.dispatcher
  pub lanes : is_ending s.dispatcher ≡ false → LanesOpen s.queues × (w.main_closes ≤ 1)
  pub has_samples : All HasSamples s.workers
  pub sampled : s.counters.completed ≡ total samples s.workers % two_64
  pub accepted_fits : s.counters.accepted < two_64
  pub generated_once :
      is_drop p.policy ≡ true
      → s.counters.generated
        ≡ (s.counters.accepted + s.counters.dropped_ingress + total (λ t. offered t.pc) s.ingress)
          % two_64
  pub accounted :
      (s.counters.accepted + total (λ t. unreported t.pc) s.ingress) % two_64
      ≡ (s.counters.completed
          + s.counters.dropped_dispatch
          + total (queued (measure_start s)) s.queues
          + total (λ t. in_work (measure_start s) t.pc) s.workers
          + in_dispatch (measure_start s) s.dispatcher)
        % two_64
