-- ===== src/Pipeline/Run.antt =====
-- pipeline.cpp, the state of a run: the queues, the counters, the recorded exception, and where
-- each thread of `runSharedQueuePipeline`, `runDispatchLocalSpscPipeline` and
-- `runDirectLocalSpscPipeline` stands, with its locals.
pub mod IngressLoop
pub mod WorkerLoop
pub mod DispatcherLoop
pub mod Schedule
pub mod Rule
pub mod Routes
pub mod Reports
pub mod Drained
pub mod Joined
pub mod Balance
pub mod Topologies
use laboratory.Base.{ℕ, suc, Bool, true, List, Option, some, none, set, get_elem?}
use laboratory.Base.Int.{ℤ}
use laboratory.Queue.{Event, BackpressurePolicy}
use laboratory.Pipeline.{PipelineState, WorkerMetrics}
use laboratory.Pipeline.Channel.{Channel, close}

-- What the threads read of the configuration. Times are in nanoseconds on the clock's epoch.
pub record Plan : Type 0 where
  pub workers : ℕ
  pub policy : BackpressurePolicy
  pub rate_limited : Bool
  pub interval : ℕ
  pub measure_end : ℤ
  pub service_ns : ℕ
  pub jitter_ns : ℕ

-- How the three run functions differ. The queues stand in one list: the shared queue; or the
-- dispatch queue and then those of the workers; or those of the workers.
pub record Wiring : Type 0 where
  pub target_worker : ℕ → ℕ → ℕ  -- of an event, from its ingress thread and its route key
  pub ingress_queue : ℕ → ℕ  -- the queue that an ingress thread pushes to
  pub worker_queue : ℕ → ℕ  -- the queue that a worker pops from
  pub seed : ℕ
  pub main_closes : ℕ  -- how many queues the main thread closes, the first ones

-- The end of a thread: after `recordError` it sets `ingress_stop` and closes the queues, one
-- after the other, or those from a first one on.
pub data Ending : Type 0 where
  stopping : Ending
  closing : ℕ → Ending
  done : Ending

pub data IngressPc : Type 0 where
  starting : IngressPc  -- before `next_fire`
  head : IngressPc  -- the loop's test
  checked : IngressPc  -- the flag was not set
  pushing : Event → Bool → IngressPc  -- in `push`, with `measured`
  counting : Bool → Bool → IngressPc  -- with `ok` and `measured`
  ending : Ending → IngressPc

pub record Ingress : Type 0 where
  pub next_fire : ℕ
  pub seq : ℕ
  pub pc : IngressPc

pub data WorkerPc : Type 0 where
  popping : WorkerPc
  looked : WorkerPc  -- in `pop`, which found the queue empty
  working : Event → WorkerPc
  ending : Ending → WorkerPc

pub record Worker : Type 0 where
  pub metrics : WorkerMetrics
  pub rng : ℕ
  pub pc : WorkerPc

pub data DispatcherPc : Type 0 where
  popping : DispatcherPc
  looked : DispatcherPc
  pushing : Event → Bool → DispatcherPc
  counting : Bool → Bool → DispatcherPc
  ending : Ending → DispatcherPc

pub data MainPc : Type 0 where
  sleeping : MainPc
  joining_ingress : MainPc
  closing : ℕ → MainPc
  joining_dispatcher : MainPc
  joining_workers : MainPc
  finished : MainPc

pub record State : Type 0 where
  pub counters : PipelineState
  pub queues : List Channel
  pub thread_error : Option ℕ  -- exceptions are numbered
  pub ingress : List Ingress
  pub workers : List Worker
  pub dispatcher : DispatcherPc
  pub main : MainPc

-- `recordError`: the first exception is kept.
abbrev pub record_error : ℕ → Option ℕ → Option ℕ
record_error e none = some e
record_error e (some first) = some first

-- What the surroundings settle in a step: the clock's readings, the result of a `push` that can
-- have either, and whether a semaphore hands out the event that it counts.
pub record Reading : Type 0 where
  pub now : ℕ
  pub created : ℕ
  pub ok : Bool

-- One step of the end of a thread that closes the queues from the `first` on.
unfoldable pub end_step : ℕ → State → Ending → Option (State × Ending)
end_step first s stopping =
    some (record s { counters = record s.counters { ingress_stop = true } }, closing first)
end_step first s (closing k) = elim (get_elem? s.queues k) [
  | none ↦ some (s, done)
  | some c ↦ some (record s { queues = set s.queues k (close c) }, closing (suc k))
]
end_step first s done = none
