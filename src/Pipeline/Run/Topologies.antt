-- ===== src/Pipeline/Run/Topologies.antt =====
-- pipeline.cpp: `runSharedQueuePipeline`, `runDispatchLocalSpscPipeline`,
-- `runDirectLocalSpscPipeline` and `runPipelineScenario`. A run is given by the clock's reading at
-- its start, the interval that the rate comes to, and the order of the threads' steps.
use Prim.Native.Nat.{bit_xor}
use laboratory.Base.{
  ℕ, zero, suc, ◌+◌, ◌%◌, false, List, [], ◌∷◌, map, replicate, Option, some, none, Result, ok,
  ◌>>=◌, ◌>>◌,
}
use laboratory.Base.Int.{ℤ, pos, ◌+ℤ◌, to_ℕ}
use laboratory.Base.Double.{Double}
use laboratory.Queue.{spsc_ring, QueueStats, zero_stats, snapshot_queue_stats}
use laboratory.Pipeline.{PipelineConfig, shared_queue, dispatch_local_spsc, direct_local_spsc}
use laboratory.Queue.Factory.{make_queue}
use laboratory.Pipeline.SetUp.{worker_queues}
use laboratory.Pipeline.Config.{validate_pipeline_config}
use laboratory.Pipeline.Stats.{merge_all}
use laboratory.Pipeline.Result.{PipelineResult, finalize_result, ms_to_ns}
use laboratory.Pipeline.Channel.{Channel, empty_channel}
use laboratory.Pipeline.Run.{
  Plan, Wiring, Ingress, starting, Worker, WorkerPc, DispatcherPc, sleeping, finished, State, done,
}
use laboratory.Pipeline.Run.Schedule.{Choice, run}

-- By the workers, where all threads of a kind use one queue.
unfoldable pub shared_wiring : ℕ → Wiring
shared_wiring workers = record {
  target_worker = λ index key. key % workers;
  ingress_queue = λ index. 0;
  worker_queue = λ index. 0;
  seed = 0x9e3779b97f4a7c15;
  main_closes = 1;
}

unfoldable pub dispatch_wiring : ℕ → Wiring
dispatch_wiring workers = record {
  target_worker = λ index key. key % workers;
  ingress_queue = λ index. 0;
  worker_queue = λ index. suc index;
  seed = 0x243f6a8885a308d3;
  main_closes = 1;
}

unfoldable pub direct_wiring : ℕ → Wiring
direct_wiring workers = record {
  target_worker = λ index key. index % workers;
  ingress_queue = λ index. index % workers;
  worker_queue = λ index. index;
  seed = 0x517cc1b727220a95;
  main_closes = workers;
}

-- Worker threads from index `i` on, `n` of them.
unfoldable pub start_workers : ℕ → ℕ → ℕ → List Worker
start_workers seed i zero = []
start_workers seed i (suc n) =
    record {
      metrics = record { completed = 0; latencies_ns = [] };
      rng = bit_xor seed (i + 1);
      pc = WorkerPc.popping;
    }
    ∷ start_workers seed (i + 1) n

abbrev pub start_ingress : Ingress
start_ingress = record { next_fire = 0; seq = 0; pc = starting }

-- The state when all threads have been made.
unfoldable pub start : Wiring → ℤ → ℕ → ℕ → List Channel → DispatcherPc → State
start w warmup_end workers ingress_threads queues dispatcher = record {
  counters = record {
    ingress_stop = false;
    measure_start_ns = warmup_end;
    generated = 0;
    accepted = 0;
    completed = 0;
    dropped_ingress = 0;
    dropped_dispatch = 0;
  };
  queues = queues;
  thread_error = none;
  ingress = replicate ingress_threads start_ingress;
  workers = start_workers w.seed 0 workers;
  dispatcher = dispatcher;
  main = sleeping;
}

-- How a run ends: with its report, or with the recorded exception, thrown again.
pub data Outcome (d : Double) : Type 0 where
  reported : PipelineResult d → Outcome d
  rethrown : ℕ → Outcome d

-- What the surroundings settle in a run: the clock at its start, the interval between two events
-- that the rate comes to, the steps of the threads, the final statistics of the queues, and
-- `std::vector<Event>::max_size()`.
pub record Surroundings : Type 0 where
  pub global_start : ℕ
  pub interval : ℕ
  pub choices : List Choice
  pub stats : List QueueStats
  pub max_size : ℕ

module _ (d : Double) (config : PipelineConfig d) where
  abbrev pub worker_count : ℕ
  worker_count = to_ℕ config.worker_threads

  abbrev pub warmup_end : ℕ → ℤ
  warmup_end global_start = pos global_start +ℤ ms_to_ns config.warmup

  unfoldable pub plan_of : Surroundings → Plan
  plan_of c = record {
    workers = worker_count;
    policy = config.policy;
    rate_limited = d.lt (d.of_ℕ 0) config.rate_per_ingress;
    interval = c.interval;
    measure_end = warmup_end c.global_start +ℤ ms_to_ns config.duration;
    service_ns = config.service_ns;
    jitter_ns = config.jitter_ns;
  }

  unfoldable pub start_of : Wiring → Surroundings → List Channel → DispatcherPc → State
  start_of w c = start w (warmup_end c.global_start) worker_count (to_ℕ config.ingress_threads)

  -- The end of the run functions, once the main thread has joined all others. `none`: it has not.
  unfoldable pub outcome : QueueStats → QueueStats → State → Option (Outcome d)
  outcome ingress_queue_stats worker_queue_stats s = elim s.main [
    | finished ↦ elim s.thread_error [
      | none ↦ some (
          reported (
            finalize_result d config s.counters (map (λ t. t.metrics) s.workers) ingress_queue_stats
              worker_queue_stats))
      | some e ↦ some (rethrown e)
    ]
    | other ↦ none
  ]

  -- The final state of a run and what is made of it.
  abbrev pub ends_as : QueueStats → QueueStats → Option State → Option (Outcome d)
  ends_as ingress_queue_stats worker_queue_stats none = none
  ends_as ingress_queue_stats worker_queue_stats (some s) =
      outcome ingress_queue_stats worker_queue_stats s

  abbrev pub own_queues : List Channel
  own_queues = replicate worker_count (empty_channel spsc_ring config.worker_queue_capacity)

  abbrev pub no_dispatcher : DispatcherPc
  no_dispatcher = DispatcherPc.ending done

  abbrev pub first_stats : List QueueStats → QueueStats
  first_stats [] = zero_stats
  first_stats (s ∷ rest) = snapshot_queue_stats s

  abbrev pub other_stats : List QueueStats → QueueStats
  other_stats [] = zero_stats
  other_stats (s ∷ rest) = merge_all zero_stats (map snapshot_queue_stats rest)

  unfoldable pub run_shared_queue_pipeline : Surroundings → Result (Option (Outcome d))
  run_shared_queue_pipeline c = do
    made ←
        make_queue c.max_size config.shared_queue_kind config.ingress_queue_capacity
          config.wait_strategy
    let w = shared_wiring worker_count
    let channel = empty_channel config.shared_queue_kind config.ingress_queue_capacity
    let s = start_of w c (channel ∷ []) no_dispatcher
    ok (ends_as (first_stats c.stats) zero_stats (run (plan_of c) w s c.choices))

  unfoldable pub run_dispatch_local_spsc_pipeline : Surroundings → Result (Option (Outcome d))
  run_dispatch_local_spsc_pipeline c = do
    made ←
        make_queue c.max_size config.dispatch_queue_kind config.ingress_queue_capacity
          config.wait_strategy
    own ← worker_queues d c.max_size config worker_count
    let w = dispatch_wiring worker_count
    let channel = empty_channel config.dispatch_queue_kind config.ingress_queue_capacity
    let s = start_of w c (channel ∷ own_queues) DispatcherPc.popping
    ok (ends_as (first_stats c.stats) (other_stats c.stats) (run (plan_of c) w s c.choices))

  unfoldable pub run_direct_local_spsc_pipeline : Surroundings → Result (Option (Outcome d))
  run_direct_local_spsc_pipeline c = do
    own ← worker_queues d c.max_size config worker_count
    let w = direct_wiring worker_count
    let s = start_of w c own_queues no_dispatcher
    ok (
        ends_as zero_stats (merge_all zero_stats (map snapshot_queue_stats c.stats))
          (run (plan_of c) w s c.choices))

  unfoldable pub run_pipeline_scenario : Surroundings → Result (Option (Outcome d))
  run_pipeline_scenario c = do
    validate_pipeline_config d config
    elim config.topology [
      | shared_queue ↦ run_shared_queue_pipeline c
      | dispatch_local_spsc ↦ run_dispatch_local_spsc_pipeline c
      | direct_local_spsc ↦ run_direct_local_spsc_pipeline c
    ]
