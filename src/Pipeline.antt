-- ===== src/Pipeline.antt =====
-- custom-queue-latency/src/pipeline.hpp and the helpers of pipeline.cpp: topologies, configuration
-- and its validation, the counters of a run and their merging, the workers' random numbers.
pub mod Channel
pub mod Run
pub mod Config
pub mod Result
pub mod SetUp
pub mod Names
pub mod Stats
use laboratory.Base.{ℕ, List, Bool}
use laboratory.Base.Int.{ℤ}
use laboratory.Base.Double.{Double}
use laboratory.Queue.{BackpressurePolicy, WaitStrategy, QueueKind, QueueStats}

pub data PipelineTopology : Type 0 where
  shared_queue dispatch_local_spsc direct_local_spsc : PipelineTopology

-- Durations are in milliseconds.
pub record PipelineConfig (d : Double) : Type 0 where
  pub ingress_threads : ℤ
  pub worker_threads : ℤ
  pub duration : ℤ
  pub warmup : ℤ
  pub ingress_queue_capacity : ℕ
  pub worker_queue_capacity : ℕ
  pub rate_per_ingress : d.F
  pub policy : BackpressurePolicy
  pub wait_strategy : WaitStrategy
  pub topology : PipelineTopology
  pub shared_queue_kind : QueueKind
  pub dispatch_queue_kind : QueueKind
  pub service_ns : ℕ
  pub jitter_ns : ℕ

pub record WorkerMetrics : Type 0 where
  pub completed : ℕ
  pub latencies_ns : List ℤ

pub record PipelineState : Type 0 where
  pub ingress_stop : Bool
  pub measure_start_ns : ℤ
  pub generated : ℕ
  pub accepted : ℕ
  pub completed : ℕ
  pub dropped_ingress : ℕ
  pub dropped_dispatch : ℕ
