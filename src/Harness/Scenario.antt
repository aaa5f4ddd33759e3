-- ===== src/Harness/Scenario.antt =====
-- harness.hpp and harness.cpp: the result of `runScenario`, and the function as a whole.
use laboratory.Base.{
  ℕ, ◌+◌, ◌-◌, ◌*◌, false, List, [], length, replicate, Option, some, none, Result, ok, ◌>>=◌, ◌>>◌,
  if◌then◌else◌,
}
use laboratory.Base.Int.{ℤ, pos, negsuc, ◌+ℤ◌, to_ℕ}
use laboratory.Base.Double.{Double}
use laboratory.Queue.{QueueKind, QueueStats, snapshot_queue_stats}
use laboratory.Queue.Names.{parse_queue_kind}
use laboratory.Queue.Factory.{make_queue}
use laboratory.Pipeline.Channel.{empty_channel}
use laboratory.Pipeline.Result
use laboratory.Pipeline.Result.{sort, is_empty, sum_latencies, ms_to_ns}
use laboratory.Harness.{ScenarioConfig, validate_scenario_config}
use laboratory.Harness.Run.{State, Plan, ProducerPc, ConsumerPc, sleeping, finished, Choice, run}

-- Seconds as nanoseconds.
abbrev pub s_to_ns : ℤ → ℤ
s_to_ns (pos n) = ms_to_ns (pos (n * 1000))
s_to_ns (negsuc n) = ms_to_ns (negsuc ((n + 1) * 1000 - 1))

module _ (d : Double) where
  open d use {F, of_ℕ, of_ℤ, lt, div}

  pub record ScenarioResult : Type 0 where
    pub tps : F
    pub avg_latency_us : F
    pub p95_latency_us : F
    pub p99_latency_us : F
    pub produced : ℕ
    pub consumed : ℕ
    pub dropped : ℕ
    pub queue_stats : QueueStats
    pub elapsed : ℤ
    pub samples : ℕ

  -- The function of this name in harness.cpp has the body of that in pipeline.cpp.
  abbrev pub percentile_latency_us : List ℤ → F → F
  percentile_latency_us = Result.percentile_latency_us d

-- What the surroundings settle in a run.
pub record Surroundings : Type 0 where
  pub global_start : ℕ
  pub interval : ℕ
  pub choices : List Choice
  pub stats : QueueStats
  pub max_size : ℕ

module _ (d : Double) (config : ScenarioConfig d) where
  open d use {F, of_ℕ, of_ℤ, lt, div}

  -- The report, made once all threads are joined.
  unfoldable pub result_of : State → QueueStats → ScenarioResult d
  result_of s stats =
      let samples = s.latencies_ns in
      let none_taken = is_empty samples in
      let avg_ns = div (sum_latencies d (of_ℕ 0) samples) (of_ℕ (length samples)) in
      let measure_s = of_ℤ config.duration in
      record {
        tps = if lt (of_ℕ 0) measure_s then div (of_ℕ s.counters.consumed) measure_s else of_ℕ 0;
        avg_latency_us = if none_taken then of_ℕ 0 else div avg_ns (of_ℕ 1000);
        p95_latency_us =
            if none_taken then of_ℕ 0 else percentile_latency_us d (sort samples) (of_ℕ 95);
        p99_latency_us =
            if none_taken then of_ℕ 0 else percentile_latency_us d (sort samples) (of_ℕ 99);
        produced = s.counters.produced;
        consumed = s.counters.consumed;
        dropped = s.counters.dropped;
        queue_stats = snapshot_queue_stats stats;
        elapsed = s_to_ns config.duration;
        samples = length samples;
      }

  abbrev pub warmup_end : ℕ → ℤ
  warmup_end global_start = pos global_start +ℤ s_to_ns config.warmup

  unfoldable pub plan_of : Surroundings → Plan
  plan_of c = record {
    policy = config.policy;
    rate_limited = lt (of_ℕ 0) config.rate_per_producer;
    interval = c.interval;
    measure_end = warmup_end c.global_start +ℤ s_to_ns config.duration;
  }

  -- The state when all threads have been made.
  unfoldable pub start : QueueKind → Surroundings → State
  start kind c = record {
    counters = record {
      stop = false;
      measure_start_ns = warmup_end c.global_start;
      produced = 0;
      consumed = 0;
      dropped = 0;
    };
    queue = empty_channel kind config.capacity;
    producers =
        replicate (to_ℕ config.producers)
          (record { next_fire = 0; seq = 0; pc = ProducerPc.starting });
    consumer = ConsumerPc.popping;
    latencies_ns = [];
    main = sleeping;
  }

  -- `none`: the main thread has not joined all others.
  abbrev pub ends_as : QueueStats → Option State → Option (ScenarioResult d)
  ends_as stats none = none
  ends_as stats (some s) = elim s.main [ finished ↦ some (result_of s stats) | other ↦ none ]

  unfoldable pub run_scenario : Surroundings → Result (Option (ScenarioResult d))
  run_scenario c = do
    kind ← parse_queue_kind config.queue_type
    validate_scenario_config d config kind
    made ← make_queue c.max_size kind config.capacity config.wait_strategy
    ok (ends_as c.stats (run (plan_of c) (start kind c) c.choices))
