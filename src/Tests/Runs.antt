-- ===== src/Tests/Runs.antt =====
-- Configurations, command lines and reports at concrete inputs. Whole numbers stand for the
-- floating point numbers.
use laboratory.Base.{
  ◌^◌, ℕ, ◌+◌, ◌-◌, ◌*◌, ◌/◌, ◌%◌, ◌≡◌, ◌↔◌, refl, List, [], ◌∷◌, true, false, some, none, ok, err,
  ◌>>=◌, Error, arith, ltb, leb, total, length,
}
use laboratory.Base.Int.{pos, negsuc, to_ℕ}
use laboratory.Base.Double.{Double}
use laboratory.Base.Numbers.{stoi, stoull}
use laboratory.Queue.{
  QueueStats, global_lock, mpmc_ring, spsc_ring, queue_default, spin_yield, block, zero_stats,
  two_64, cas_max, update_max_depth,
}
use laboratory.Queue.Waiter.{pauses, pauses_lem}
use laboratory.Queue.Statistics.{cas_max-update_max_depth}
use laboratory.Queue.Factory.{EventQueue, make_queue, kind_of, make_queue_lem}
use laboratory.Pipeline.{
  PipelineConfig, PipelineState, WorkerMetrics, dispatch_local_spsc, direct_local_spsc,
}
use laboratory.Pipeline.Config.{IsValid, validate_pipeline_config, validate_pipeline_config_iff}
use laboratory.Pipeline.SetUp.{set_up_queues, kinds, set_up_after_validation}
use laboratory.Pipeline.Stats.{merge_all, work_ns}
use laboratory.Pipeline.Stats.Merge.{summed, merge_all_lem}
use laboratory.Pipeline.Result.{finalize_result, all_latencies, completed_min, completed_max}
use laboratory.Pipeline.Result.Laws.{IsSample, Between, percentiles_are_samples, finalize_counts}
use laboratory.Harness
use laboratory.Harness.{ScenarioConfig, validate_scenario_config, validate_scenario_config_iff}
use laboratory.Cli.{parse_args, configured}
use laboratory.Cli.PipelineMain
use laboratory.Cli.PipelineMain.Reproduce.{printed_options, parse_args-printed_options}

abbrev pub whole : Double
whole = record {
  F = ℕ;
  of_ℕ = λ n. n;
  of_ℤ = to_ℕ;
  lt = ltb;
  le = leb;
  add = λ a b. a + b;
  sub = λ a b. a - b;
  mul = λ a b. a * b;
  div = λ a b. a / b;
  sqrt = λ a. a;
  llround = λ a. a;
  stod = λ s. elim (stoull s) [ ok n ↦ some n | err e ↦ none ];
}

stoi_runs : (stoi " -42x" ≡ ok (negsuc 41)) × (stoi "2147483648" ≡ err Error.bad_number)
unfolding stoi
stoi_runs = (refl, refl)

abbrev dispatching : PipelineConfig whole
dispatching = record {
  ingress_threads = pos 2;
  worker_threads = pos 2;
  duration = pos 100;
  warmup = pos 0;
  ingress_queue_capacity = 8;
  worker_queue_capacity = 4;
  rate_per_ingress = 0;
  policy = block;
  wait_strategy = queue_default;
  topology = dispatch_local_spsc;
  shared_queue_kind = global_lock;
  dispatch_queue_kind = mpmc_ring;
  service_ns = 0;
  jitter_ns = 0;
}

validate_pipeline_config_iff_example :
    (validate_pipeline_config whole dispatching ≡ ok tt) ↔ IsValid whole dispatching
validate_pipeline_config_iff_example = validate_pipeline_config_iff whole dispatching

dispatching_accepted : validate_pipeline_config whole dispatching ≡ ok tt
unfolding validate_pipeline_config
dispatching_accepted = refl

set_up_after_validation_example :
    (qs : List EventQueue × List EventQueue) × (set_up_queues whole 9 dispatching ≡ ok qs)
    × (kinds 9 whole dispatching (omega arith) qs ≡ (mpmc_ring ∷ [], spsc_ring ∷ spsc_ring ∷ []))
set_up_after_validation_example =
    set_up_after_validation 9 whole dispatching (omega arith) dispatching_accepted (omega arith)
      (omega arith)

abbrev scenario : ScenarioConfig whole
scenario = record {
  producers = pos 1;
  consumers = pos 1;
  duration = pos 1;
  warmup = pos 0;
  capacity = 4;
  rate_per_producer = 0;
  policy = block;
  queue_type = "spsc";
  wait_strategy = queue_default;
}

validate_scenario_config_iff_example :
    (validate_scenario_config whole scenario spsc_ring ≡ ok tt)
    ↔ Harness.IsValid whole scenario spsc_ring
validate_scenario_config_iff_example = validate_scenario_config_iff whole scenario spsc_ring

queue_without_room :
    (make_queue 9 mpmc_ring 0 queue_default >>= λ q. ok (kind_of q)) ≡ err Error.mpmc_capacity_zero
queue_without_room = make_queue_lem 9 mpmc_ring 0 queue_default

abbrev two_workers : List WorkerMetrics
two_workers =
    record { completed = 2; latencies_ns = pos 7000 ∷ pos 5000 ∷ [] }
    ∷ record { completed = 1; latencies_ns = pos 9000 ∷ [] }
    ∷ []

abbrev counters : PipelineState
counters = record {
  ingress_stop = true;
  measure_start_ns = pos 0;
  generated = 4;
  accepted = 3;
  completed = 3;
  dropped_ingress = 1;
  dropped_dispatch = 0;
}

report_runs :
    let r = finalize_result whole dispatching counters two_workers zero_stats zero_stats in
    (r.samples ≡ 3) × (r.worker_completed_min ≡ 1) × (r.worker_completed_max ≡ 2)
unfolding finalize_result all_latencies completed_min completed_max
report_runs = (refl, refl, refl)

percentiles_are_samples_example :
    let r = finalize_result whole dispatching counters two_workers zero_stats zero_stats in
    IsSample whole r.p95_latency_us (all_latencies two_workers)
    × IsSample whole r.p99_latency_us (all_latencies two_workers)
unfolding finalize_result all_latencies
percentiles_are_samples_example =
    percentiles_are_samples whole dispatching counters two_workers zero_stats zero_stats
      (omega arith)

report_counted :
    let r = finalize_result whole dispatching counters two_workers zero_stats zero_stats in
    (r.samples ≡ total (λ (m : WorkerMetrics). length m.latencies_ns) two_workers)
    × (r.dropped ≡ (r.dropped_ingress + r.dropped_dispatch) % two_64)
    × Between r.worker_completed_min r.worker_completed_max two_workers
report_counted = finalize_counts whole dispatching counters two_workers zero_stats zero_stats

abbrev some_stats : QueueStats
some_stats = record zero_stats { push_attempts = two_64 - 1; max_observed_depth = 3 }

merge_all_lem_example :
    merge_all zero_stats (some_stats ∷ some_stats ∷ [])
    ≡ summed zero_stats (some_stats ∷ some_stats ∷ [])
merge_all_lem_example = merge_all_lem (some_stats ∷ some_stats ∷ [])

-- A service time of 2^63 comes to a deadline that has passed, as a conversion to a signed number.
nothing_spun : (work_ns (2 ^ 63) 0 5).0 ≡ some (negsuc (2 ^ 63 - 1))
unfolding work_ns
nothing_spun = refl

-- The `max_size()` of a vector of 32-byte events; a ring of 2^60 cells is refused.
abbrev most_events : ℕ
most_events = 2 ^ 58 - 1

ring_too_long :
    (make_queue most_events mpmc_ring (2 ^ 60) queue_default >>= λ q. ok (kind_of q))
    ≡ err Error.length_error
ring_too_long = make_queue_lem most_events mpmc_ring (2 ^ 60) queue_default

three_pauses :
    ((pauses 3 62 zero_stats).0 ≡ 64)
    × ((pauses 3 62 zero_stats).1.spin_count ≡ 2)
    × ((pauses 3 62 zero_stats).1.yield_count ≡ 1)
three_pauses = pauses_lem 3 62 zero_stats (omega arith) (omega arith) (omega arith)

maximum_stored : cas_max (true ∷ true ∷ false ∷ []) 3 3 5 ≡ some (update_max_depth 3 5)
maximum_stored = cas_max-update_max_depth 2 [] 3 5

four_workers :
    parse_args (PipelineMain.options whole) dispatching ("--workers" ∷ "4" ∷ [])
    ≡ ok (configured (record dispatching { worker_threads = pos 4 }))
unfolding parse_args PipelineMain.field_of PipelineMain.set_field stoi
four_workers = refl

parse_args-printed_options_example :
    parse_args
      (PipelineMain.options whole)
      dispatching
      (printed_options whole direct_local_spsc global_lock mpmc_ring spin_yield)
    ≡ ok (
        configured (record dispatching {
          topology = direct_local_spsc;
          shared_queue_kind = global_lock;
          dispatch_queue_kind = mpmc_ring;
          wait_strategy = spin_yield;
        }))
parse_args-printed_options_example =
    parse_args-printed_options whole dispatching direct_local_spsc global_lock mpmc_ring spin_yield
