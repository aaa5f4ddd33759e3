-- ===== src/Tests/Scenarios.antt =====
-- Runs of harness.cpp at concrete schedules.
use laboratory.Base.{ℕ, ◌%◌, ◌+◌, ◌≡◌, refl, [], ◌∷◌, Option, some, none, Result, ok}
use laboratory.Base.Int.{pos}
use laboratory.Queue.{drop, queue_default, spsc_ring, two_64, zero_stats}
use laboratory.Queue.Factory.{make_queue}
use laboratory.Tests.Runs.{whole}
use laboratory.Queue.Spsc
use laboratory.Queue.Names.{parse_queue_kind}
use laboratory.Harness
use laboratory.Harness.{ScenarioConfig, validate_scenario_config}
use laboratory.Harness.Run.{producer, consumer, producer_step, consumer_step, receive, all_ended}
use laboratory.Harness.Scenario
use laboratory.Harness.Scenario.{run_scenario}
use laboratory.Harness.Run.Reports.{scenario_accounted}
use laboratory.Pipeline.Channel.{push_call, pop_look, pop_flags}
use laboratory.Pipeline.Run.Balance.{queued}
use laboratory.Tests.Pipelines.{reading}

abbrev measuring : ScenarioConfig whole
measuring = record {
  producers = pos 1;
  consumers = pos 1;
  duration = pos 1;
  warmup = pos 0;
  capacity = 4;
  rate_per_producer = 0;
  policy = drop;
  queue_type = "spsc";
  wait_strategy = queue_default;
}

-- One event is produced and consumed, and one is left in the queue.
abbrev scenario_run : Scenario.Surroundings
scenario_run = record {
  global_start = 10;
  interval = 0;
  choices =
      producer 0 reading
      ∷ producer 0 reading
      ∷ producer 0 reading
      ∷ producer 0 reading
      ∷ producer 0 reading
      ∷ consumer reading
      ∷ consumer reading
      ∷ consumer reading
      ∷ producer 0 reading
      ∷ producer 0 reading
      ∷ producer 0 reading
      ∷ producer 0 reading
      ∷ Harness.Run.main
      ∷ Harness.Run.main
      ∷ producer 0 reading
      ∷ consumer reading
      ∷ Harness.Run.main
      ∷ Harness.Run.main
      ∷ [];
  stats = zero_stats;
  max_size = 9;
}

abbrev counts_of : Result (Option (Scenario.ScenarioResult whole)) → Option (ℕ × ℕ × ℕ)
counts_of (ok (some r)) = some (r.produced, r.consumed, r.samples)
counts_of other = none

one_is_left : counts_of (run_scenario whole measuring scenario_run) ≡ some (2, 1, 1)
unfolding Harness.Run.run Harness.Run.step Harness.Run.main_step producer_step consumer_step
    Harness.Run.fire_or_wait Harness.Run.count_push Harness.Run.make_event Harness.Run.take receive
    all_ended Scenario.start run_scenario Scenario.plan_of Scenario.result_of push_call pop_look
    pop_flags validate_scenario_config make_queue parse_queue_kind Spsc.make
one_is_left = refl

abbrev scenario_start : Harness.Run.State
scenario_start = Scenario.start whole measuring spsc_ring scenario_run

abbrev scenario_last : Option Harness.Run.State → Harness.Run.State
scenario_last none = scenario_start
scenario_last (some s) = s

abbrev scenario_report : Scenario.ScenarioResult whole
scenario_report =
    Scenario.result_of whole measuring
      (scenario_last (
        Harness.Run.run (Scenario.plan_of whole measuring scenario_run) scenario_start
          scenario_run.choices))
      zero_stats

scenario_accounted_example :
    (s : Harness.Run.State) × (Harness.Run.run
        (Scenario.plan_of whole measuring scenario_run)
        scenario_start
        scenario_run.choices
      ≡ some s)
    × (scenario_report.produced
        ≡ (scenario_report.consumed + queued s.counters.measure_start_ns s.queue) % two_64)
    × (scenario_report.consumed ≡ scenario_report.samples % two_64)
unfolding Harness.Run.run Harness.Run.step Harness.Run.main_step producer_step consumer_step
    Harness.Run.fire_or_wait Harness.Run.count_push Harness.Run.make_event Harness.Run.take receive
    all_ended Scenario.start run_scenario Scenario.plan_of Scenario.result_of push_call pop_look
    pop_flags validate_scenario_config make_queue parse_queue_kind Spsc.make
scenario_accounted_example =
    scenario_accounted whole measuring spsc_ring scenario_run scenario_report refl refl
