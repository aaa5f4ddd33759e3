-- ===== src/Tests/Pipelines.antt =====
-- Runs of pipeline.cpp at concrete schedules.
use laboratory.Base.{
  ℕ, ◌%◌, ◌+◌, ◌≡◌, refl, true, false, List, [], ◌∷◌, ◌++◌, Option, some, none, total, All,
}
use laboratory.Base.Int.{pos}
use laboratory.Queue.{drop, queue_default, spsc_ring, global_lock, two_64, zero_stats}
use laboratory.Queue.Factory.{make_queue}
use laboratory.Pipeline.{PipelineConfig, shared_queue}
use laboratory.Pipeline.Config.{validate_pipeline_config}
use laboratory.Pipeline.Result.{PipelineResult, finalize_result}
use laboratory.Pipeline.Run.Reports.{no_event_lost}
use laboratory.Tests.Runs.{whole}
use laboratory.Pipeline.Channel.{Channel, empty_channel, push_call, pop_look, pop_flags}
use laboratory.Pipeline.Run.{Plan, State, Reading, DispatcherPc, done, end_step}
use laboratory.Pipeline.Run.IngressLoop.{
  ingress_step, fire, fire_or_wait, push_event, count_push, make_event,
}
use laboratory.Pipeline.Run.WorkerLoop.{worker_step, take, complete, count_event}
use laboratory.Pipeline.Run.Schedule.{
  Choice, ingress, worker, main, run, step, main_step, all_ingress_ended, all_workers_ended,
  run-Reach,
}
use laboratory.Pipeline.Stats.{work_ns}
use laboratory.Pipeline.Run.Topologies.{
  start, start_workers, shared_wiring, direct_wiring, Surroundings, run_pipeline_scenario,
  run_shared_queue_pipeline, plan_of, start_of, outcome,
}
use laboratory.Pipeline.Run.Balance.{queued, measure_start, samples, HasSamples}
use laboratory.Pipeline.Run.Balance.Totals.{events_accounted, drops_counted}

abbrev pub plan : Plan
plan = record {
  workers = 1;
  policy = drop;
  rate_limited = false;
  interval = 0;
  measure_end = pos 100;
  service_ns = 0;
  jitter_ns = 0;
}

abbrev pub reading : Reading
reading = record { now = 20; created = 20; ok = true }

-- An event is made, pushed and counted.
abbrev pub one_event : List Choice
one_event =
    ingress 0 reading
    ∷ ingress 0 reading
    ∷ ingress 0 reading
    ∷ ingress 0 reading
    ∷ ingress 0 reading
    ∷ []

-- The flag is set, the ingress thread ends, the queue is closed.
abbrev shutdown : List Choice
shutdown = main ∷ ingress 0 reading ∷ main ∷ main ∷ main ∷ []

abbrev completed_run : List Choice
completed_run =
    one_event
    ++ (worker 0 reading ∷ worker 0 reading ∷ [])
    ++ shutdown
    ++ (worker 0 reading ∷ worker 0 reading ∷ main ∷ main ∷ [])

abbrev queues : List Channel
queues = empty_channel spsc_ring 4 ∷ []

abbrev s₀ : State
s₀ = start (direct_wiring 1) (pos 10) 1 1 queues (DispatcherPc.ending done)

-- The counters that a run ends with: accepted and completed.
abbrev seen : Option State → Option (ℕ × ℕ)
seen none = none
seen (some s) = some (s.counters.accepted, s.counters.completed)

seen-completed_run : seen (run plan (direct_wiring 1) s₀ completed_run) ≡ some (1, 1)
unfolding run step main_step ingress_step worker_step fire fire_or_wait push_event count_push
    make_event take complete count_event start start_workers direct_wiring push_call pop_look
    pop_flags end_step all_ingress_ended all_workers_ended work_ns
seen-completed_run = refl

-- The worker finds its queue empty; then the event comes and the queue is closed; then the worker
-- loads the flag and ends. The event was accepted and nobody completes it.
abbrev losing_run : List Choice
losing_run =
    (worker 0 reading ∷ []) ++ one_event ++ shutdown ++ (worker 0 reading ∷ main ∷ main ∷ [])

event_is_lost : seen (run plan (direct_wiring 1) s₀ losing_run) ≡ some (1, 0)
unfolding run step main_step ingress_step worker_step fire fire_or_wait push_event count_push
    make_event take complete count_event start start_workers direct_wiring push_call pop_look
    pop_flags end_step all_ingress_ended all_workers_ended work_ns
event_is_lost = refl

-- With the shared queue under one mutex the look and the test are one step.
event_is_kept :
    seen (
      run plan
        (shared_wiring 1)
        (start
          (shared_wiring 1)
          (pos 10)
          1
          1
          (empty_channel global_lock 4 ∷ [])
          (DispatcherPc.ending done))
        ((worker 0 reading ∷ [])
          ++ one_event
          ++ shutdown
          ++ (worker 0 reading ∷ worker 0 reading ∷ worker 0 reading ∷ main ∷ main ∷ [])))
    ≡ some (1, 1)
unfolding run step main_step ingress_step worker_step fire fire_or_wait push_event count_push
    make_event take complete count_event start start_workers shared_wiring push_call pop_look
    pop_flags end_step all_ingress_ended all_workers_ended work_ns
event_is_kept = refl

abbrev from_run : Option State → State
from_run none = s₀
from_run (some s) = s

abbrev last : List Choice → State
last cs = from_run (run plan (direct_wiring 1) s₀ cs)

events_accounted_example :
    ((last losing_run).counters.accepted
      ≡ ((last losing_run).counters.completed
          + (last losing_run).counters.dropped_dispatch
          + total (queued (measure_start (last losing_run))) (last losing_run).queues)
        % two_64)
    × ((last losing_run).counters.completed ≡ total samples (last losing_run).workers % two_64)
    × All HasSamples (last losing_run).workers
unfolding run step main_step ingress_step worker_step fire fire_or_wait push_event count_push
    make_event take complete count_event start start_workers direct_wiring push_call pop_look
    pop_flags end_step all_ingress_ended all_workers_ended work_ns
events_accounted_example =
    events_accounted plan (direct_wiring 1) (pos 10) 1 1 queues (DispatcherPc.ending done)
      ((refl, refl), tt) refl (run-Reach plan (direct_wiring 1) s₀ losing_run refl) refl refl

drops_counted_example :
    (last completed_run).counters.generated
    ≡ ((last completed_run).counters.accepted + (last completed_run).counters.dropped_ingress)
      % two_64
unfolding run step main_step ingress_step worker_step fire fire_or_wait push_event count_push
    make_event take complete count_event start start_workers direct_wiring push_call pop_look
    pop_flags end_step all_ingress_ended all_workers_ended work_ns
drops_counted_example =
    drops_counted plan (direct_wiring 1) (pos 10) 1 1 queues (DispatcherPc.ending done)
      ((refl, refl), tt) refl refl (run-Reach plan (direct_wiring 1) s₀ completed_run refl) refl
      refl

abbrev one_worker : PipelineConfig whole
one_worker = record {
  ingress_threads = pos 1;
  worker_threads = pos 1;
  duration = pos 2000;
  warmup = pos 0;
  ingress_queue_capacity = 4;
  worker_queue_capacity = 4;
  rate_per_ingress = 0;
  policy = drop;
  wait_strategy = queue_default;
  topology = shared_queue;
  shared_queue_kind = global_lock;
  dispatch_queue_kind = global_lock;
  service_ns = 0;
  jitter_ns = 0;
}

abbrev surroundings : Surroundings
surroundings = record {
  global_start = 10;
  interval = 0;
  choices =
      (worker 0 reading ∷ [])
      ++ one_event
      ++ shutdown
      ++ (worker 0 reading ∷ worker 0 reading ∷ worker 0 reading ∷ main ∷ main ∷ []);
  stats = [];
  max_size = 9;
}

abbrev report : PipelineResult whole
report =
    finalize_result whole one_worker
      (record {
        ingress_stop = true;
        measure_start_ns = pos 10;
        generated = 1;
        accepted = 1;
        completed = 1;
        dropped_ingress = 0;
        dropped_dispatch = 0;
      })
      (record { completed = 1; latencies_ns = pos 0 ∷ [] } ∷ []) zero_stats zero_stats

no_event_lost_example :
    (report.generated ≡ (report.completed + report.dropped) % two_64)
    × (report.accepted ≡ (report.completed + report.dropped_dispatch) % two_64)
    × (report.completed ≡ report.samples % two_64)
unfolding run step main_step ingress_step worker_step fire fire_or_wait push_event count_push
    make_event take complete count_event start start_workers shared_wiring push_call pop_look
    pop_flags end_step all_ingress_ended all_workers_ended work_ns run_pipeline_scenario
    run_shared_queue_pipeline plan_of start_of outcome validate_pipeline_config make_queue
no_event_lost_example = no_event_lost whole one_worker surroundings report refl refl refl refl
