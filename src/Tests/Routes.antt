-- ===== src/Tests/Routes.antt =====
-- A run of the dispatch topology.
use Prim.Native.Nat.{bit_xor}
use laboratory.Pipeline.Run.DispatcherLoop
use laboratory.Pipeline.Run.DispatcherLoop.{dispatcher_step, hand_on, count_drop}
use laboratory.Pipeline.Run.Routes.Dispatch.{dispatch_routes}
use laboratory.Base.{◌%◌, ◌≡◌, refl, List, [], ◌∷◌, ◌++◌, Option, some, none}
use laboratory.Base.Int.{pos}
use laboratory.Queue.{spsc_ring, global_lock, Event}
use laboratory.Pipeline.Channel.{Channel, empty_channel, push_call, pop_look, pop_flags}
use laboratory.Pipeline.Run.{Plan, State, Worker, WorkerPc, DispatcherPc, end_step}
use laboratory.Pipeline.Run.IngressLoop.{
  ingress_step, fire, fire_or_wait, push_event, count_push, make_event,
}
use laboratory.Pipeline.Run.WorkerLoop.{worker_step, take, complete, count_event}
use laboratory.Pipeline.Run.Schedule.{
  Choice, ingress, worker, dispatcher, run, step, main_step, all_ingress_ended, all_workers_ended,
  run-Reach,
}
use laboratory.Pipeline.Stats.{work_ns}
use laboratory.Pipeline.Run.Topologies.{start, start_workers, dispatch_wiring}
use laboratory.Tests.Pipelines.{plan, reading, one_event}

abbrev two_workers : Plan
two_workers = record plan { workers = 2 }

abbrev three_queues : List Channel
three_queues =
    empty_channel global_lock 4 ∷ empty_channel spsc_ring 4 ∷ empty_channel spsc_ring 4 ∷ []

-- Two events are made; the second one goes to the second worker.
abbrev routed_run : List Choice
routed_run =
    one_event
    ++ (ingress 0 reading ∷ ingress 0 reading ∷ ingress 0 reading ∷ ingress 0 reading ∷ [])
    ++ (dispatcher reading
        ∷ dispatcher reading
        ∷ dispatcher reading
        ∷ dispatcher reading
        ∷ dispatcher reading
        ∷ worker 1 reading
        ∷ [])

abbrev routed_start : State
routed_start = start (dispatch_wiring 2) (pos 10) 2 1 three_queues DispatcherPc.popping

abbrev last_of : Option State → State
last_of none = routed_start
last_of (some s) = s

abbrev routed_last : State
routed_last = last_of (run two_workers (dispatch_wiring 2) routed_start routed_run)

abbrev second : Event
second = make_event (dispatch_wiring 2) 0 1 20

abbrev second_worker : Worker
second_worker = record {
  metrics = record { completed = 0; latencies_ns = [] };
  rng = bit_xor 0x243f6a8885a308d3 2;
  pc = WorkerPc.working second;
}

dispatch_routes_example : second.route_key % 2 ≡ 1
unfolding run step main_step ingress_step worker_step fire fire_or_wait push_event count_push
    make_event take complete count_event start start_workers dispatch_wiring push_call pop_look
    pop_flags end_step all_ingress_ended all_workers_ended work_ns dispatcher_step
    DispatcherLoop.take hand_on count_drop
dispatch_routes_example =
    dispatch_routes 2 two_workers (pos 10) 1 three_queues {s = routed_last} 1 second_worker second
      refl ((refl, refl), ((refl, refl), ((refl, refl), tt)))
      (run-Reach two_workers (dispatch_wiring 2) routed_start routed_run refl) refl refl refl
