-- ===== src/Harness/Run.antt =====
-- harness.cpp: `runScenario`, its producers, its consumer and the main thread, over one queue. A
-- run is given by the clock's reading at its start, the interval that the rate comes to, and the
-- order of the threads' steps. Nothing here catches an exception.
pub mod Balance
pub mod Ends
pub mod Reports
use Prim.Native.Nat.{bit_or}
use laboratory.Base.{
  ℕ, zero, suc, ◌+◌, ◌*◌, ◌%◌, ◌^◌, ◌≡◌, Bool, true, false, ◌&&◌, List, [], ◌∷◌, ◌++◌, length,
  replicate, Option, some, none, get_elem?, set, ltb, if◌then◌else◌,
}
use laboratory.Base.Int.{ℤ, pos, ◌+ℤ◌, leb_ℤ, sub_ℕ, to_ℕ}
use laboratory.Base.Double.{Double}
use laboratory.Queue.{
  Event, BackpressurePolicy, QueueKind, QueueStats, bump, two_64, snapshot_queue_stats,
}
use laboratory.Queue.Names.{parse_queue_kind}
use laboratory.Queue.Factory.{make_queue}
use laboratory.Pipeline.Channel.{
  Channel, empty_channel, push_call, pop_look, pop_flags, Popped, got, ended, found_empty, again,
  close, is_drop,
}
use laboratory.Pipeline.Run.{Reading}
use laboratory.Pipeline.Result
use laboratory.Pipeline.Result.{sort, is_empty, sum_latencies}
use laboratory.Harness.{ScenarioConfig, validate_scenario_config}

pub record RunState : Type 0 where
  pub stop : Bool
  pub measure_start_ns : ℤ
  pub produced : ℕ
  pub consumed : ℕ
  pub dropped : ℕ

pub data ProducerPc : Type 0 where
  starting : ProducerPc
  head : ProducerPc
  checked : ProducerPc  -- the flag was not set
  pushing : Event → ProducerPc
  counting : Bool → ℕ → ProducerPc  -- with `ok` and `created_ns`
  done : ProducerPc

pub record Producer : Type 0 where
  pub next_fire : ℕ
  pub seq : ℕ
  pub pc : ProducerPc

pub data ConsumerPc : Type 0 where
  popping : ConsumerPc
  looked : ConsumerPc  -- in `pop`, which found the queue empty
  received : Event → ConsumerPc
  done : ConsumerPc

pub data MainPc : Type 0 where
  sleeping stopped joining_producers joining_consumer finished : MainPc

-- `latencies_ns` is that of the `MetricsCollector`.
pub record State : Type 0 where
  pub counters : RunState
  pub queue : Channel
  pub producers : List Producer
  pub consumer : ConsumerPc
  pub latencies_ns : List ℤ
  pub main : MainPc

pub record Plan : Type 0 where
  pub policy : BackpressurePolicy
  pub rate_limited : Bool
  pub interval : ℕ
  pub measure_end : ℤ

-- `start_ns >= 0 && created_ns >= start_ns`
abbrev pub measured : ℕ → RunState → Bool
measured created_ns c =
    leb_ℤ (pos 0) c.measure_start_ns && leb_ℤ c.measure_start_ns (pos created_ns)

-- `route_key` is the producer's index; `target_worker` keeps its default.
unfoldable pub make_event : ℕ → ℕ → ℕ → Event
make_event index seq created = record {
  id = bit_or (index * 2 ^ 48 % two_64) seq;
  route_key = index;
  target_worker = 0;
  created_at = created;
}

abbrev pub put : State → ℕ → Producer → State
put s i t = record s { producers = set s.producers i t }

abbrev pub at : Producer → ProducerPc → Producer
at t pc = record t { pc = pc }

unfoldable pub fire_or_wait : Plan → Reading → ℕ → Producer → Producer
fire_or_wait p r i t =
    if leb_ℤ p.measure_end (pos r.now)
    then at t ProducerPc.done
    else (if p.rate_limited && ltb r.now t.next_fire then at t ProducerPc.head else record {
      next_fire = if p.rate_limited then t.next_fire + p.interval else t.next_fire;
      seq = bump t.seq;
      pc = ProducerPc.pushing (make_event i t.seq r.created);
    })

-- The counters after a push.
unfoldable pub count_push : Plan → Bool → ℕ → RunState → RunState
count_push p true created_ns c = record c {
  produced = if measured created_ns c then bump c.produced else c.produced;
}
count_push p false created_ns c = record c {
  dropped = if is_drop p.policy && measured created_ns c then bump c.dropped else c.dropped;
}

-- One step of producer `i`, which stands at a program counter.
unfoldable pub producer_step : Plan → Reading → State → ℕ → Producer → ProducerPc → Option State
producer_step p r s i t ProducerPc.starting =
    some (put s i (record t { next_fire = r.now; pc = ProducerPc.head }))
producer_step p r s i t ProducerPc.head =
    some (put s i (at t (if s.counters.stop then ProducerPc.done else ProducerPc.checked)))
producer_step p r s i t ProducerPc.checked = some (put s i (fire_or_wait p r i t))
producer_step p r s i t (ProducerPc.pushing ev) =
    elim (push_call p.policy s.counters.stop s.queue ev r.ok) [
      | none ↦ none
      | some (q, pushed) ↦ some (record s {
        queue = q;
        producers = set s.producers i (at t (ProducerPc.counting pushed ev.created_at));
      })
    ]
producer_step p r s i t (ProducerPc.counting pushed created_ns) = some (
    put (record s { counters = count_push p pushed created_ns s.counters }) i
      (at t ProducerPc.head))
producer_step p r s i t ProducerPc.done = none

-- What a step of `pop` means for the consumer.
unfoldable pub take : State → Popped → State
take s (got ev q) = record s { queue = q; consumer = ConsumerPc.received ev }
take s ended = record s { consumer = ConsumerPc.done }
take s found_empty = record s { consumer = ConsumerPc.looked }
take s again = record s { consumer = ConsumerPc.popping }

-- `recordLatencyNs`
abbrev pub record_latency_ns : ℤ → List ℤ → List ℤ
record_latency_ns latency_ns latencies = latencies ++ latency_ns ∷ []

-- The loop's body after an event was popped.
unfoldable pub receive : Reading → State → Event → Bool → State
receive r s ev true = record s {
  counters = record s.counters { consumed = bump s.counters.consumed };
  latencies_ns = record_latency_ns (sub_ℕ r.now ev.created_at) s.latencies_ns;
  consumer = ConsumerPc.popping;
}
receive r s ev false = record s { consumer = ConsumerPc.popping }

-- One step of the consumer. Its `pop` reads the flag that ends the run.
unfoldable pub consumer_step : Reading → State → ConsumerPc → Option State
consumer_step r s ConsumerPc.popping =
    some (take s (pop_look s.counters.stop r.ok s.queue s.queue.waiting))
consumer_step r s ConsumerPc.looked = some (take s (pop_flags s.counters.stop s.queue))
consumer_step r s (ConsumerPc.received ev) =
    some (receive r s ev (measured ev.created_at s.counters))
consumer_step r s ConsumerPc.done = none

abbrev pub producer_ended : ProducerPc → Bool
producer_ended ProducerPc.done = true
producer_ended pc = false

unfoldable pub all_ended : List Producer → Bool
all_ended [] = true
all_ended (t ∷ ts) = producer_ended t.pc && all_ended ts

abbrev pub consumer_ended : ConsumerPc → Bool
consumer_ended ConsumerPc.done = true
consumer_ended pc = false

-- The main thread sleeps, sets the flag, closes the queue and joins the others.
unfoldable pub main_step : State → MainPc → Option State
main_step s sleeping =
    some (record s { counters = record s.counters { stop = true }; main = stopped })
main_step s stopped = some (record s { queue = close s.queue; main = joining_producers })
main_step s joining_producers =
    if all_ended s.producers then some (record s { main = joining_consumer }) else none
main_step s joining_consumer =
    if consumer_ended s.consumer then some (record s { main = finished }) else none
main_step s finished = none

-- Which thread makes the next step.
pub data Choice : Type 0 where
  producer : ℕ → Reading → Choice
  consumer : Reading → Choice
  main : Choice

unfoldable pub step : Plan → State → Choice → Option State
step p s (producer i r) = elim (get_elem? s.producers i) [
  | none ↦ none
  | some t ↦ producer_step p r s i t t.pc
]
step p s (consumer r) = consumer_step r s s.consumer
step p s main = main_step s s.main

-- The run of a schedule.
unfoldable pub run : Plan → State → List Choice → Option State
run p s [] = some s
run p s (c ∷ cs) = elim (step p s c) [ none ↦ none | some t ↦ run p t cs ]
