-- ===== src/Pipeline/Run/WorkerLoop.antt =====
-- pipeline.cpp: the workers.
use laboratory.Base.{
  ℕ, Bool, true, false, [], ◌∷◌, ◌++◌, Option, some, none, set, get_elem?, if◌then◌else◌,
}
use laboratory.Base.Int.{sub_ℕ}
use laboratory.Queue.{Event, bump}
use laboratory.Pipeline.{WorkerMetrics}
use laboratory.Pipeline.Stats.{is_measured, work_ns}
use laboratory.Pipeline.Channel.{Popped, got, ended, found_empty, again, pop_look, pop_flags}
use laboratory.Pipeline.Run.{
  Plan, Wiring, Worker, WorkerPc, State, Reading, stopping, done, record_error, end_step,
}

abbrev pub put : State → ℕ → Worker → State
put s i t = record s { workers = set s.workers i t }

abbrev pub at : Worker → WorkerPc → Worker
at t pc = record t { pc = pc }

-- What a step of `pop` on queue `q` means for worker `i`.
unfoldable pub take : State → ℕ → Worker → ℕ → Popped → State
take s i t q (got ev c) = record s {
  queues = set s.queues q c;
  workers = set s.workers i (at t (WorkerPc.working ev));
}
take s i t q ended = put s i (at t (WorkerPc.ending done))
take s i t q found_empty = put s i (at t WorkerPc.looked)
take s i t q again = put s i (at t WorkerPc.popping)

-- The worker's own numbers after an event.
unfoldable pub count_event : Bool → Event → ℕ → WorkerMetrics → WorkerMetrics
count_event true ev now m = record {
  completed = bump m.completed;
  latencies_ns = m.latencies_ns ++ sub_ℕ now ev.created_at ∷ [];
}
count_event false ev now m = m

-- The loop's body: the simulated work, which moves the generator on, and the measurement.
unfoldable pub complete : Plan → Reading → State → ℕ → Worker → Event → State
complete p r s i t ev =
    let measured = is_measured ev.created_at s.counters in
    record s {
      counters = record s.counters {
        completed = if measured then bump s.counters.completed else s.counters.completed;
      };
      workers = set s.workers i (record {
        metrics = count_event measured ev r.now t.metrics;
        rng = (work_ns p.service_ns p.jitter_ns t.rng).1;
        pc = WorkerPc.popping;
      });
    }

-- One step of worker `i`, which stands at a program counter. Its stop flag is never set.
unfoldable pub worker_step : Plan → Wiring → Reading → State → ℕ → Worker → WorkerPc → Option State
worker_step p w r s i t WorkerPc.popping = elim (get_elem? s.queues (w.worker_queue i)) [
  | none ↦ none
  | some c ↦ some (take s i t (w.worker_queue i) (pop_look false r.ok c c.waiting))
]
worker_step p w r s i t WorkerPc.looked = elim (get_elem? s.queues (w.worker_queue i)) [
  | none ↦ none
  | some c ↦ some (take s i t (w.worker_queue i) (pop_flags false c))
]
worker_step p w r s i t (WorkerPc.working ev) = some (complete p r s i t ev)
worker_step p w r s i t (WorkerPc.ending e) = elim (end_step 0 s e) [
  | none ↦ none
  | some (s', e') ↦ some (put s' i (at t (WorkerPc.ending e')))
]

abbrev pub is_ending : WorkerPc → Bool
is_ending (WorkerPc.ending e) = true
is_ending pc = false

-- Something in the loop throws.
unfoldable pub worker_throws : ℕ → State → ℕ → Worker → Option State
worker_throws e s i t =
    if is_ending t.pc
    then none
    else some (record s {
      thread_error = record_error e s.thread_error;
      workers = set s.workers i (at t (WorkerPc.ending stopping));
    })
