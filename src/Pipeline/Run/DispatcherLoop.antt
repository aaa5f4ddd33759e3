-- ===== src/Pipeline/Run/DispatcherLoop.antt =====
-- pipeline.cpp: the dispatcher of `runDispatchLocalSpscPipeline`. Queue 0 is the dispatch queue and
-- queue `suc w` that of worker `w`.
use laboratory.Base.{
  ℕ, suc, ◌%◌, Bool, true, false, ◌&&◌, not, Option, some, none, set, get_elem?, if◌then◌else◌,
}
use laboratory.Queue.{Event}
use laboratory.Pipeline.{PipelineState}
use laboratory.Pipeline.Stats.{is_measured}
use laboratory.Pipeline.Channel.{
  Popped, got, ended, found_empty, again, pop_look, pop_flags, push_call, is_drop,
}
use laboratory.Pipeline.Run.{
  Plan, DispatcherPc, State, Reading, stopping, closing, record_error, end_step,
}
use laboratory.Pipeline.Run.IngressLoop.{bump_if}

abbrev pub put : State → DispatcherPc → State
put s pc = record s { dispatcher = pc }

-- What a step of `pop` on the dispatch queue means. After the loop the workers' queues are closed.
unfoldable pub take : State → Popped → State
take s (got ev c) = record s {
  queues = set s.queues 0 c;
  dispatcher = DispatcherPc.pushing ev (is_measured ev.created_at s.counters);
}
take s ended = put s (DispatcherPc.ending (closing 1))
take s found_empty = put s DispatcherPc.looked
take s again = put s DispatcherPc.popping

-- The push to the worker's queue that the event's target names. Its stop flag is never set.
unfoldable pub hand_on : Plan → Reading → State → Event → Bool → Option State
hand_on p r s ev measured =
    let q = suc (ev.target_worker % p.workers) in
    elim (get_elem? s.queues q) [
      | none ↦ none
      | some c ↦ elim (push_call p.policy false c ev r.ok) [
        | none ↦ none
        | some (c', ok) ↦ some (record s {
          queues = set s.queues q c';
          dispatcher = DispatcherPc.counting ok measured;
        })
      ]
    ]

unfoldable pub count_drop : Plan → Bool → Bool → PipelineState → PipelineState
count_drop p ok measured c = record c {
  dropped_dispatch = bump_if (not ok && is_drop p.policy && measured) c.dropped_dispatch;
}

-- One step of the dispatcher, which stands at a program counter.
unfoldable pub dispatcher_step : Plan → Reading → State → DispatcherPc → Option State
dispatcher_step p r s DispatcherPc.popping = elim (get_elem? s.queues 0) [
  | none ↦ none
  | some c ↦ some (take s (pop_look false r.ok c c.waiting))
]
dispatcher_step p r s DispatcherPc.looked = elim (get_elem? s.queues 0) [
  | none ↦ none
  | some c ↦ some (take s (pop_flags false c))
]
dispatcher_step p r s (DispatcherPc.pushing ev measured) = hand_on p r s ev measured
dispatcher_step p r s (DispatcherPc.counting ok measured) =
    some (put (record s { counters = count_drop p ok measured s.counters }) DispatcherPc.popping)
dispatcher_step p r s (DispatcherPc.ending e) = elim (end_step 1 s e) [
  | none ↦ none
  | some (s', e') ↦ some (put s' (DispatcherPc.ending e'))
]

abbrev pub is_ending : DispatcherPc → Bool
is_ending (DispatcherPc.ending e) = true
is_ending pc = false

-- Something in the loop throws. The handler sets the flag, and the queues are closed as after the
-- loop.
unfoldable pub dispatcher_throws : ℕ → State → Option State
dispatcher_throws e s =
    if is_ending s.dispatcher
    then none
    else some (record s {
      thread_error = record_error e s.thread_error;
      dispatcher = DispatcherPc.ending stopping;
    })
