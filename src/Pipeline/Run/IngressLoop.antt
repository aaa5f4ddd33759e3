-- ===== src/Pipeline/Run/IngressLoop.antt =====
-- pipeline.cpp: the ingress threads.
use Prim.Native.Nat.{bit_or}
use laboratory.Base.{
  ℕ, ◌+◌, ◌*◌, ◌%◌, ◌^◌, Bool, true, false, ◌&&◌, Option, some, none, set, get_elem?, ltb,
  if◌then◌else◌,
}
use laboratory.Base.Int.{pos, leb_ℤ}
use laboratory.Queue.{Event, bump, two_64}
use laboratory.Pipeline.{PipelineState}
use laboratory.Pipeline.Stats.{is_measured}
use laboratory.Pipeline.Channel.{push_call, is_drop}
use laboratory.Pipeline.Run.{
  Plan, Wiring, Ingress, IngressPc, starting, head, checked, State, Reading, stopping, done,
  record_error, end_step,
}

abbrev pub put : State → ℕ → Ingress → State
put s i t = record s { ingress = set s.ingress i t }

abbrev pub at : Ingress → IngressPc → Ingress
at t pc = record t { pc = pc }

-- `fetch_add(1)` if the event is measured.
abbrev pub bump_if : Bool → ℕ → ℕ
bump_if measured n = if measured then bump n else n

-- The event that thread `index` makes. Its sequence number is counted on by the caller.
unfoldable pub make_event : Wiring → ℕ → ℕ → ℕ → Event
make_event w index seq created =
    let id = bit_or (index * 2 ^ 48 % two_64) seq in
    record {
      id = id;
      route_key = id;
      target_worker = w.target_worker index id;
      created_at = created;
    }

-- The part of the loop's body that makes an event and counts it as generated.
unfoldable pub fire : Plan → Wiring → Reading → State → ℕ → Ingress → State
fire p w r s i t =
    let ev = make_event w i t.seq r.created in
    let measured = is_measured r.created s.counters in
    record s {
      counters = record s.counters { generated = bump_if measured s.counters.generated };
      ingress = set s.ingress i (record {
        next_fire = if p.rate_limited then t.next_fire + p.interval else t.next_fire;
        seq = bump t.seq;
        pc = IngressPc.pushing ev measured;
      });
    }

-- From the clock's first reading in the loop's body: the end of the measurement, the rate.
unfoldable pub fire_or_wait : Plan → Wiring → Reading → State → ℕ → Ingress → State
fire_or_wait p w r s i t =
    if leb_ℤ p.measure_end (pos r.now)
    then put s i (at t (IngressPc.ending done))
    else (if p.rate_limited && ltb r.now t.next_fire then put s i (at t head) else fire p w r s i t)

unfoldable pub push_event : Plan → Reading → State → ℕ → Ingress → ℕ → Event → Bool → Option State
push_event p r s i t q ev measured = elim (get_elem? s.queues q) [
  | none ↦ none
  | some c ↦ elim (push_call p.policy s.counters.ingress_stop c ev r.ok) [
    | none ↦ none
    | some (c', ok) ↦ some (record s {
      queues = set s.queues q c';
      ingress = set s.ingress i (at t (IngressPc.counting ok measured));
    })
  ]
]

-- The counters after a push.
unfoldable pub count_push : Plan → Bool → Bool → PipelineState → PipelineState
count_push p true measured c = record c { accepted = bump_if measured c.accepted }
count_push p false measured c = record c {
  dropped_ingress = bump_if (is_drop p.policy && measured) c.dropped_ingress;
}

-- One step of ingress thread `i`, which stands at a program counter.
unfoldable pub ingress_step :
    Plan → Wiring → Reading → State → ℕ → Ingress → IngressPc → Option State
ingress_step p w r s i t starting = some (put s i (record t { next_fire = r.now; pc = head }))
ingress_step p w r s i t head =
    some (put s i (at t (if s.counters.ingress_stop then IngressPc.ending done else checked)))
ingress_step p w r s i t checked = some (fire_or_wait p w r s i t)
ingress_step p w r s i t (IngressPc.pushing ev measured) =
    push_event p r s i t (w.ingress_queue i) ev measured
ingress_step p w r s i t (IngressPc.counting ok measured) =
    some (put (record s { counters = count_push p ok measured s.counters }) i (at t head))
ingress_step p w r s i t (IngressPc.ending e) = elim (end_step 0 s e) [
  | none ↦ none
  | some (s', e') ↦ some (put s' i (at t (IngressPc.ending e')))
]

abbrev pub is_ending : IngressPc → Bool
is_ending (IngressPc.ending e) = true
is_ending pc = false

-- Something in the loop throws: the handler records the exception first.
unfoldable pub ingress_throws : ℕ → State → ℕ → Ingress → Option State
ingress_throws e s i t =
    if is_ending t.pc
    then none
    else some (record s {
      thread_error = record_error e s.thread_error;
      ingress = set s.ingress i (at t (IngressPc.ending stopping));
    })
