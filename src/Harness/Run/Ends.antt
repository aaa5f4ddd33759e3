-- ===== src/Harness/Run/Ends.antt =====
-- The steps of the consumer and of the main thread keep the balance, so every run does.
use laboratory.Base.{
  ◌≡◌, refl, ap, subst, Bool, true, false, ◌||◌, List, [], ◌∷◌, length-append, some, Option-cases,
  inl, inr, get_elem?, arith, if◌then◌else◌,
}
use laboratory.Base.Int.{sub_ℕ}
use laboratory.Queue.{Event}
use laboratory.Pipeline.Channel.{pop_look, pop_flags, Popped, got, ended, found_empty, again}
use laboratory.Pipeline.Run.{Reading}
use laboratory.Pipeline.Run.Balance.{one}
use laboratory.Pipeline.Run.Balance.Queues.{pop_look-got}
use laboratory.Harness.Run.{
  State, Plan, ConsumerPc, MainPc, sleeping, stopped, joining_producers, joining_consumer, finished,
  measured, take, receive, consumer_step, consumer_ended, main_step, Choice, producer, consumer,
  main, step, run,
}
use laboratory.Harness.Run.Balance.{IsBalanced, After, in_hand, past_producers, producer_keeps}

module _ (p : Plan) (s : State) (b : IsBalanced s) where
  consumer_moves :
      (pc : ConsumerPc)
      → consumer_ended s.consumer ≡ false
      → in_hand s.counters.measure_start_ns s.consumer ≡ in_hand s.counters.measure_start_ns pc
      → IsBalanced (record s { consumer = pc })
  consumer_moves pc busy same = record {
    produced_fits = b.produced_fits;
    accounted = omega (arith, b.accounted, same);
    sampled = b.sampled;
    producers_joined = b.producers_joined;
    consumer_joined = λ past. absurd (ground (arith, b.consumer_joined past));
  }

  takes :
      (ready : Bool) (m : Popped)
      → consumer_ended s.consumer ≡ false
      → in_hand s.counters.measure_start_ns s.consumer ≡ 0
      → pop_look s.counters.stop ready s.queue s.queue.waiting ≡ m
      → IsBalanced (take s m)
  unfolding take
  takes ready (got ev q) busy idle e =
      let (flag, moved) =
        pop_look-got s.counters.measure_start_ns s.counters.stop ready s.queue s.queue.waiting refl
          e in
      record {
        produced_fits = b.produced_fits;
        accounted = omega (arith, b.accounted, idle, moved);
        sampled = b.sampled;
        producers_joined = b.producers_joined;
        consumer_joined = λ past. absurd (ground (arith, b.consumer_joined past));
      }
  takes ready ended busy idle e = consumer_moves ConsumerPc.done busy idle
  takes ready found_empty busy idle e = consumer_moves ConsumerPc.looked busy idle
  takes ready again busy idle e = consumer_moves ConsumerPc.popping busy idle

  loads :
      (shut : Bool)
      → s.consumer ≡ ConsumerPc.looked
      → IsBalanced (take s (if shut then ended else again))
  unfolding take
  loads true e =
      consumer_moves ConsumerPc.done (ap consumer_ended e)
        (ap (in_hand s.counters.measure_start_ns) e)
  loads false e =
      consumer_moves ConsumerPc.popping (ap consumer_ended e)
        (ap (in_hand s.counters.measure_start_ns) e)

  receives :
      (r : Reading) (ev : Event) (m : Bool)
      → consumer_ended s.consumer ≡ false
      → in_hand s.counters.measure_start_ns s.consumer ≡ one m
      → IsBalanced (receive r s ev m)
  unfolding receive
  receives r ev true busy held = record {
    produced_fits = b.produced_fits;
    accounted = omega (arith, b.accounted, held);
    sampled =
        omega (arith, b.sampled, length-append s.latencies_ns (sub_ℕ r.now ev.created_at ∷ []));
    producers_joined = b.producers_joined;
    consumer_joined = λ past. absurd (ground (arith, b.consumer_joined past));
  }
  receives r ev false busy held = consumer_moves ConsumerPc.popping busy held

  consumer_at : (r : Reading) (pc : ConsumerPc) → s.consumer ≡ pc → After (consumer_step r s pc)
  unfolding consumer_step pop_flags
  consumer_at r ConsumerPc.popping e =
      takes r.ok _ (ap consumer_ended e) (ap (in_hand s.counters.measure_start_ns) e) refl
  consumer_at r ConsumerPc.looked e = loads (s.queue.closed || s.counters.stop) e
  consumer_at r (ConsumerPc.received ev) e =
      receives r ev (measured ev.created_at s.counters) (ap consumer_ended e)
        (ap (in_hand s.counters.measure_start_ns) e)
  consumer_at r ConsumerPc.done e = tt

  main_at : (pc : MainPc) → s.main ≡ pc → After (main_step s pc)
  unfolding main_step
  main_at sleeping e = ground (arith, b.accounted)
  main_at stopped e = ground (arith, b.accounted)
  main_at joining_producers e = ground (arith, b.accounted)
  main_at joining_consumer e = ground (arith, b.accounted, b.producers_joined (ap past_producers e))
  main_at finished e = tt

  step_at : (c : Choice) → After (step p s c)
  unfolding step
  step_at (producer i r) = elim (Option-cases (get_elem? s.producers i)) [
    | inl x ↦ rw (x, step) tt
    | inr (t, has) ↦ rw (has, step) (producer_keeps p r s b i t has)
  ]
  step_at (consumer r) = consumer_at r s.consumer refl
  step_at main = main_at s.main refl

pub run-IsBalanced :
    (p : Plan) (s : State) (cs : List Choice) {t : State}
    → IsBalanced s
    → run p s cs ≡ some t
    → IsBalanced t
unfolding run
run-IsBalanced p s [] b h = subst IsBalanced (ground arith) b
run-IsBalanced p s (c ∷ cs) b h = elim (Option-cases (step p s c)) [
  | inl e ↦ absurd (ground arith)
  | inr (u, e) ↦ run-IsBalanced p u cs (subst After e (step_at p s b c)) (rw (e, run) at h)
]
