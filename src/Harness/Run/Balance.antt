-- ===== src/Harness/Run/Balance.antt =====
-- What the counters of a scenario come to: where the measured events are.
use laboratory.Base.{
  ℕ, zero, suc, ◌+◌, ◌%◌, ◌<◌, ◌≡◌, refl, ap, Bool, true, false, ◌&&◌, List, [], ◌∷◌, length,
  Option, some, none, Option-cases, Bool-cases, inl, inr, get_elem?, set, total, total-set, arith,
  if◌then◌else◌, ltb,
}
use laboratory.Base.Int.{ℤ, pos, leb_ℤ}
use laboratory.Queue.{Event, two_64}
use laboratory.Pipeline.Channel.{Channel, push_call}
use laboratory.Pipeline.Run.{Reading}
use laboratory.Pipeline.Run.Balance.{one, weight, queued}
use laboratory.Pipeline.Run.Balance.Queues.{push_call-Pushed}
use laboratory.Harness.Run.{
  State, Plan, Producer, ProducerPc, ConsumerPc, MainPc, joining_consumer, finished, RunState,
  measured, put, at, fire_or_wait, count_push, producer_step, producer_ended, all_ended,
  consumer_ended,
}

-- An event that the queue has accepted and its producer has not counted yet.
abbrev pub unreported : RunState → ProducerPc → ℕ
unreported c (ProducerPc.counting true created_ns) = one (measured created_ns c)
unreported c pc = 0

abbrev pub in_hand : ℤ → ConsumerPc → ℕ
in_hand start (ConsumerPc.received ev) = weight start ev
in_hand start pc = 0

abbrev pub past_producers : MainPc → Bool
past_producers joining_consumer = true
past_producers finished = true
past_producers pc = false

abbrev pub past_consumer : MainPc → Bool
past_consumer finished = true
past_consumer pc = false

pub record IsBalanced (s : State) : Type 0 where
  pub produced_fits : s.counters.produced < two_64
  pub accounted :
      (s.counters.produced + total (λ t. unreported s.counters t.pc) s.producers) % two_64
      ≡ (s.counters.consumed
          + queued s.counters.measure_start_ns s.queue
          + in_hand s.counters.measure_start_ns s.consumer)
        % two_64
  pub sampled : s.counters.consumed ≡ length s.latencies_ns % two_64
  pub producers_joined : past_producers s.main ≡ true → all_ended s.producers ≡ true
  pub consumer_joined : past_consumer s.main ≡ true → consumer_ended s.consumer ≡ true

-- The property after a step, if it can be made.
abbrev pub After : Option State → Type 0
After none = Unit
After (some s) = IsBalanced s

all_ended_at :
    (ts : List Producer) (i : ℕ) {t : Producer}
    → all_ended ts ≡ true
    → get_elem? ts i ≡ some t
    → producer_ended t.pc ≡ true
unfolding all_ended
all_ended_at [] i h e = absurd (ground arith)
all_ended_at (x ∷ xs) zero h e = ground arith
all_ended_at (x ∷ xs) (suc i) h e = all_ended_at xs i (ground arith) e

module _ (p : Plan) (r : Reading) (s : State) (b : IsBalanced s) where
  module _ (i : ℕ) (t : Producer) (has : get_elem? s.producers i ≡ some t) where
    -- A producer that can step is not joined.
    not_joined :
        producer_ended t.pc ≡ false
        → (ts : List Producer) → past_producers s.main ≡ true
        → all_ended ts ≡ true
    not_joined busy ts past =
        absurd (ground (arith, all_ended_at s.producers i (b.producers_joined past) has))

    moves :
        (t' : Producer)
        → producer_ended t.pc ≡ false
        → unreported s.counters t.pc ≡ unreported s.counters t'.pc
        → IsBalanced (put s i t')
    moves t' busy same = record {
      produced_fits = b.produced_fits;
      accounted = omega (
        arith,
        b.accounted,
        same,
        total-set (λ x. unreported s.counters x.pc) s.producers i t t' has,
      );
      sampled = b.sampled;
      producers_joined = not_joined busy (set s.producers i t');
      consumer_joined = b.consumer_joined;
    }

    pushes :
        (ev : Event) (q : Channel) (pushed : Bool)
        → t.pc ≡ ProducerPc.pushing ev
        → push_call p.policy s.counters.stop s.queue ev r.ok ≡ some (q, pushed)
        → IsBalanced (record s {
          queue = q;
          producers = set s.producers i (at t (ProducerPc.counting pushed ev.created_at));
        })
    pushes ev q pushed e hp =
        let t' = at t (ProducerPc.counting pushed ev.created_at) in
        let call =
          push_call-Pushed s.counters.measure_start_ns p.policy s.counters.stop s.queue ev r.ok
            hp in
        let reports = total-set (λ x. unreported s.counters x.pc) s.producers i t t' has in
        record {
          produced_fits = b.produced_fits;
          accounted = ground (arith, b.accounted, call.adds, reports, ap (unreported s.counters) e);
          sampled = b.sampled;
          producers_joined = not_joined (ap producer_ended e) (set s.producers i t');
          consumer_joined = b.consumer_joined;
        }

    counts :
        (pushed : Bool) (created_ns : ℕ)
        → t.pc ≡ ProducerPc.counting pushed created_ns
        → IsBalanced (
            put
              (record s { counters = count_push p pushed created_ns s.counters })
              i
              (at t ProducerPc.head))
    unfolding count_push
    counts true created_ns e =
        let t' = at t ProducerPc.head in
        let reports = total-set (λ x. unreported s.counters x.pc) s.producers i t t' has in
        record {
          produced_fits = ground (arith, b.produced_fits);
          accounted = ground (arith, b.accounted, reports, ap (unreported s.counters) e);
          sampled = b.sampled;
          producers_joined = not_joined (ap producer_ended e) (set s.producers i t');
          consumer_joined = b.consumer_joined;
        }
    counts false created_ns e =
        let t' = at t ProducerPc.head in
        let reports = total-set (λ x. unreported s.counters x.pc) s.producers i t t' has in
        record {
          produced_fits = b.produced_fits;
          accounted = omega (arith, b.accounted, reports, ap (unreported s.counters) e);
          sampled = b.sampled;
          producers_joined = not_joined (ap producer_ended e) (set s.producers i t');
          consumer_joined = b.consumer_joined;
        }

    fires : t.pc ≡ ProducerPc.checked → IsBalanced (put s i (fire_or_wait p r i t))
    unfolding fire_or_wait
    fires e = elim (Bool-cases (leb_ℤ p.measure_end (pos r.now))) [
      | inl over ↦
          rw over
            (moves (at t ProducerPc.done) (ap producer_ended e) (ap (unreported s.counters) e))
      | inr more ↦ rw more (elim (Bool-cases (p.rate_limited && ltb r.now t.next_fire)) [
        | inl early ↦
            rw early
              (moves (at t ProducerPc.head) (ap producer_ended e) (ap (unreported s.counters) e))
        | inr due ↦ rw due (moves _ (ap producer_ended e) (ap (unreported s.counters) e))
      ])
    ]

    tests :
        (stop : Bool)
        → t.pc ≡ ProducerPc.head
        → IsBalanced (put s i (at t (if stop then ProducerPc.done else ProducerPc.checked)))
    tests true e = moves (at t ProducerPc.done) (ap producer_ended e) (ap (unreported s.counters) e)
    tests false e =
        moves (at t ProducerPc.checked) (ap producer_ended e) (ap (unreported s.counters) e)

    producer_at : (pc : ProducerPc) → t.pc ≡ pc → After (producer_step p r s i t pc)
    unfolding producer_step
    producer_at ProducerPc.starting e =
        moves (record { next_fire = r.now; seq = t.seq; pc = ProducerPc.head })
          (ap producer_ended e) (ap (unreported s.counters) e)
    producer_at ProducerPc.head e = tests s.counters.stop e
    producer_at ProducerPc.checked e = fires e
    producer_at (ProducerPc.pushing ev) e =
        elim (Option-cases (push_call p.policy s.counters.stop s.queue ev r.ok)) [
          | inl x ↦ rw (x, producer_step) tt
          | inr ((q, pushed), hp) ↦ rw (hp, producer_step) (pushes ev q pushed e hp)
        ]
    producer_at (ProducerPc.counting pushed created_ns) e = counts pushed created_ns e
    producer_at ProducerPc.done e = tt

    pub producer_keeps : After (producer_step p r s i t t.pc)
    producer_keeps = producer_at t.pc refl
