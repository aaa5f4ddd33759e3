-- ===== src/Harness/Run/Reports.antt =====
-- What `runScenario` reports.
use laboratory.Base.{
  ℕ, ◌+◌, ◌%◌, ◌≡◌, refl, sym, ap, subst, true, List, [], ◌∷◌, length, Option, some, none, inl, inr,
  total, total-replicate, ok, Result-cases, arith,
}
use laboratory.Base.Int.{to_ℕ}
use laboratory.Base.Double.{Double}
use laboratory.Queue.{QueueKind, QueueStats, two_64}
use laboratory.Queue.Names.{parse_queue_kind}
use laboratory.Queue.Factory.{make_queue}
use laboratory.Pipeline.Run.Balance.{queued}
use laboratory.Harness.{ScenarioConfig, validate_scenario_config}
use laboratory.Harness.Run.{State, Producer, ProducerPc, finished, all_ended, run}
use laboratory.Harness.Scenario.{
  ScenarioResult, Surroundings, result_of, plan_of, start, ends_as, run_scenario,
}
use laboratory.Harness.Run.Balance.{IsBalanced, unreported, in_hand, past_consumer, past_producers}
use laboratory.Harness.Run.Ends.{run-IsBalanced}

module _ (d : Double) (config : ScenarioConfig d) where
  starts-IsBalanced : (kind : QueueKind) (c : Surroundings) → IsBalanced (start d config kind c)
  unfolding start total
  starts-IsBalanced kind c =
      let none_yet =
        total-replicate {A = Producer} (λ t. unreported (start d config kind c).counters t.pc)
          (to_ℕ config.producers) (record { next_fire = 0; seq = 0; pc = ProducerPc.starting })
          refl in
      record {
        produced_fits = omega arith;
        accounted = omega (arith, none_yet);
        sampled = omega arith;
        producers_joined = λ past. cc;
        consumer_joined = λ past. cc;
      }

  -- A report is made of a state in which all threads are joined.
  ends_as-finished :
      (stats : QueueStats) (m : Option State) {r : ScenarioResult d}
      → ends_as d config stats m ≡ some r
      → (s : State) × (m ≡ some s) × (s.main ≡ finished) × (r ≡ result_of d config s stats)
  ends_as-finished stats none h = absurd (ground arith)
  ends_as-finished stats (some s) h = (s, refl, ground arith, ground arith)

  unreported_none :
      (s : State) (ts : List Producer)
      → all_ended ts ≡ true
      → total (λ t. unreported s.counters t.pc) ts ≡ 0
  unfolding total all_ended
  unreported_none s [] e = refl
  unreported_none s (t ∷ ts) e = ground (arith, unreported_none s ts)

  reported :
      (kind : QueueKind) (c : Surroundings) (r : ScenarioResult d)
      → parse_queue_kind config.queue_type ≡ ok kind
      → run_scenario d config c ≡ ok (some r)
      → ends_as d config c.stats (run (plan_of d config c) (start d config kind c) c.choices)
        ≡ some r
  unfolding run_scenario
  reported kind c r parsed h = elim (Result-cases (validate_scenario_config d config kind)) [
    | inl (x, e) ↦ absurd (ground arith)
    | inr (v, e) ↦
        elim (Result-cases (make_queue c.max_size kind config.capacity config.wait_strategy)) [
          | inl (x, f) ↦ absurd (ground arith)
          | inr (q, f) ↦
              let all : ok (
                    ends_as d config c.stats
                      (run (plan_of d config c) (start d config kind c) c.choices))
                  ≡ ok (some r) =
                rw (parsed, run_scenario, e, f) at h in
              (cc)
        ]
  ]

  report_produced :
      (s : State) (stats : QueueStats) (n : ℕ)
      → s.counters.produced ≡ (s.counters.consumed + n) % two_64
      → (result_of d config s stats).produced ≡ ((result_of d config s stats).consumed + n) % two_64
  unfolding result_of
  report_produced s stats n h = h

  report_consumed :
      (s : State) (stats : QueueStats)
      → s.counters.consumed ≡ length s.latencies_ns % two_64
      → (result_of d config s stats).consumed ≡ (result_of d config s stats).samples % two_64
  unfolding result_of
  report_consumed s stats h = h

  -- A report comes from a run in which all threads are joined. Each measured event whose push
  -- succeeded is consumed or left in the queue, and each consumed one has its latency among the
  -- samples, modulo 2^64.
  pub scenario_accounted :
      (kind : QueueKind) (c : Surroundings) (r : ScenarioResult d)
      → parse_queue_kind config.queue_type ≡ ok kind
      → run_scenario d config c ≡ ok (some r)
      → (s : State) × (run (plan_of d config c) (start d config kind c) c.choices ≡ some s)
        × (r.produced ≡ (r.consumed + queued s.counters.measure_start_ns s.queue) % two_64)
        × (r.consumed ≡ r.samples % two_64)
  unfolding run_scenario
  scenario_accounted kind c r parsed h =
      let (s, ran, over, made) = ends_as-finished c.stats _ (reported kind c r parsed h) in
      let b =
        run-IsBalanced (plan_of d config c) (start d config kind c) c.choices
          (starts-IsBalanced kind c) ran in
      let none_left = unreported_none s s.producers (b.producers_joined (ap past_producers over)) in
      let idle : in_hand s.counters.measure_start_ns s.consumer ≡ 0 =
        ground (arith, b.consumer_joined (ap past_consumer over)) in
      (
        s,
        ran,
        subst
            (λ (x : ScenarioResult d).
              x.produced ≡ (x.consumed + queued s.counters.measure_start_ns s.queue) % two_64)
            (sym made)
            (report_produced s c.stats (queued s.counters.measure_start_ns s.queue)
              (omega (arith, b.accounted, b.produced_fits, none_left, idle))),
        subst (λ (x : ScenarioResult d). x.consumed ≡ x.samples % two_64) (sym made)
            (report_consumed s c.stats b.sampled),
      )
