-- ===== src/Pipeline/Run/Reports.antt =====
-- What `runPipelineScenario` reports.
use laboratory.Base.{
  ℕ, ◌+◌, ◌%◌, ◌<◌, ◌≡◌, refl, sym, ap, subst, ◌∙◌, true, [], ◌∷◌, map, length, Option, some, none,
  inl, inr, total, total-map, ok, Result-cases, arith,
}
use laboratory.Base.Int.{to_ℕ}
use laboratory.Base.Double.{Double}
use laboratory.Queue.{QueueStats, zero_stats, global_lock, two_64}
use laboratory.Queue.Factory.{make_queue}
use laboratory.Pipeline.{PipelineConfig, shared_queue}
use laboratory.Pipeline.Config.{validate_pipeline_config, validate_pipeline_config_iff}
use laboratory.Pipeline.Result.{PipelineResult, finalize_result}
use laboratory.Pipeline.Result.Laws.{length-all_latencies}
use laboratory.Pipeline.Channel.{empty_channel, is_drop, pops_at_once}
use laboratory.Pipeline.Run.{finished, State}
use laboratory.Pipeline.Run.Schedule.{run, run-Reach, Reach}
use laboratory.Pipeline.Run.Topologies.{
  reported, Surroundings, outcome, ends_as, plan_of, start_of, shared_wiring, worker_count,
  warmup_end, no_dispatcher, run_shared_queue_pipeline, run_pipeline_scenario, first_stats, start,
}
use laboratory.Pipeline.Run.Balance.Totals.{events_accounted, drops_counted}
use laboratory.Pipeline.Run.Balance.{samples}
use laboratory.Pipeline.Run.Drained.{AtOnce}
use laboratory.Pipeline.Run.Drained.Ends.{nothing_left}

module _ (d : Double) (config : PipelineConfig d) where
  -- A report is made of a state in which all threads are joined and nothing was thrown.
  record Reports (ingress_stats worker_stats : QueueStats) (s : State) (r : PipelineResult d)
      : Type 0 where
    over : s.main ≡ finished
    calm : s.thread_error ≡ none
    report :
        r
        ≡ finalize_result d config s.counters
            (map (λ t. t.metrics) s.workers)
            ingress_stats
            worker_stats

  outcome-Reports :
      (x y : QueueStats) (s : State) {r : PipelineResult d}
      → outcome d config x y s ≡ some (reported r)
      → Reports x y s r
  unfolding outcome
  outcome-Reports x y s h = ground arith

  ends_as-Reports :
      (x y : QueueStats) (m : Option State) {r : PipelineResult d}
      → ends_as d config x y m ≡ some (reported r)
      → (s : State) × (m ≡ some s) × Reports x y s r
  ends_as-Reports x y none h = absurd (ground arith)
  ends_as-Reports x y (some s) h = (s, refl, outcome-Reports x y s h)

  -- The run that a report of the shared topology is made of.
  abbrev shared_start : Surroundings → State
  shared_start c =
      start_of d config (shared_wiring (worker_count d config)) c
        (empty_channel config.shared_queue_kind config.ingress_queue_capacity ∷ [])
        (no_dispatcher d config)

  shared_run :
      (c : Surroundings) {r : PipelineResult d}
      → run_shared_queue_pipeline d config c ≡ ok (some (reported r))
      → (s : State) × (run
            (plan_of d config c)
            (shared_wiring (worker_count d config))
            (shared_start c)
            c.choices
          ≡ some s)
        × Reports (first_stats d config c.stats) zero_stats s r
  unfolding run_shared_queue_pipeline
  shared_run c {r = r} h =
      elim (Result-cases (
        make_queue c.max_size config.shared_queue_kind config.ingress_queue_capacity
          config.wait_strategy)) [
            | inl (x, e) ↦ absurd (ground arith)
            | inr (q, e) ↦
                let ends : ok (
                      ends_as d config (first_stats d config c.stats) zero_stats (
                        run (plan_of d config c) (shared_wiring (worker_count d config))
                          (shared_start c) c.choices))
                    ≡ ok (some (reported r)) =
                  rw (e, run_shared_queue_pipeline) at h in
                ends_as-Reports (first_stats d config c.stats) zero_stats
                  (run (plan_of d config c) (shared_wiring (worker_count d config)) (shared_start c)
                    c.choices)
                  (cc)
          ]

  validated :
      (c : Surroundings) {r : PipelineResult d}
      → config.topology ≡ shared_queue
      → run_pipeline_scenario d config c ≡ ok (some (reported r))
      → (validate_pipeline_config d config ≡ ok tt)
        × (run_shared_queue_pipeline d config c ≡ ok (some (reported r)))
  unfolding run_pipeline_scenario
  validated c t h = ground arith

  -- What a report says of the events.
  abbrev ReportsAll : PipelineResult d → Type 0
  ReportsAll r =
      (r.generated ≡ (r.completed + r.dropped) % two_64)
      × (r.accepted ≡ (r.completed + r.dropped_dispatch) % two_64)
      × (r.completed ≡ r.samples % two_64)

  report_sums :
      (s : State) (x y : QueueStats)
      → s.counters.generated ≡ (s.counters.accepted + s.counters.dropped_ingress) % two_64
      → s.counters.accepted ≡ (s.counters.completed + s.counters.dropped_dispatch + 0) % two_64
      → s.counters.completed ≡ total samples s.workers % two_64
      → ReportsAll (finalize_result d config s.counters (map (λ t. t.metrics) s.workers) x y)
  unfolding finalize_result
  report_sums s x y g a c =
      let sums =
        length-all_latencies (map (λ t. t.metrics) s.workers)
        ∙ total-map (λ t. t.metrics) (λ m. length m.latencies_ns) s.workers in
      (omega (arith, g, a), omega (arith, a), c ∙ ap (λ n. n % two_64) (sym sums))

  shared-Reach :
      (c : Surroundings) {s : State}
      → Reach (plan_of d config c) (shared_wiring (worker_count d config)) (shared_start c) s
      → Reach
          (plan_of d config c)
          (shared_wiring (worker_count d config))
          (start
            (shared_wiring (worker_count d config))
            (warmup_end d config c.global_start)
            (worker_count d config)
            (to_ℕ config.ingress_threads)
            (empty_channel config.shared_queue_kind config.ingress_queue_capacity ∷ [])
            (no_dispatcher d config))
          s
  unfolding start_of
  shared-Reach c r = r

  shared_only : (n i : ℕ) → (shared_wiring n).worker_queue i ≡ 0
  unfolding shared_wiring
  shared_only n i = refl

  planned :
      (c : Surroundings) → is_drop config.policy ≡ true → is_drop (plan_of d config c).policy ≡ true
  unfolding plan_of
  planned c h = h

  -- A report of the shared topology over the queue under one mutex, under `Drop`: every measured
  -- event that was generated is completed or counted as dropped, every one that was accepted is
  -- completed, and each completed one has its latency among the samples. All modulo 2^64.
  pub no_event_lost :
      (c : Surroundings) (r : PipelineResult d)
      → config.topology ≡ shared_queue
      → config.shared_queue_kind ≡ global_lock
      → is_drop config.policy ≡ true
      → run_pipeline_scenario d config c ≡ ok (some (reported r))
      → (r.generated ≡ (r.completed + r.dropped) % two_64)
        × (r.accepted ≡ (r.completed + r.dropped_dispatch) % two_64)
        × (r.completed ≡ r.samples % two_64)
  no_event_lost c r t k p h =
      let v = validated c t h in
      let fit = (validate_pipeline_config_iff d config).0 v.0 in
      let (s, ran, rep) = shared_run c v.1 in
      let w = shared_wiring (worker_count d config) in
      let plan = plan_of d config c in
      let made = empty_channel config.shared_queue_kind config.ingress_queue_capacity in
      let reach = shared-Reach c (run-Reach plan w (shared_start c) c.choices ran) in
      let staff : 0 < worker_count d config = ground (arith, fit.some_worker) in
      let once : AtOnce made = ap pops_at_once k in
      let start_ns = warmup_end d config c.global_start in
      let sources = to_ℕ config.ingress_threads in
      let workers = worker_count d config in
      let (accounted, sampled, all) =
        events_accounted plan w start_ns workers sources (made ∷ []) (no_dispatcher d config)
          ((refl, refl), tt) refl reach rep.calm rep.over in
      let dropped =
        drops_counted plan w start_ns workers sources (made ∷ []) (no_dispatcher d config)
          ((refl, refl), tt) refl (planned c p) reach rep.calm rep.over in
      let empty =
        nothing_left plan w (shared_only workers) start_ns workers sources made (refl, refl) once
          staff reach rep.calm rep.over in
      subst ReportsAll (sym rep.report) (
        report_sums s (first_stats d config c.stats) zero_stats dropped
          (accounted
            ∙ ap (λ x. (s.counters.completed + s.counters.dropped_dispatch + x) % two_64) empty)
          sampled)
