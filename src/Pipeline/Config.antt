-- ===== src/Pipeline/Config.antt =====
-- pipeline.cpp, `validatePipelineConfig`, and what it is for: a valid configuration can be set up.
use laboratory.Base.{
  ◌<◌, ◌≡◌, ◌≢◌, ◌↔◌, Bool, true, false, ◌&&◌, Result, ok, ◌>>◌, reject, Error, arith, ◌==◌,
}
use laboratory.Base.Int.{pos, leb_ℤ, ltb_ℤ}
use laboratory.Base.Double.{Double}
use laboratory.Queue.{QueueKind, spsc_ring}
use laboratory.Pipeline.{
  PipelineConfig, PipelineTopology, shared_queue, dispatch_local_spsc, direct_local_spsc,
}

abbrev pub is_spsc : QueueKind → Bool
is_spsc spsc_ring = true
is_spsc k = false

module _ (d : Double) where
  -- The tests of the two topologies with local queues.
  abbrev pub validate_local : PipelineConfig d → Bool → Result (Unit {0})
  validate_local config direct = do
    reject (is_spsc config.dispatch_queue_kind) Error.dispatch_spsc
    reject (config.worker_queue_capacity == 0) Error.worker_capacity_zero
    reject (direct && ltb_ℤ config.worker_threads config.ingress_threads)
        Error.direct_too_many_ingress

  unfoldable pub validate_pipeline_config : PipelineConfig d → Result (Unit {0})
  validate_pipeline_config config = do
    reject (leb_ℤ config.ingress_threads (pos 0)) Error.ingress_threads_low
    reject (leb_ℤ config.worker_threads (pos 0)) Error.worker_threads_low
    reject (leb_ℤ config.duration (pos 0)) Error.duration_low
    reject (ltb_ℤ config.warmup (pos 0)) Error.warmup_negative
    reject (d.lt config.rate_per_ingress (d.of_ℕ 0)) Error.rate_negative
    reject (config.ingress_queue_capacity == 0) Error.ingress_capacity_zero
    elim config.topology [
      | shared_queue ↦ reject (is_spsc config.shared_queue_kind) Error.shared_spsc
      | dispatch_local_spsc ↦ validate_local config false
      | direct_local_spsc ↦ validate_local config true
    ]

  -- The queues that a topology sets up have room and are of a kind that their use allows.
  abbrev pub QueuesFit : PipelineTopology → PipelineConfig d → Type 0
  QueuesFit shared_queue config = config.shared_queue_kind ≢ spsc_ring
  QueuesFit dispatch_local_spsc config =
      (config.dispatch_queue_kind ≢ spsc_ring) × (0 < config.worker_queue_capacity)
  QueuesFit direct_local_spsc config =
      (config.dispatch_queue_kind ≢ spsc_ring)
      × (0 < config.worker_queue_capacity)
      × (ltb_ℤ config.worker_threads config.ingress_threads ≡ false)

  pub record IsValid (config : PipelineConfig d) : Type 0 where
    pub some_ingress : ltb_ℤ (pos 0) config.ingress_threads ≡ true
    pub some_worker : ltb_ℤ (pos 0) config.worker_threads ≡ true
    pub some_duration : ltb_ℤ (pos 0) config.duration ≡ true
    pub no_negative_warmup : leb_ℤ (pos 0) config.warmup ≡ true
    pub no_negative_rate : d.lt config.rate_per_ingress (d.of_ℕ 0) ≡ false
    pub ingress_room : 0 < config.ingress_queue_capacity
    pub queues : QueuesFit config.topology config

  validate_pipeline_config-IsValid :
      (config : PipelineConfig d) → validate_pipeline_config config ≡ ok tt → IsValid config
  unfolding validate_pipeline_config
  validate_pipeline_config-IsValid config h = ground arith

  IsValid-validate_pipeline_config :
      (config : PipelineConfig d) → IsValid config → validate_pipeline_config config ≡ ok tt
  unfolding validate_pipeline_config
  IsValid-validate_pipeline_config config v = ground arith

  -- The validation accepts a configuration exactly if there are threads on both sides, the duration
  -- is positive, warmup and rate are not negative, the ingress queue has room, and the queues of
  -- the topology have room and are of a kind that their use allows.
  pub validate_pipeline_config_iff :
      (config : PipelineConfig d) → (validate_pipeline_config config ≡ ok tt) ↔ IsValid config
  validate_pipeline_config_iff config =
      (validate_pipeline_config-IsValid config, IsValid-validate_pipeline_config config)
