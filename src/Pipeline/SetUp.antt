-- ===== src/Pipeline/SetUp.antt =====
-- pipeline.cpp: the queues that the three `run...Pipeline` functions make. A configuration that the
-- validation accepts can be set up if its capacities are below `max_size`, which stands for
-- `std::vector<Event>::max_size()`. Running out of memory is not modelled.
use laboratory.Base.{
  ℕ, zero, suc, ◌<◌, ◌≡◌, refl, List, [], ◌∷◌, map, replicate, ap₂, subst, Result, ok, ◌>>=◌,
  Result-cases, inl, inr, arith,
}
use laboratory.Base.Int.{to_ℕ}
use laboratory.Base.Double.{Double}
use laboratory.Queue.{QueueKind, spsc_ring, WaitStrategy, two_64}
use laboratory.Queue.Factory.{EventQueue, make_queue, kind_of, make_queue-ok}
use laboratory.Pipeline.{
  PipelineConfig, PipelineTopology, shared_queue, dispatch_local_spsc, direct_local_spsc,
}
use laboratory.Pipeline.Config.{
  IsValid, QueuesFit, validate_pipeline_config, validate_pipeline_config_iff,
}

module _ (d : Double) where
  -- `worker_threads` queues for the workers.
  unfoldable pub worker_queues : (max_size : ℕ) → PipelineConfig d → ℕ → Result (List EventQueue)
  worker_queues max_size config zero = ok []
  worker_queues max_size config (suc n) = do
    q ← make_queue max_size spsc_ring config.worker_queue_capacity config.wait_strategy
    qs ← worker_queues max_size config n
    ok (q ∷ qs)

  -- The queues that the three `run...Pipeline` functions make: the shared or dispatch queue if the
  -- topology has one, and the workers' own queues.
  unfoldable pub set_up_queues :
      (max_size : ℕ) → PipelineConfig d → Result (List EventQueue × List EventQueue)
  unfolding worker_queues
  set_up_queues max_size config = elim config.topology [
    | shared_queue ↦ do
      q ←
          make_queue max_size config.shared_queue_kind config.ingress_queue_capacity
            config.wait_strategy
      ok (q ∷ [], [])
    | dispatch_local_spsc ↦ do
      q ←
          make_queue max_size config.dispatch_queue_kind config.ingress_queue_capacity
            config.wait_strategy
      qs ← worker_queues max_size config (to_ℕ config.worker_threads)
      ok (q ∷ [], qs)
    | direct_local_spsc ↦ do
      qs ← worker_queues max_size config (to_ℕ config.worker_threads)
      ok ([], qs)
  ]

-- A result that is fine and shows `v` under `f`.
abbrev Shows {ℓ κ} : {A : Type ℓ} {B : Type κ} → (A → B) → Result A → B → Type (ℓ ⊔ κ)
Shows {A} f r v = (a : A) × (r ≡ ok a) × (f a ≡ v)

made :
    (max_size : ℕ) (kind : QueueKind) (capacity : ℕ) (w : WaitStrategy)
    → max_size < two_64
    → 0 < capacity
    → capacity < max_size
    → Shows kind_of (make_queue max_size kind capacity w) kind
made max_size kind capacity w word some_place fits =
    let shows = make_queue-ok max_size kind capacity w word some_place fits in
    elim (Result-cases (make_queue max_size kind capacity w)) [
      | inl (x, e) ↦ absurd (ground arith)
      | inr (q, e) ↦ (q, e, ground arith)
    ]

module _ (max_size : ℕ) (d : Double) (config : PipelineConfig d) (word : max_size < two_64) where
  made_workers :
      (n : ℕ)
      → 0 < config.worker_queue_capacity
      → config.worker_queue_capacity < max_size
      → Shows (map kind_of) (worker_queues d max_size config n) (replicate n spsc_ring)
  unfolding worker_queues
  made_workers zero h fits = ([], refl, refl)
  made_workers (suc n) h fits =
      let (q, e, k) =
        made max_size spsc_ring config.worker_queue_capacity config.wait_strategy word h fits in
      let (qs, es, ks) = made_workers n h fits in (q ∷ qs, rw (e, es), ap₂ ◌∷◌ k ks)

  -- What the queues of a set-up show.
  abbrev pub kinds : List EventQueue × List EventQueue → List QueueKind × List QueueKind
  kinds qs = (map kind_of qs.0, map kind_of qs.1)

  -- The queues that a topology needs.
  abbrev pub needed : PipelineTopology → List QueueKind × List QueueKind
  needed shared_queue = (config.shared_queue_kind ∷ [], [])
  needed dispatch_local_spsc =
      (config.dispatch_queue_kind ∷ [], replicate (to_ℕ config.worker_threads) spsc_ring)
  needed direct_local_spsc = ([], replicate (to_ℕ config.worker_threads) spsc_ring)

  set_up_topology :
      (t : PipelineTopology)
      → config.topology ≡ t
      → IsValid d config
      → config.ingress_queue_capacity < max_size
      → config.worker_queue_capacity < max_size
      → Shows kinds (set_up_queues d max_size config) (needed t)
  unfolding set_up_queues made made_workers
  set_up_topology shared_queue e v small own_small =
      let (q, m, k) =
        made max_size config.shared_queue_kind config.ingress_queue_capacity config.wait_strategy
          word v.ingress_room small in
      ((q ∷ [], []), rw (e, m), rw k)
  set_up_topology dispatch_local_spsc e v small own_small =
      let fit = subst (λ t. QueuesFit d t config) e v.queues in
      let (q, m, k) =
        made max_size config.dispatch_queue_kind config.ingress_queue_capacity config.wait_strategy
          word v.ingress_room small in
      let (qs, ms, ks) = made_workers (to_ℕ config.worker_threads) fit.1 own_small in
      ((q ∷ [], qs), rw (e, m, ms), rw (k, ks))
  set_up_topology direct_local_spsc e v small own_small =
      let fit = subst (λ t. QueuesFit d t config) e v.queues in
      let (qs, ms, ks) = made_workers (to_ℕ config.worker_threads) fit.1 own_small in
      (([], qs), rw (e, ms), rw ks)

  -- Once the validation has accepted a configuration whose two capacities are below the
  -- `max_size()` of the rings' vectors, itself below 2^64, the constructor of no queue of its
  -- topology throws (memory permitting): the shared or dispatch queue of the configured kind, and
  -- one SPSC queue for each worker.
  pub set_up_after_validation :
      validate_pipeline_config d config ≡ ok tt
      → config.ingress_queue_capacity < max_size
      → config.worker_queue_capacity < max_size
      → (qs : List EventQueue × List EventQueue) × (set_up_queues d max_size config ≡ ok qs)
        × (kinds qs ≡ needed config.topology)
  set_up_after_validation h small own_small =
      set_up_topology config.topology refl ((validate_pipeline_config_iff d config).0 h) small
        own_small
