-- ===== src/Harness.antt =====
-- custom-queue-latency/src/harness.hpp and harness.cpp: the configuration of a scenario and its
-- validation.
pub mod Run
pub mod Scenario
use Prim.Native.String.{String}
use laboratory.Base.{
  ℕ, ◌<◌, ◌≡◌, ◌↔◌, Bool, true, false, not, Result, ok, ◌>>◌, reject, Error, arith, ◌==◌,
}
use laboratory.Base.Int.{ℤ, pos, negsuc, leb_ℤ, ltb_ℤ}
use laboratory.Base.Double.{Double}
use laboratory.Queue.{BackpressurePolicy, WaitStrategy, QueueKind, spsc_ring}

-- Durations are in seconds.
pub record ScenarioConfig (d : Double) : Type 0 where
  pub producers : ℤ
  pub consumers : ℤ
  pub duration : ℤ
  pub warmup : ℤ
  pub capacity : ℕ
  pub rate_per_producer : d.F
  pub policy : BackpressurePolicy
  pub queue_type : String
  pub wait_strategy : WaitStrategy

-- `n != 1`
abbrev pub is_not_one : ℤ → Bool
is_not_one (pos n) = not (n == 1)
is_not_one (negsuc n) = true

module _ (d : Double) where
  unfoldable pub validate_scenario_config : ScenarioConfig d → QueueKind → Result (Unit {0})
  validate_scenario_config config queue_kind = do
    reject (is_not_one config.consumers) Error.consumers_not_one
    reject (leb_ℤ config.producers (pos 0)) Error.producers_low
    reject (leb_ℤ config.duration (pos 0)) Error.duration_low
    reject (ltb_ℤ config.warmup (pos 0)) Error.warmup_negative
    reject (d.lt config.rate_per_producer (d.of_ℕ 0)) Error.rate_negative
    elim queue_kind [
      | spsc_ring ↦ do
        reject (is_not_one config.producers) Error.spsc_producers
        reject (is_not_one config.consumers) Error.spsc_consumers
        reject (config.capacity == 0) Error.spsc_capacity_zero
      | other ↦ ok tt
    ]

  abbrev pub SpscFits : QueueKind → ScenarioConfig d → Type 0
  SpscFits spsc_ring config = (config.producers ≡ pos 1) × (0 < config.capacity)
  SpscFits kind config = Unit

  pub record IsValid (config : ScenarioConfig d) (kind : QueueKind) : Type 0 where
    pub one_consumer : config.consumers ≡ pos 1
    pub some_producer : ltb_ℤ (pos 0) config.producers ≡ true
    pub some_duration : ltb_ℤ (pos 0) config.duration ≡ true
    pub no_negative_warmup : leb_ℤ (pos 0) config.warmup ≡ true
    pub no_negative_rate : d.lt config.rate_per_producer (d.of_ℕ 0) ≡ false
    pub queue : SpscFits kind config

  validate_scenario_config-IsValid :
      (config : ScenarioConfig d) (kind : QueueKind)
      → validate_scenario_config config kind ≡ ok tt
      → IsValid config kind
  unfolding validate_scenario_config
  validate_scenario_config-IsValid config kind h = ground arith

  IsValid-validate_scenario_config :
      (config : ScenarioConfig d) (kind : QueueKind)
      → IsValid config kind
      → validate_scenario_config config kind ≡ ok tt
  unfolding validate_scenario_config
  IsValid-validate_scenario_config config kind v = ground arith

  -- The validation accepts a scenario exactly if it has one consumer and some producer, the
  -- duration is positive, warmup and rate are not negative, and, for the single-producer ring,
  -- there is one producer only and room for an event.
  pub validate_scenario_config_iff :
      (config : ScenarioConfig d) (kind : QueueKind)
      → (validate_scenario_config config kind ≡ ok tt) ↔ IsValid config kind
  validate_scenario_config_iff config kind =
      (validate_scenario_config-IsValid config kind, IsValid-validate_scenario_config config kind)
