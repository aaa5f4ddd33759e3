-- ===== src/Base/Results.antt =====
-- Fallible code. Each `throw` of the modelled sources has one constructor of `Error`.
use mathlib.Core.Bool.{Bool, true, false}
use mathlib.Core.Logic.{◌⊎◌, inl, inr}
use mathlib.Core.Path.{◌≡◌, refl}

pub data Error : Type 0 where
  bad_wait_strategy : Error
  bad_queue_type : Error
  mpmc_capacity_zero : Error
  spsc_capacity_zero : Error
  length_error : Error
  bad_topology : Error
  ingress_threads_low : Error
  worker_threads_low : Error
  duration_low : Error
  warmup_negative : Error
  rate_negative : Error
  ingress_capacity_zero : Error
  shared_spsc : Error
  dispatch_spsc : Error
  worker_capacity_zero : Error
  direct_too_many_ingress : Error
  consumers_not_one : Error
  producers_low : Error
  spsc_producers : Error
  spsc_consumers : Error
  missing_value : Error
  bad_policy : Error
  unknown_argument : Error
  bad_number : Error
  no_index_file : Error
  bad_block_size : Error
  bad_entry : Error
  bad_range : Error
  bad_command : Error
  missing_block_size : Error
  missing_insertion_file : Error
  missing_search_file : Error
  missing_range_file : Error
  missing_print_file : Error

pub data Result {ℓ} (A : Type ℓ) : Type ℓ where
  err : Error → Result A
  ok : A → Result A

infixl 5 ◌>>=◌ ◌>>◌
abbrev pub ◌>>=◌ {ℓ κ} : {A : Type ℓ} {B : Type κ} → Result A → (A → Result B) → Result B
err thrown >>= continue = err thrown
ok a >>= continue = continue a

abbrev pub ◌>>◌ {ℓ} : {B : Type ℓ} → Result (Unit {0}) → Result B → Result B
first >> second = first >>= λ done. second

-- `if (bad) throw e;`
abbrev pub reject : Bool → Error → Result (Unit {0})
reject true e = err e
reject false e = ok tt

pub Result-cases {ℓ} :
    {A : Type ℓ} (r : Result A) → ((e : Error) × (r ≡ err e)) ⊎ ((a : A) × (r ≡ ok a))
Result-cases (err e) = inl (e, refl)
Result-cases (ok a) = inr (a, refl)
