-- ===== src/Base/Double.antt =====
-- Floating point numbers are not modelled: their type and the operations that the program uses are
-- a parameter. No law of theirs is assumed.
use Prim.Native.Nat.{ℕ}
use Prim.Native.String.{String}
use mathlib.Core.Bool.{Bool}
use mathlib.Core.Option.{Option}
use laboratory.Base.Int.{ℤ}

pub record Double : Type 1 where
  pub F : Type 0
  pub of_ℕ : ℕ → F
  pub of_ℤ : ℤ → F
  pub lt : F → F → Bool
  pub le : F → F → Bool
  pub add : F → F → F
  pub sub : F → F → F
  pub mul : F → F → F
  pub div : F → F → F
  pub sqrt : F → F
  -- `static_cast<std::size_t>(std::llround(x))`
  pub llround : F → ℕ
  -- `std::stod`, `none` where it throws.
  pub stod : String → Option F
