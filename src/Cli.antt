-- ===== src/Cli.antt =====
-- custom-queue-latency/src/main.cpp and pipeline_main.cpp: the loop of `parseArgs`, which is the
-- same in both programs. A program gives its options and what each does with its value.
pub mod PipelineMain
pub mod ScenarioMain
use Prim.Native.String.{String}
use text.Mathlib.Text.{◌==◌}
use laboratory.Base.{
  ◌≡◌, refl, ◌∙◌, Bool, true, false, ◌||◌, if◌then◌else◌, List, [], ◌∷◌, ◌++◌, Option, none, some,
  Result, ok, err, ◌>>=◌, Error, arith, Bool-cases, inl, inr, Option-cases,
}
use laboratory.Queue.{BackpressurePolicy, block, drop}

-- The options of a program, each with a value, over its configuration.
pub record Options (Config Field : Type 0) : Type 0 where
  pub field_of : String → Option Field
  pub set_field : Field → String → Config → Result Config

-- `--help` ends the program at once.
pub data Parsed (Config : Type 0) : Type 0 where
  show_help : Parsed Config
  configured : Config → Parsed Config

abbrev pub is_help : String → Bool
is_help arg = arg == "--help" || arg == "-h"

-- The values of `--policy`.
unfoldable pub parse_policy : String → Result BackpressurePolicy
parse_policy v =
    if v == "block" then ok block else (if v == "drop" then ok drop else err Error.bad_policy)

-- `std::stod` where it throws.
abbrev pub or_bad_number {ℓ} : {A : Type ℓ} → Option A → Result A
or_bad_number none = err Error.bad_number
or_bad_number (some a) = ok a

module _ {Config Field : Type 0} (o : Options Config Field) where
  -- An argument that is not `--help` and has no argument behind it.
  abbrev pub last_argument : Option Field → Result (Parsed Config)
  last_argument none = err Error.unknown_argument
  last_argument (some f) = err Error.missing_value

  unfoldable pub parse_args : Config → List String → Result (Parsed Config)
  parse_args config [] = ok (configured config)
  parse_args config (arg ∷ []) =
      if is_help arg then ok show_help else last_argument (o.field_of arg)
  parse_args config (arg ∷ value ∷ rest) = elim (is_help arg) [
    | true ↦ ok show_help
    | false ↦ elim (o.field_of arg) [
      | none ↦ err Error.unknown_argument
      | some f ↦ elim (o.set_field f value config) [
        | err e ↦ err e
        | ok config' ↦ parse_args config' rest
      ]
    ]
  ]

  -- An option with a good value is taken, and the reading goes on behind the value.
  pub parse_args_option :
      (config : Config) (arg value : String) (rest : List String) (f : Field) (config' : Config)
      → is_help arg ≡ false
      → o.field_of arg ≡ some f
      → o.set_field f value config ≡ ok config'
      → parse_args config (arg ∷ value ∷ rest) ≡ parse_args config' rest
  unfolding parse_args
  parse_args_option config arg value rest f config' no_help at good =
      rw (no_help, at, good, parse_args)

  pub parse_args_nil : (config : Config) → parse_args config [] ≡ ok (configured config)
  unfolding parse_args
  parse_args_nil config = refl
