-- ===== src/Cli/ScenarioMain.antt =====
-- custom-queue-latency/src/main.cpp, `parseArgs`.
use Prim.Native.String.{String}
use text.Mathlib.Text.{◌==◌}
use laboratory.Base.{if◌then◌else◌, List, Option, none, some, Result, ok, ◌>>=◌}
use laboratory.Base.Int.{pos}
use laboratory.Base.Numbers.{stoi, stoull}
use laboratory.Base.Double.{Double}
use laboratory.Queue.{block, queue_default}
use laboratory.Queue.Names.{parse_wait_strategy}
use laboratory.Harness.{ScenarioConfig}
use laboratory.Cli.{Options, Parsed, parse_args, parse_policy, or_bad_number}

-- The options that take a value.
pub data Field : Type 0 where
  duration warmup producers consumers capacity rate policy queue wait_strategy : Field

unfoldable pub field_of : String → Option Field
field_of arg =
    if arg == "--duration"
    then some duration
    else (if arg == "--warmup"
        then some warmup
        else (if arg == "--producers"
            then some producers
            else (if arg == "--consumers"
                then some consumers
                else (if arg == "--capacity"
                    then some capacity
                    else (if arg == "--rate"
                        then some rate
                        else (if arg == "--policy"
                            then some policy
                            else (if arg == "--queue"
                                then some queue
                                else (if arg == "--wait-strategy"
                                    then some wait_strategy
                                    else none))))))))

module _ (d : Double) where
  -- `ScenarioConfig config{}`
  unfoldable pub default_config : ScenarioConfig d
  default_config = record {
    producers = pos 1;
    consumers = pos 1;
    duration = pos 10;
    warmup = pos 0;
    capacity = 1024;
    rate_per_producer = d.of_ℕ 0;
    policy = block;
    queue_type = "global_lock";
    wait_strategy = queue_default;
  }

  unfoldable pub set_field : Field → String → ScenarioConfig d → Result (ScenarioConfig d)
  set_field duration v c = do x ← stoi v; ok (record c { duration = x })
  set_field warmup v c = do x ← stoi v; ok (record c { warmup = x })
  set_field producers v c = do x ← stoi v; ok (record c { producers = x })
  set_field consumers v c = do x ← stoi v; ok (record c { consumers = x })
  set_field capacity v c = do x ← stoull v; ok (record c { capacity = x })
  set_field rate v c = do x ← or_bad_number (d.stod v); ok (record c { rate_per_producer = x })
  set_field policy v c = do x ← parse_policy v; ok (record c { policy = x })
  set_field queue v c = ok (record c { queue_type = v })
  set_field wait_strategy v c = do x ← parse_wait_strategy v; ok (record c { wait_strategy = x })

  abbrev pub options : Options (ScenarioConfig d) Field
  options = record { field_of = field_of; set_field = set_field }

  -- `parseArgs`, on the arguments behind the program's name.
  unfoldable pub parse_scenario_args : List String → Result (Parsed (ScenarioConfig d))
  parse_scenario_args args = parse_args options default_config args
