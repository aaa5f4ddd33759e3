-- ===== src/Cli/PipelineMain.antt =====
-- custom-queue-latency/src/pipeline_main.cpp, `parseArgs`.
pub mod Reproduce
use Prim.Native.String.{String}
use text.Mathlib.Text.{◌==◌}
use laboratory.Base.{◌||◌, if◌then◌else◌, List, Option, none, some, Result, ok, ◌>>=◌}
use laboratory.Base.Int.{ℤ, pos}
use laboratory.Base.Numbers.{stoi, stoull}
use laboratory.Base.Double.{Double}
use laboratory.Queue.{block, queue_default, split_lock_linked}
use laboratory.Queue.Names.{parse_queue_kind, parse_wait_strategy}
use laboratory.Pipeline.{PipelineConfig, shared_queue}
use laboratory.Pipeline.Names.{parse_pipeline_topology}
use laboratory.Cli.{Options, Parsed, parse_args, parse_policy, or_bad_number}

-- The options that take a value.
pub data Field : Type 0 where
  topology shared_queue_kind dispatch_queue ingress workers duration_ms warmup_ms : Field
  capacity worker_capacity rate policy wait_strategy service_ns jitter_ns : Field

unfoldable pub field_of : String → Option Field
field_of arg =
    if arg == "--topology"
    then some topology
    else (if arg == "--shared-queue"
        then some shared_queue_kind
        else (if arg == "--dispatch-queue"
            then some dispatch_queue
            else (if arg == "--ingress"
                then some ingress
                else (if arg == "--workers"
                    then some workers
                    else (if arg == "--duration-ms"
                        then some duration_ms
                        else (if arg == "--warmup-ms"
                            then some warmup_ms
                            else (if arg == "--capacity"
                                then some capacity
                                else (if arg == "--worker-capacity"
                                    then some worker_capacity
                                    else (if arg == "--rate"
                                        then some rate
                                        else (if arg == "--policy"
                                            then some policy
                                            else (if arg == "--wait-strategy"
                                                then some wait_strategy
                                                else (if arg == "--service-ns"
                                                    then some service_ns
                                                    else (if arg == "--jitter-ns"
                                                        then some jitter_ns
                                                        else none)))))))))))))

module _ (d : Double) where
  -- `PipelineConfig config{}`
  unfoldable pub default_config : PipelineConfig d
  default_config = record {
    ingress_threads = pos 4;
    worker_threads = pos 4;
    duration = pos 2000;
    warmup = pos 0;
    ingress_queue_capacity = 1024;
    worker_queue_capacity = 256;
    rate_per_ingress = d.of_ℕ 0;
    policy = block;
    wait_strategy = queue_default;
    topology = shared_queue;
    shared_queue_kind = split_lock_linked;
    dispatch_queue_kind = split_lock_linked;
    service_ns = 0;
    jitter_ns = 0;
  }

  unfoldable pub set_field : Field → String → PipelineConfig d → Result (PipelineConfig d)
  set_field topology v c = do x ← parse_pipeline_topology v; ok (record c { topology = x })
  set_field shared_queue_kind v c = do
    x ← parse_queue_kind v
    ok (record c { shared_queue_kind = x })
  set_field dispatch_queue v c = do
    x ← parse_queue_kind v
    ok (record c { dispatch_queue_kind = x })
  set_field ingress v c = do x ← stoi v; ok (record c { ingress_threads = x })
  set_field workers v c = do x ← stoi v; ok (record c { worker_threads = x })
  set_field duration_ms v c = do x ← stoi v; ok (record c { duration = x })
  set_field warmup_ms v c = do x ← stoi v; ok (record c { warmup = x })
  set_field capacity v c = do x ← stoull v; ok (record c { ingress_queue_capacity = x })
  set_field worker_capacity v c = do x ← stoull v; ok (record c { worker_queue_capacity = x })
  set_field rate v c = do x ← or_bad_number (d.stod v); ok (record c { rate_per_ingress = x })
  set_field policy v c = do x ← parse_policy v; ok (record c { policy = x })
  set_field wait_strategy v c = do x ← parse_wait_strategy v; ok (record c { wait_strategy = x })
  set_field service_ns v c = do x ← stoull v; ok (record c { service_ns = x })
  set_field jitter_ns v c = do x ← stoull v; ok (record c { jitter_ns = x })

  abbrev pub options : Options (PipelineConfig d) Field
  options = record { field_of = field_of; set_field = set_field }

  -- `parseArgs`, on the arguments behind the program's name.
  unfoldable pub parse_pipeline_args : List String → Result (Parsed (PipelineConfig d))
  parse_pipeline_args args = parse_args options default_config args
