-- ===== src/Queue/Names.antt =====
-- queues.cpp: `parseWaitStrategy`, `parseQueueKind`, `queueKindName`, `waitStrategyName`.
use Prim.Native.String.{String}
use text.Mathlib.Text.{◌==◌}
use laboratory.Base.{◌||◌, ◌≡◌, refl, if◌then◌else◌, Result, ok, err, Error}
use laboratory.Queue.{
  WaitStrategy, queue_default, condition_variable, spin_yield, QueueKind, global_lock,
  split_lock_linked, mpmc_ring, spsc_ring,
}

unfoldable pub parse_wait_strategy : String → Result WaitStrategy
parse_wait_strategy name =
    if name == "default" || name == "queue_default" || name == "queue-default"
    then ok queue_default
    else (if name == "cv" || name == "condition_variable" || name == "condition-variable"
        then ok condition_variable
        else (if name == "spin" || name == "spin_yield" || name == "spin-yield"
            then ok spin_yield
            else err Error.bad_wait_strategy))

unfoldable pub parse_queue_kind : String → Result QueueKind
parse_queue_kind name =
    if name == "global_lock" || name == "global-lock" || name == "mutex"
    then ok global_lock
    else (if name == "split_lock"
          || name == "split-lock"
          || name == "split_linked"
          || name == "split-linked"
          || name == "twolock"
          || name == "two-lock"
        then ok split_lock_linked
        else (if name == "mpmc_ring" || name == "mpmc-ring" || name == "mpmc"
            then ok mpmc_ring
            else (if name == "spsc" then ok spsc_ring else err Error.bad_queue_type)))

unfoldable pub queue_kind_name : QueueKind → String
queue_kind_name global_lock = "global_lock"
queue_kind_name split_lock_linked = "split_lock"
queue_kind_name mpmc_ring = "mpmc_ring"
queue_kind_name spsc_ring = "spsc"

unfoldable pub wait_strategy_name : WaitStrategy → String
wait_strategy_name queue_default = "default"
wait_strategy_name condition_variable = "cv"
wait_strategy_name spin_yield = "spin_yield"

-- The name that is printed for a queue kind parses back to that kind.
pub parse_queue_kind-queue_kind_name :
    (kind : QueueKind) → parse_queue_kind (queue_kind_name kind) ≡ ok kind
unfolding parse_queue_kind queue_kind_name
parse_queue_kind-queue_kind_name global_lock = refl
parse_queue_kind-queue_kind_name split_lock_linked = refl
parse_queue_kind-queue_kind_name mpmc_ring = refl
parse_queue_kind-queue_kind_name spsc_ring = refl

-- The name that is printed for a wait strategy parses back to that strategy.
pub parse_wait_strategy-wait_strategy_name :
    (s : WaitStrategy) → parse_wait_strategy (wait_strategy_name s) ≡ ok s
unfolding parse_wait_strategy wait_strategy_name
parse_wait_strategy-wait_strategy_name queue_default = refl
parse_wait_strategy-wait_strategy_name condition_variable = refl
parse_wait_strategy-wait_strategy_name spin_yield = refl
