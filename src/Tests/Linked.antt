-- ===== src/Tests/Linked.antt =====
-- Two threads over a linked queue, at a concrete schedule.
use laboratory.Base.{
  suc, none, Option, ℕ, ◌≡◌, ◌≢◌, ◌≤◌, ◌++◌, [], ◌∷◌, false, some, Bool, refl, arith, get_elem?,
  length,
}
use laboratory.Queue.{Event, block, drop, queue_default}
use laboratory.Queue.Concurrent.{Env, Op, Reply}
use laboratory.Queue.Schedule.{Run, schedule, calls, steps}
use laboratory.Queue.SplitLock
use laboratory.Queue.SplitLock.Bounds
use laboratory.Queue.SplitLock.Bounds.{split_lock_bounded}
use laboratory.Queue.SplitLock.{Node}
use laboratory.Queue.SplitLock.Destroy.{destroy_nodes, destroy_nodes-deleted}
use laboratory.Queue.SplitLock.Fifo.{view, split_lock_in_order, split_lock_no_fault}

abbrev event : ℕ → Event
event n = record { id = n; route_key = n; target_worker = 0; created_at = n }

abbrev going : Env
going = record { stop = false; spurious = false }

-- Two threads over a linked queue of capacity 2.
abbrev linked : Run SplitLock.code (Bounds.initial 2 queue_default 2)
linked = schedule SplitLock.code (Bounds.initial 2 queue_default 2) (
    calls 0 (Op.push (event 7) block)
    ∷ steps 0 going 5
    ∷ calls 0 (Op.push (event 8) drop)
    ∷ steps 0 going 5
    ∷ calls 1 Op.pop
    ∷ steps 1 going 4
    ∷ [])

linked_events : (linked.ins ≡ event 7 ∷ event 8 ∷ []) × (linked.outs ≡ event 7 ∷ [])
unfolding schedule SplitLock.micro SplitLock.make
linked_events = (refl, refl)

split_lock_bounded_example :
    (linked.last.shared.depth ≤ 2)
    × (linked.last.shared.stats.max_observed_depth ≤ 2)
    × (linked.last.shared.items ≤ linked.last.shared.depth)
split_lock_bounded_example =
    split_lock_bounded 2 2 queue_default (omega arith) (omega arith) linked.reach

split_lock_in_order_example :
    (linked.ins ≡ linked.outs ++ view linked.last.shared) × (length (view linked.last.shared) ≤ 2)
split_lock_in_order_example =
    split_lock_in_order 2 2 queue_default (omega arith) (omega arith) linked.reach

split_lock_no_fault_example :
    (get_elem? linked.last.threads 1 ≢ some SplitLock.fault)
    × ((b : Bool) → get_elem? linked.last.threads 1 ≢ some (SplitLock.done (Reply.left_unset b)))
split_lock_no_fault_example =
    split_lock_no_fault 2 2 queue_default (omega arith) (omega arith) linked.reach 1

destroy_nodes-deleted_example :
    (left : ℕ → Option Node) × (destroy_nodes
        (suc linked.last.shared.depth)
        linked.last.shared.heap.cell
        (some linked.last.shared.head)
      ≡ some left)
    × (left linked.last.shared.head ≡ none)
    × (left linked.last.shared.tail ≡ none)
destroy_nodes-deleted_example =
    destroy_nodes-deleted 2 2 queue_default (omega arith) (omega arith) linked.reach
