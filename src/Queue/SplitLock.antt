-- ===== src/Queue/SplitLock.antt =====
-- queues.cpp, `SplitLockLinkedQueue`, a step at a time, over an explicit heap of nodes. A step is
-- one access to a semaphore or to the two flags, the allocation or deletion of a node, or one
-- section under `tail_mu_` or `head_mu_`.
pub mod Bounds
pub mod Chain
pub mod Ownership
pub mod Steps
pub mod Fifo
pub mod Destroy
use laboratory.Base.{
  ℕ, ◌+◌, ◌-◌, ◌%◌, Bool, true, false, not, ◌&&◌, ◌||◌, ltb, ◌==◌, if◌then◌else◌, List, [], ◌∷◌,
  Option, some, none,
}
use laboratory.Queue.{
  Event, BackpressurePolicy, block, drop, WaitStrategy, split_lock_linked, two_64, QueueStats,
  zero_stats, bump, pause, update_max_depth, resolve_wait_strategy,
}
use laboratory.Queue.Concurrent.{
  Op, Reply, pushed, popped, left_unset, closed_now, Env, Label, quiet, enters, leaves, QueueCode,
}

-- `Node`; `next` is `none` for a null pointer.
pub record Node : Type 0 where
  pub value : Option Event
  pub next : Option ℕ

-- The nodes that are allocated, by address, and an address above all that were ever allocated.
pub record Heap : Type 0 where
  pub cell : ℕ → Option Node
  pub fresh : ℕ

abbrev pub update : (ℕ → Option Node) → ℕ → Option Node → ℕ → Option Node
update cell a n b = if a == b then n else cell b

-- `slots_` is `none` for an unbounded queue.
pub record SplitLockLinkedQueue : Type 0 where
  pub capacity : ℕ
  pub wait_strategy : WaitStrategy
  pub heap : Heap
  pub head : ℕ
  pub tail : ℕ
  pub closed : Bool
  pub depth : ℕ
  pub items : ℕ
  pub slots : Option ℕ
  pub stats : QueueStats

-- The constructor: one node without a value, and `slots_` unless the capacity is 0.
unfoldable pub make : ℕ → WaitStrategy → SplitLockLinkedQueue
make capacity requested = record {
  capacity = capacity;
  wait_strategy = resolve_wait_strategy split_lock_linked requested;
  heap = record {
    cell = update (λ a. none) 0 (some (record { value = none; next = none }));
    fresh = 1;
  };
  head = 0;
  tail = 0;
  closed = false;
  depth = 0;
  items = 0;
  slots = if capacity == 0 then none else some capacity;
  stats = zero_stats;
}

-- Where a call stands, with its live locals. `fault` stands for an access through a pointer that
-- is null or whose node has been deleted.
pub data Pc : Type 0 where
  enter_push : (ev : Event) (policy : BackpressurePolicy) → Pc
  try_slot : (ev : Event) (policy : BackpressurePolicy) (spins : ℕ) → Pc
  saw_full : (ev : Event) (spins : ℕ) → Pc
  new_node : (ev : Event) → Pc
  link : (ev : Event) (node : ℕ) → Pc
  give_back : Pc
  post_item : Pc
  try_item : (spins : ℕ) → Pc
  saw_empty : (spins : ℕ) → Pc
  take : Pc
  free_head : (ev : Event) (old_head : ℕ) → Pc
  post_slot : (ev : Event) → Pc
  closing : Pc
  fault : Pc
  done : (r : Reply) → Pc

abbrev pub acquires : Env → ℕ → Bool
acquires e n = ltb 0 n && not e.spurious

abbrev pub shut : Env → SplitLockLinkedQueue → Bool
shut e q = q.closed || e.stop

abbrev pub count : SplitLockLinkedQueue → QueueStats → SplitLockLinkedQueue
count q s = record q { stats = s }

abbrev pub fail : SplitLockLinkedQueue → SplitLockLinkedQueue × Pc
fail q = (count q (record q.stats { push_fail = bump q.stats.push_fail }), done (pushed false))

abbrev pub set_cell : SplitLockLinkedQueue → ℕ → Option Node → SplitLockLinkedQueue
set_cell q a n = record q { heap = record q.heap { cell = update q.heap.cell a n } }

-- `slots_->try_acquire()` where there are slots, and what follows it.
abbrev pub reserve :
    Env
    → SplitLockLinkedQueue
    → Option ℕ
    → Event
    → BackpressurePolicy
    → ℕ
    → SplitLockLinkedQueue × Pc
reserve e q none ev policy spins = (q, new_node ev)
reserve e q (some n) ev policy spins =
    if acquires e n
    then (record q { slots = some (n - 1) }, new_node ev)
    else (let q' = count q (record q.stats { full_hits = bump q.stats.full_hits }) in
        elim policy [ block ↦ (q', saw_full ev spins) | drop ↦ fail q' ])

-- The section under `tail_mu_`, where `last` is what `tail_` points to.
abbrev pub link_at : SplitLockLinkedQueue → Option Node → Event → ℕ → SplitLockLinkedQueue × Pc
link_at q none ev node = (q, fault)
link_at q (some last) ev node =
    let q' = set_cell q q.tail (some (record last { next = some node })) in
    (
      record q' {
        tail = node;
        depth = bump q.depth;
        stats = record q.stats {
          max_observed_depth = update_max_depth q.stats.max_observed_depth (bump q.depth);
        };
      },
      post_item,
    )

-- The section under `head_mu_`: by what `head_` points to, and by the node after it.
abbrev pub take_value : SplitLockLinkedQueue → ℕ → Option Node → SplitLockLinkedQueue × Pc
take_value q new_head none = (q, fault)
take_value q new_head (some node) = elim node.value [
  | none ↦ (q, fault)
  | some ev ↦
      (record q { head = new_head; depth = (q.depth + two_64 - 1) % two_64 }, free_head ev q.head)
]

abbrev pub take_after : Env → SplitLockLinkedQueue → Option ℕ → SplitLockLinkedQueue × Pc
take_after e q none = (q, done (left_unset (not (shut e q))))
take_after e q (some new_head) = take_value q new_head (q.heap.cell new_head)

abbrev pub take_at : Env → SplitLockLinkedQueue → Option Node → SplitLockLinkedQueue × Pc
take_at e q none = (q, fault)
take_at e q (some node) = take_after e q node.next

-- `delete node`
abbrev pub delete_at : SplitLockLinkedQueue → ℕ → Option Node → Pc → SplitLockLinkedQueue × Pc
delete_at q a none p = (q, fault)
delete_at q a (some node) p = (set_cell q a none, p)

-- `slots_->release()` where there are slots.
abbrev pub release_slot : SplitLockLinkedQueue → SplitLockLinkedQueue
release_slot q = record q { slots = elim q.slots [ none ↦ none | some n ↦ some (n + 1) ] }

unfoldable pub micro : Env → SplitLockLinkedQueue → Pc → SplitLockLinkedQueue × Pc
micro e q (enter_push ev policy) =
    let q' = count q (record q.stats { push_attempts = bump q.stats.push_attempts }) in
    if q.closed then fail q' else (q', try_slot ev policy 0)
micro e q (try_slot ev policy spins) = reserve e q q.slots ev policy spins
micro e q (saw_full ev spins) =
    if shut e q
    then fail q
    else (count q (pause spins q.stats).1, try_slot ev block (pause spins q.stats).0)
micro e q (new_node ev) =
    let node : Node = record { value = some ev; next = none } in
    (
      record q {
        heap = record {
          cell = update q.heap.cell q.heap.fresh (some node);
          fresh = q.heap.fresh + 1;
        };
      },
      link ev q.heap.fresh,
    )
micro e q (link ev node) =
    if q.closed
    then delete_at q node (q.heap.cell node) give_back
    else link_at q (q.heap.cell q.tail) ev node
micro e q give_back = fail (release_slot q)
micro e q post_item = (
  record q {
    items = q.items + 1;
    stats = record q.stats { push_success = bump q.stats.push_success };
  },
  done (pushed true),
)
micro e q (try_item spins) =
    if acquires e q.items
    then (record q { items = q.items - 1 }, take)
    else (count q (record q.stats { empty_hits = bump q.stats.empty_hits }), saw_empty spins)
micro e q (saw_empty spins) =
    if shut e q
    then (q, done (popped none))
    else (count q (pause spins q.stats).1, try_item (pause spins q.stats).0)
micro e q take = take_at e q (q.heap.cell q.head)
micro e q (free_head ev old_head) = delete_at q old_head (q.heap.cell old_head) (post_slot ev)
micro e q (post_slot ev) =
    let q' = release_slot q in
    (
      count q' (record q'.stats { pop_success = bump q'.stats.pop_success }),
      done (popped (some ev)),
    )
micro e q closing = (record q { closed = true }, done closed_now)
micro e q fault = (q, fault)
micro e q (done r) = (q, done r)

abbrev pub start : Op → Pc
start (Op.push ev policy) = enter_push ev policy
start Op.pop = try_item 0
start Op.close = closing

abbrev pub finished : Pc → Option Reply
finished (done r) = some r
finished p = none

-- An event enters the queue in the section under `tail_mu_`, and leaves it in the one under
-- `head_mu_`.
abbrev pub label : Pc → Pc → Label
label (link ev node) post_item = enters ev
label take (free_head ev old_head) = leaves ev
label p p' = quiet

abbrev pub code : QueueCode SplitLockLinkedQueue Pc
code = record { start = start; finished = finished; micro = micro; label = label }
