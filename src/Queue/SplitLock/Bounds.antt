-- ===== src/Queue/SplitLock/Bounds.antt =====
-- The bounds of `SplitLockLinkedQueue`: its slots, its items and its counters.
use laboratory.Base.{
  ℕ, refl, ◌+◌, ◌≤◌, ◌<◌, ◌≡◌, ◌^◌, List, set, get_elem?, Option, some, none, total, total-set,
  total-replicate, replicate, le-total, arith,
}
use laboratory.Queue.{block, drop, Event, WaitStrategy}
use laboratory.Queue.Concurrent.{Env, Op, Reply, System, Reach, Reach_keeps, closed_now}
use laboratory.Queue.SplitLock.{
  SplitLockLinkedQueue, make, Pc, enter_push, try_slot, saw_full, new_node, link, give_back,
  post_item, try_item, take, free_head, post_slot, closing, done, micro, start, finished, code,
}

-- A push that has taken a slot and neither linked its node nor returned the slot.
abbrev pub owns_slot : Pc → ℕ
owns_slot (new_node ev) = 1
owns_slot (link ev node) = 1
owns_slot give_back = 1
owns_slot p = 0

-- A push that has linked its node and not yet announced the item.
abbrev pub owes_item : Pc → ℕ
owes_item post_item = 1
owes_item p = 0

-- A pop that has been promised an item and not yet taken it.
abbrev pub owns_item : Pc → ℕ
owns_item take = 1
owns_item p = 0

-- A pop that has unlinked a node and not yet released the slot.
abbrev pub owes_slot : Pc → ℕ
owes_slot (free_head ev old_head) = 1
owes_slot (post_slot ev) = 1
owes_slot p = 0

-- A push that has counted its attempt and not its outcome.
abbrev pub in_push : Pc → ℕ
in_push (try_slot ev policy spins) = 1
in_push (saw_full ev spins) = 1
in_push (new_node ev) = 1
in_push (link ev node) = 1
in_push give_back = 1
in_push post_item = 1
in_push p = 0

-- The free slots of a bounded queue and the `used` ones make up no more than its capacity.
abbrev pub SlotsFit : ℕ → Option ℕ → ℕ → Type 0
SlotsFit capacity none used = ⊥
SlotsFit capacity (some n) used = n + used ≤ capacity

pub record Inv (capacity : ℕ) (q : SplitLockLinkedQueue) (ps : List Pc) : Type 0 where
  pub small : capacity < 2 ^ 63
  pub deepest : q.stats.max_observed_depth ≤ capacity
  pub items_at : q.items + total owes_item ps + total owns_item ps ≤ q.depth
  pub slots_at : SlotsFit capacity q.slots (q.depth + total owns_slot ps + total owes_slot ps)

pub record Change (ps : List Pc) (i : ℕ) (p p' : Pc) : Type 0 where
  pub slots_owned : total owns_slot (set ps i p') + owns_slot p ≡ total owns_slot ps + owns_slot p'
  pub items_owed : total owes_item (set ps i p') + owes_item p ≡ total owes_item ps + owes_item p'
  pub items_owned : total owns_item (set ps i p') + owns_item p ≡ total owns_item ps + owns_item p'
  pub slots_owed : total owes_slot (set ps i p') + owes_slot p ≡ total owes_slot ps + owes_slot p'
  pub owned_le : owns_slot p ≤ total owns_slot ps
  pub item_le : owns_item p ≤ total owns_item ps

pub change : (ps : List Pc) (i : ℕ) (p p' : Pc) → get_elem? ps i ≡ some p → Change ps i p p'
change ps i p p' at = record {
  slots_owned = total-set owns_slot ps i p p' at;
  items_owed = total-set owes_item ps i p p' at;
  items_owned = total-set owns_item ps i p p' at;
  slots_owed = total-set owes_slot ps i p p' at;
  owned_le = le-total owns_slot ps i p at;
  item_le = le-total owns_item ps i p at;
}

step-Inv :
    {c : ℕ} (e : Env) (q : SplitLockLinkedQueue) (ps : List Pc) (i : ℕ) (p : Pc)
    → Inv c q ps
    → Change ps i p (micro e q p).1
    → Inv c (micro e q p).0 (set ps i (micro e q p).1)
unfolding micro
step-Inv e q ps i (try_slot ev block spins) v ch = ground arith
step-Inv e q ps i (try_slot ev drop spins) v ch = ground arith
step-Inv e q ps i p v ch = ground arith

-- Every step of every thread keeps the invariant.
pub micro-Inv :
    {c : ℕ} (e : Env) (q : SplitLockLinkedQueue) (ps : List Pc) (i : ℕ) (p : Pc)
    → Inv c q ps
    → get_elem? ps i ≡ some p
    → Inv c (micro e q p).0 (set ps i (micro e q p).1)
micro-Inv e q ps i p v at = step-Inv e q ps i p v (change ps i p (micro e q p).1 at)

call-step :
    {c : ℕ} (q : SplitLockLinkedQueue) (ps : List Pc) (i : ℕ) (r : Reply) (p' : Pc)
    → Inv c q ps
    → Change ps i (done r) p'
    → owns_slot p' + owes_item p' + owns_item p' + owes_slot p' ≡ 0
    → Inv c q (set ps i p')
call-step q ps i r p' v ch none_of = ground arith

-- So does the call that a thread makes after its last one returned.
pub call-Inv :
    {c : ℕ} (q : SplitLockLinkedQueue) (ps : List Pc) (i : ℕ) (p : Pc) (r : Reply) (op : Op)
    → Inv c q ps
    → get_elem? ps i ≡ some p
    → finished p ≡ some r
    → Inv c q (set ps i (start op))
call-Inv q ps i (done r') r (Op.push ev policy) v at back =
    call-step q ps i r' (enter_push ev policy) v (change ps i _ _ at) refl
call-Inv q ps i (done r') r Op.pop v at back =
    call-step q ps i r' (try_item 0) v (change ps i _ _ at) refl
call-Inv q ps i (done r') r Op.close v at back =
    call-step q ps i r' closing v (change ps i _ _ at) refl
call-Inv q ps i p r op v at back = cc

-- `n` threads over a new queue; none is in a call.
abbrev pub initial : ℕ → WaitStrategy → ℕ → System SplitLockLinkedQueue Pc
initial capacity w n = record { shared = make capacity w; threads = replicate n (done closed_now) }

pub make-Inv :
    (capacity n : ℕ) (w : WaitStrategy)
    → 0 < capacity
    → capacity < 2 ^ 63
    → Inv capacity (make capacity w) (replicate n (done closed_now))
unfolding make
make-Inv capacity n w bounded small = ground (
  arith,
  total-replicate owns_slot n (done closed_now),
  total-replicate owns_item n (done closed_now),
  total-replicate owes_slot n (done closed_now),
  total-replicate owes_item n (done closed_now),
)

-- However `n` threads interleave over a new bounded queue (capacity from 1 up to 2^63 - 1), the
-- queue never holds, and never reports, more events than its capacity, and never promises poppers
-- more items than it holds events.
pub split_lock_bounded :
    (capacity n : ℕ) (w : WaitStrategy)
    → 0 < capacity
    → capacity < 2 ^ 63
    → {s : System SplitLockLinkedQueue Pc} {ins outs : List Event}
    → Reach code (initial capacity w n) s ins outs
    → (s.shared.depth ≤ capacity)
      × (s.shared.stats.max_observed_depth ≤ capacity)
      × (s.shared.items ≤ s.shared.depth)
split_lock_bounded capacity n w bounded small {s} r =
    let v =
      Reach_keeps code (Inv capacity) micro-Inv call-Inv (make-Inv capacity n w bounded small) r in
    ground arith
