-- ===== src/Queue/Mpmc/Invariant.antt =====
-- The invariant of `MpmcRingQueue`: where each slot and each item is.
use laboratory.Base.{
  ℕ, ◌+◌, ◌-◌, ◌≤◌, ◌<◌, ◌≡◌, ◌^◌, ap, List, set, total-All, All, get_elem?, some, total, total-set,
  le-total, length, length-set, arith,
}
use laboratory.Queue.{block, drop}
use laboratory.Queue.Ring.{slot, next_index-slot, slot-next_index, next_index-lt}
use laboratory.Queue.Concurrent.{Env, Op, Reply}
use laboratory.Queue.Mpmc.{
  MpmcRingQueue, Pc, enter_push, saw_full, check_open, give_back, store, post_item, try_item, take,
  post_slot, closing, done, micro, start, finished,
}

-- A push that has taken a slot and not yet filled or returned it.
abbrev pub owns_slot : Pc → ℕ
owns_slot (check_open ev) = 1
owns_slot give_back = 1
owns_slot (store ev) = 1
owns_slot p = 0

-- A push that has filled its slot and not yet announced the item.
abbrev pub owes_item : Pc → ℕ
owes_item post_item = 1
owes_item p = 0

-- A pop that has been promised an item and not yet taken it.
abbrev pub owns_item : Pc → ℕ
owns_item take = 1
owns_item p = 0

-- A pop that has emptied a slot and not yet released it.
abbrev pub owes_slot : Pc → ℕ
owes_slot (post_slot ev) = 1
owes_slot p = 0

pub record Inv (capacity : ℕ) (q : MpmcRingQueue) (ps : List Pc) : Type 0 where
  pub sized : q.ring_capacity ≡ capacity
  pub small : capacity < 2 ^ 63
  pub storage : length q.buffer ≡ q.ring_capacity
  pub head_in : q.head < q.ring_capacity
  pub tail_at : q.tail ≡ slot q.ring_capacity q.head q.depth
  pub items_at : q.depth ≡ q.items + total owes_item ps + total owns_item ps
  pub slots_at :
      q.ring_capacity ≡ q.slots_available + q.depth + total owns_slot ps + total owes_slot ps

-- What one step of thread `i` from `p` to `p'` does to the four sums.
pub record Change (ps : List Pc) (i : ℕ) (p p' : Pc) : Type 0 where
  pub slots_owned : total owns_slot (set ps i p') + owns_slot p ≡ total owns_slot ps + owns_slot p'
  pub items_owed : total owes_item (set ps i p') + owes_item p ≡ total owes_item ps + owes_item p'
  pub items_owned : total owns_item (set ps i p') + owns_item p ≡ total owns_item ps + owns_item p'
  pub slots_owed : total owes_slot (set ps i p') + owes_slot p ≡ total owes_slot ps + owes_slot p'
  pub owned_le : owns_slot p ≤ total owns_slot ps
  pub item_le : owns_item p ≤ total owns_item ps

pub change : (ps : List Pc) (i : ℕ) (p p' : Pc) → get_elem? ps i ≡ some p → Change ps i p p'
change ps i p p' at = record {
  slots_owned = total-set owns_slot ps i p p' at;
  items_owed = total-set owes_item ps i p p' at;
  items_owned = total-set owns_item ps i p p' at;
  slots_owed = total-set owes_slot ps i p p' at;
  owned_le = le-total owns_slot ps i p at;
  item_le = le-total owns_item ps i p at;
}

step-Inv :
    {c : ℕ} (e : Env) (q : MpmcRingQueue) (ps : List Pc) (i : ℕ) (p : Pc)
    → Inv c q ps
    → Change ps i p (micro e q p).1
    → Inv c (micro e q p).0 (set ps i (micro e q p).1)
unfolding micro
step-Inv e q ps i (store ev) v ch =
    ground (arith, length-set q.buffer q.tail ev, next_index-slot q.ring_capacity q.head q.depth)
step-Inv e q ps i take v ch = ground (
  arith,
  slot-next_index q.ring_capacity q.head (q.depth - 1),
  next_index-lt q.ring_capacity q.head,
)
step-Inv e q ps i (saw_full ev block spins) v ch = ground arith
step-Inv e q ps i (saw_full ev drop spins) v ch = ground arith
step-Inv e q ps i p v ch = ground arith

-- Every step of every thread keeps the invariant.
pub micro-Inv :
    {c : ℕ} (e : Env) (q : MpmcRingQueue) (ps : List Pc) (i : ℕ) (p : Pc)
    → Inv c q ps
    → get_elem? ps i ≡ some p
    → Inv c (micro e q p).0 (set ps i (micro e q p).1)
micro-Inv e q ps i p v at = step-Inv e q ps i p v (change ps i p (micro e q p).1 at)

-- So does the call that a thread makes after its last one returned.
pub call-Inv :
    {c : ℕ} (q : MpmcRingQueue) (ps : List Pc) (i : ℕ) (p : Pc) (r : Reply) (op : Op)
    → Inv c q ps
    → get_elem? ps i ≡ some p
    → finished p ≡ some r
    → Inv c q (set ps i (start op))
call-Inv q ps i (done r') r (Op.push ev policy) v at back =
    let ch = change ps i (done r') (enter_push ev policy) at in ground arith
call-Inv q ps i (done r') r Op.pop v at back =
    let ch = change ps i (done r') (try_item 0) at in ground arith
call-Inv q ps i (done r') r Op.close v at back =
    let ch = change ps i (done r') closing at in ground arith
call-Inv q ps i p r op v at back = cc

-- The thread has returned from its last call.
abbrev pub Returned : Pc → Type 0
Returned p = (r : Reply) × (p ≡ done r)

-- The four sums are 0 once every thread has returned.
pub total-Returned :
    (ps : List Pc)
    → All Returned ps
    → (total owns_slot ps ≡ 0)
      × (total owes_item ps ≡ 0)
      × (total owns_item ps ≡ 0)
      × (total owes_slot ps ≡ 0)
total-Returned ps h = (
  total-All owns_slot Returned (λ p back. ap owns_slot back.1) ps h,
  total-All owes_item Returned (λ p back. ap owes_item back.1) ps h,
  total-All owns_item Returned (λ p back. ap owns_item back.1) ps h,
  total-All owes_slot Returned (λ p back. ap owes_slot back.1) ps h,
)
