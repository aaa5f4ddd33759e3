-- ===== src/Queue/Factory.antt =====
-- queues.cpp, `makeQueue`: the queue behind an `IEventQueue` pointer. `max_size` stands for
-- `std::vector<Event>::max_size()`, above which a ring's constructor throws `std::length_error`.
use laboratory.Base.{
  ℕ, ◌+◌, ◌%◌, ◌<◌, ◌≡◌, Result, ok, err, ◌>>=◌, Error, length_error, arith, ltb, ◌==◌,
  if◌then◌else◌,
}
use laboratory.Queue.{
  QueueKind, global_lock, split_lock_linked, mpmc_ring, spsc_ring, WaitStrategy, two_64,
}
use laboratory.Queue.GlobalLock
use laboratory.Queue.SplitLock
use laboratory.Queue.Mpmc
use laboratory.Queue.Spsc

-- The classes that implement `IEventQueue`.
pub data EventQueue : Type 0 where
  with_global_lock : GlobalLock.GlobalLockQueue → EventQueue
  with_split_lock : SplitLock.SplitLockLinkedQueue → EventQueue
  with_mpmc_ring : Mpmc.MpmcRingQueue → EventQueue
  with_spsc_ring : Spsc.SpscRingQueue → EventQueue

unfoldable pub make_queue : (max_size : ℕ) → QueueKind → ℕ → WaitStrategy → Result EventQueue
make_queue max_size global_lock capacity options =
    ok (with_global_lock (GlobalLock.make capacity options))
make_queue max_size split_lock_linked capacity options =
    ok (with_split_lock (SplitLock.make capacity options))
make_queue max_size mpmc_ring capacity options = do
  q ← Mpmc.make max_size capacity options
  ok (with_mpmc_ring q)
make_queue max_size spsc_ring capacity options = do
  q ← Spsc.make max_size capacity options
  ok (with_spsc_ring q)

-- The class of a queue.
abbrev pub kind_of : EventQueue → QueueKind
kind_of (with_global_lock q) = global_lock
kind_of (with_split_lock q) = split_lock_linked
kind_of (with_mpmc_ring q) = mpmc_ring
kind_of (with_spsc_ring q) = spsc_ring

-- A queue with a lock can be made for every capacity, 0 meaning unbounded. A ring can be made, of
-- the kind asked for, unless its cells are more than a vector may have or its capacity is 0.
pub make_queue_lem :
    (max_size : ℕ) (kind : QueueKind) (capacity : ℕ) (options : WaitStrategy)
    → (make_queue max_size kind capacity options >>= λ q. ok (kind_of q)) ≡ (elim kind [
      | mpmc_ring ↦
          if ltb max_size capacity
          then err length_error
          else if capacity == 0
          then err Error.mpmc_capacity_zero
          else ok mpmc_ring
      | spsc_ring ↦
          if ltb max_size ((capacity + 1) % two_64)
          then err length_error
          else if capacity == 0
          then err Error.spsc_capacity_zero
          else ok spsc_ring
      | other ↦ ok other
    ])
unfolding make_queue Mpmc.make Spsc.make
make_queue_lem max_size global_lock capacity options = ground arith
make_queue_lem max_size split_lock_linked capacity options = ground arith
make_queue_lem max_size mpmc_ring capacity options = ground arith
make_queue_lem max_size spsc_ring capacity options = ground arith

-- In particular a queue of at least one and fewer than `max_size` places can always be made.
pub make_queue-ok :
    (max_size : ℕ) (kind : QueueKind) (capacity : ℕ) (options : WaitStrategy)
    → max_size < two_64
    → 0 < capacity
    → capacity < max_size
    → (make_queue max_size kind capacity options >>= λ q. ok (kind_of q)) ≡ ok kind
unfolding make_queue Mpmc.make Spsc.make
make_queue-ok max_size global_lock capacity options word some_place fits = ground arith
make_queue-ok max_size split_lock_linked capacity options word some_place fits = ground arith
make_queue-ok max_size mpmc_ring capacity options word some_place fits = ground arith
make_queue-ok max_size spsc_ring capacity options word some_place fits = ground arith
