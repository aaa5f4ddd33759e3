-- ===== src/Pipeline/Stats.antt =====
-- pipeline.cpp: `mergeQueueStats`, `nextRandom`, `simulateWork`, the tests for measured events,
-- `percentileLatencyUs` and `finalizeResult`.
pub mod Merge
use Prim.Native.Nat.{bit_xor}
use laboratory.Base.{
  Option, none, some, ℕ, zero, suc, ◌+◌, ◌-◌, ◌*◌, ◌/◌, ◌%◌, ◌^◌, ◌≤◌, ◌<◌, ◌≡◌, refl, Bool, true,
  false, ◌&&◌, ◌||◌, ltb, leb, ◌==◌, if◌then◌else◌, List, [], ◌∷◌, ◌++◌, map, length, get_or, max,
  min, arith,
}
use laboratory.Base.Int.{ℤ, pos, negsuc, leb_ℤ}
use laboratory.Base.Double.{Double}
use laboratory.Queue.{QueueStats, two_64, zero_stats, Event}
use laboratory.Pipeline.{PipelineConfig, PipelineState, WorkerMetrics}

-- `+=` on a `std::uint64_t`.
abbrev pub add_u64 : ℕ → ℕ → ℕ
add_u64 a b = (a + b) % two_64

unfoldable pub merge_queue_stats : QueueStats → QueueStats → QueueStats
merge_queue_stats dst src = record {
  push_attempts = add_u64 dst.push_attempts src.push_attempts;
  push_success = add_u64 dst.push_success src.push_success;
  push_fail = add_u64 dst.push_fail src.push_fail;
  pop_success = add_u64 dst.pop_success src.pop_success;
  spin_count = add_u64 dst.spin_count src.spin_count;
  yield_count = add_u64 dst.yield_count src.yield_count;
  park_count = add_u64 dst.park_count src.park_count;
  full_hits = add_u64 dst.full_hits src.full_hits;
  empty_hits = add_u64 dst.empty_hits src.empty_hits;
  max_observed_depth = max dst.max_observed_depth src.max_observed_depth;
}

-- The loop that merges the snapshots of the workers' queues.
unfoldable pub merge_all : QueueStats → List QueueStats → QueueStats
merge_all dst [] = dst
merge_all dst (s ∷ rest) = merge_all (merge_queue_stats dst s) rest

-- `nextRandom`: xorshift on 64 bits.
unfoldable pub next_random : ℕ → ℕ
next_random state =
    let a = bit_xor state (state * 2 ^ 13 % two_64) in
    let b = bit_xor a (a / 2 ^ 7) in bit_xor b (b * 2 ^ 17 % two_64)

-- A 64-bit number converted to `std::chrono::nanoseconds`, which counts in an `int64_t`.
abbrev pub nanoseconds : ℕ → ℤ
nanoseconds t = if ltb t (2 ^ 63) then pos t else negsuc (2 ^ 64 - t - 1)

-- The time from the clock's reading to the deadline of `simulateWork`, if it gets to one, and the
-- next state of the generator. With a negative time the deadline has passed and nothing spins.
unfoldable pub work_ns : ℕ → ℕ → ℕ → Option ℤ × ℕ
work_ns service_ns jitter_ns rng =
    if service_ns == 0 && jitter_ns == 0
    then (none, rng)
    else (if ltb 0 jitter_ns
        then (
          some (nanoseconds (add_u64 service_ns (next_random rng % ((jitter_ns + 1) % two_64)))),
          next_random rng,
        )
        else (some (nanoseconds service_ns), rng))

-- `isMeasuredEvent` and `isMeasuredTimestamp`.
abbrev pub is_measured : ℕ → PipelineState → Bool
is_measured created_ns state =
    leb_ℤ (pos 0) state.measure_start_ns && leb_ℤ state.measure_start_ns (pos created_ns)
