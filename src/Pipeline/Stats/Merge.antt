-- ===== src/Pipeline/Stats/Merge.antt =====
-- What merging the workers' queue statistics, and the simulated work, come to.
use laboratory.Base.{ℕ, ◌+◌, ◌%◌, ◌<◌, ◌≡◌, List, [], ◌∷◌, total, max, ◌∙◌, arith}
use laboratory.Queue.{QueueStats, two_64, zero_stats}
use laboratory.Pipeline.Stats.{merge_queue_stats, merge_all}

-- The largest depth that one of the queues has observed.
abbrev pub deepest : List QueueStats → ℕ
deepest [] = 0
deepest (s ∷ rest) = max s.max_observed_depth (deepest rest)

-- The sums of the counters, modulo 2^64, and the largest depth, from `dst` on.
abbrev pub summed : QueueStats → List QueueStats → QueueStats
summed dst all = record {
  push_attempts = (dst.push_attempts + total (λ s. s.push_attempts) all) % two_64;
  push_success = (dst.push_success + total (λ s. s.push_success) all) % two_64;
  push_fail = (dst.push_fail + total (λ s. s.push_fail) all) % two_64;
  pop_success = (dst.pop_success + total (λ s. s.pop_success) all) % two_64;
  spin_count = (dst.spin_count + total (λ s. s.spin_count) all) % two_64;
  yield_count = (dst.yield_count + total (λ s. s.yield_count) all) % two_64;
  park_count = (dst.park_count + total (λ s. s.park_count) all) % two_64;
  full_hits = (dst.full_hits + total (λ s. s.full_hits) all) % two_64;
  empty_hits = (dst.empty_hits + total (λ s. s.empty_hits) all) % two_64;
  max_observed_depth = max dst.max_observed_depth (deepest all);
}

-- Every counter of these statistics fits its 64 bits.
pub record Fits (s : QueueStats) : Type 0 where
  pub push_attempts_fits : s.push_attempts < two_64
  pub push_success_fits : s.push_success < two_64
  pub push_fail_fits : s.push_fail < two_64
  pub pop_success_fits : s.pop_success < two_64
  pub spin_count_fits : s.spin_count < two_64
  pub yield_count_fits : s.yield_count < two_64
  pub park_count_fits : s.park_count < two_64
  pub full_hits_fits : s.full_hits < two_64
  pub empty_hits_fits : s.empty_hits < two_64

merge_all_from :
    (dst : QueueStats) (all : List QueueStats) → Fits dst → merge_all dst all ≡ summed dst all
unfolding merge_all merge_queue_stats total
merge_all_from dst [] fits = ground arith
merge_all_from dst (s ∷ rest) fits =
    merge_all_from (merge_queue_stats dst s) rest (omega arith) ∙ ground arith

-- Merging the statistics of any number of queues into empty ones gives, counter by counter, the sum
-- over the queues modulo 2^64, and the largest depth that any of them observed.
pub merge_all_lem : (all : List QueueStats) → merge_all zero_stats all ≡ summed zero_stats all
merge_all_lem all = merge_all_from zero_stats all (omega arith)
