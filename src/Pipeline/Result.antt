-- ===== src/Pipeline/Result.antt =====
-- pipeline.hpp, `PipelineResult`, and pipeline.cpp, `percentileLatencyUs` and `finalizeResult`.
-- `long double` and `double` are the same parameter.
pub mod Laws
use laboratory.Base.{
  ℕ, zero, suc, ◌+◌, ◌-◌, ◌*◌, ◌%◌, Bool, true, false, if◌then◌else◌, List, [], ◌∷◌, ◌++◌, length,
  get_or, max, min,
}
use laboratory.Base.Int.{ℤ, pos, negsuc, leb_ℤ}
use laboratory.Base.Double.{Double}
use laboratory.Queue.{QueueStats, two_64}
use laboratory.Pipeline.{PipelineConfig, PipelineState, WorkerMetrics}

module _ (d : Double) where
  open d use {F}

  pub record PipelineResult : Type 0 where
    pub tps_completed : F
    pub avg_latency_us : F
    pub p95_latency_us : F
    pub p99_latency_us : F
    pub worker_completed_avg : F
    pub worker_completed_stddev : F
    pub worker_imbalance_pct : F
    pub generated : ℕ
    pub accepted : ℕ
    pub completed : ℕ
    pub dropped : ℕ
    pub dropped_ingress : ℕ
    pub dropped_dispatch : ℕ
    pub worker_completed_min : ℕ
    pub worker_completed_max : ℕ
    pub ingress_queue_stats : QueueStats
    pub worker_queue_stats : QueueStats
    pub elapsed : ℤ
    pub samples : ℕ

-- The conversion of milliseconds to nanoseconds.
abbrev pub ms_to_ns : ℤ → ℤ
ms_to_ns (pos n) = pos (n * 1000000)
ms_to_ns (negsuc n) = negsuc ((n + 1) * 1000000 - 1)

-- `std::sort` on latencies.
pub insert : ℤ → List ℤ → List ℤ
insert x [] = x ∷ []
insert x (y ∷ ys) = if leb_ℤ x y then x ∷ y ∷ ys else y ∷ insert x ys

unfoldable pub sort : List ℤ → List ℤ
unfolding insert
sort [] = []
sort (x ∷ xs) = insert x (sort xs)

-- The latencies of all workers, one after the other.
unfoldable pub all_latencies : List WorkerMetrics → List ℤ
all_latencies [] = []
all_latencies (m ∷ ms) = m.latencies_ns ++ all_latencies ms

-- The loop's minimum and maximum, from the values that they start with.
unfoldable pub completed_min : ℕ → List WorkerMetrics → ℕ
completed_min acc [] = acc
completed_min acc (m ∷ ms) = completed_min (min acc m.completed) ms

unfoldable pub completed_max : ℕ → List WorkerMetrics → ℕ
completed_max acc [] = acc
completed_max acc (m ∷ ms) = completed_max (max acc m.completed) ms

-- The loop starts its minimum from the largest 64-bit number.
abbrev pub lowest : List WorkerMetrics → ℕ
lowest [] = 0
lowest (m ∷ ms) = completed_min (two_64 - 1) (m ∷ ms)

abbrev pub is_empty {ℓ} : {A : Type ℓ} → List A → Bool
is_empty [] = true
is_empty (x ∷ xs) = false

module _ (d : Double) where
  open d use {F, of_ℕ, of_ℤ, lt, le, add, sub, mul, div, sqrt, llround}

  unfoldable pub percentile_latency_us : List ℤ → F → F
  percentile_latency_us sorted p =
      let n = length sorted in
      let us = λ (i : ℕ). div (of_ℤ (get_or sorted i (pos 0))) (of_ℕ 1000) in
      if is_empty sorted
      then of_ℕ 0
      else (if le p (of_ℕ 0)
          then us 0
          else (if le (of_ℕ 100) p
              then us (n - 1)
              else us (min (llround (mul (div p (of_ℕ 100)) (of_ℕ (n - 1)))) (n - 1))))

  pub sum_latencies : F → List ℤ → F
  sum_latencies acc [] = acc
  sum_latencies acc (v ∷ vs) = sum_latencies (add acc (of_ℤ v)) vs

  pub sum_completed : F → List WorkerMetrics → F
  sum_completed acc [] = acc
  sum_completed acc (m ∷ ms) = sum_completed (add acc (of_ℕ m.completed)) ms

  pub sum_squares : F → F → List WorkerMetrics → F
  sum_squares avg acc [] = acc
  sum_squares avg acc (m ∷ ms) =
      let delta = sub (of_ℕ m.completed) avg in sum_squares avg (add acc (mul delta delta)) ms

  unfoldable pub finalize_result :
      PipelineConfig d
      → PipelineState
      → List WorkerMetrics
      → QueueStats
      → QueueStats
      → PipelineResult d
  unfolding sum_latencies sum_completed sum_squares
  finalize_result config state worker_metrics ingress_queue_stats worker_queue_stats =
      let latencies = all_latencies worker_metrics in
      let sorted = sort latencies in
      let n = length latencies in
      let workers = of_ℕ (length worker_metrics) in
      let low = lowest worker_metrics in
      let high = completed_max 0 worker_metrics in
      let avg_ns = div (sum_latencies (of_ℕ 0) latencies) (of_ℕ n) in
      let avg = div (sum_completed (of_ℕ 0) worker_metrics) workers in
      let variance = div (sum_squares avg (of_ℕ 0) worker_metrics) workers in
      let measure_s = div (of_ℤ config.duration) (of_ℕ 1000) in
      let no_samples = is_empty latencies in
      let no_workers = is_empty worker_metrics in
      record {
        tps_completed =
            if lt (of_ℕ 0) measure_s then div (of_ℕ state.completed) measure_s else of_ℕ 0;
        avg_latency_us = if no_samples then of_ℕ 0 else div avg_ns (of_ℕ 1000);
        p95_latency_us = if no_samples then of_ℕ 0 else percentile_latency_us sorted (of_ℕ 95);
        p99_latency_us = if no_samples then of_ℕ 0 else percentile_latency_us sorted (of_ℕ 99);
        worker_completed_avg = if no_workers then of_ℕ 0 else avg;
        worker_completed_stddev = if no_workers then of_ℕ 0 else sqrt variance;
        worker_imbalance_pct =
            if no_workers
            then of_ℕ 0
            else (if lt (of_ℕ 0) avg then mul (div (of_ℕ (high - low)) avg) (of_ℕ 100) else of_ℕ 0);
        generated = state.generated;
        accepted = state.accepted;
        completed = state.completed;
        dropped = (state.dropped_ingress + state.dropped_dispatch) % two_64;
        dropped_ingress = state.dropped_ingress;
        dropped_dispatch = state.dropped_dispatch;
        worker_completed_min = low;
        worker_completed_max = high;
        ingress_queue_stats = ingress_queue_stats;
        worker_queue_stats = worker_queue_stats;
        elapsed = ms_to_ns config.duration;
        samples = n;
      }
