-- ===== src/Pipeline/Result/Laws.antt =====
-- What a finished run reports, over any floating point numbers.
use laboratory.Base.{
  ℕ, zero, suc, ◌+◌, ◌-◌, ◌%◌, ◌≤◌, ◌<◌, ◌≡◌, ◌⊎◌, inl, inr, refl, ap, false, if◌then◌else◌,
  Bool-cases, List, [], ◌∷◌, length, length-append, get_or, total, All, max, min, arith,
}
use laboratory.Base.Int.{ℤ, pos, leb_ℤ}
use laboratory.Base.Double.{Double}
use laboratory.Queue.{QueueStats, two_64}
use laboratory.Pipeline.{PipelineConfig, PipelineState, WorkerMetrics}
use laboratory.Pipeline.Result.{
  insert, sort, all_latencies, completed_min, completed_max, percentile_latency_us, finalize_result,
  lowest, is_empty,
}

-- `x` is one of the entries.
abbrev pub Occurs : ℤ → List ℤ → Type 0
Occurs x [] = ⊥
Occurs x (y ∷ ys) = (x ≡ y) ⊎ Occurs x ys

Occurs-insert : (x v : ℤ) (ys : List ℤ) → Occurs x (insert v ys) → (x ≡ v) ⊎ Occurs x ys
unfolding insert
Occurs-insert x v [] h = h
Occurs-insert x v (y ∷ ys) h = elim (Bool-cases (leb_ℤ v y)) [
  | inl le ↦ rw le at h
  | inr gt ↦ place (Occurs-insert x v ys) (rw gt at h)
]
  where
    place :
        (Occurs x (insert v ys) → (x ≡ v) ⊎ Occurs x ys)
        → (x ≡ y) ⊎ Occurs x (insert v ys)
        → (x ≡ v) ⊎ ((x ≡ y) ⊎ Occurs x ys)
    place ih (inl e) = inr (inl e)
    place ih (inr o) = elim (ih o) [ inl e ↦ inl e | inr o' ↦ inr (inr o') ]

Occurs-sort : (x : ℤ) (xs : List ℤ) → Occurs x (sort xs) → Occurs x xs
unfolding sort
Occurs-sort x [] h = h
Occurs-sort x (y ∷ ys) h = elim (Occurs-insert x y (sort ys) h) [
  | inl e ↦ inl e
  | inr o ↦ inr (Occurs-sort x ys o)
]

length-insert : (v : ℤ) (ys : List ℤ) → length (insert v ys) ≡ suc (length ys)
unfolding insert
length-insert v [] = refl
length-insert v (y ∷ ys) = ground (arith, length-insert v ys)

length-sort : (xs : List ℤ) → length (sort xs) ≡ length xs
unfolding sort
length-sort [] = refl
length-sort (x ∷ xs) = omega (arith, length-insert x (sort xs), length-sort xs)

Occurs-get_or : (xs : List ℤ) (i : ℕ) (v : ℤ) → i < length xs → Occurs (get_or xs i v) xs
Occurs-get_or [] i v h = absurd (omega arith)
Occurs-get_or (x ∷ xs) zero v h = inl refl
Occurs-get_or (x ∷ xs) (suc i) v h = inr (Occurs-get_or xs i v (omega arith))

pub length-all_latencies :
    (ms : List WorkerMetrics) → length (all_latencies ms) ≡ total (λ m. length m.latencies_ns) ms
unfolding all_latencies total
length-all_latencies [] = refl
length-all_latencies (m ∷ ms) =
    omega (arith, length-append m.latencies_ns (all_latencies ms), length-all_latencies ms)

completed_min-le : (acc : ℕ) (ms : List WorkerMetrics) → completed_min acc ms ≤ acc
unfolding completed_min
completed_min-le acc [] = omega arith
completed_min-le acc (m ∷ ms) = omega (arith, completed_min-le (min acc m.completed) ms)

le-completed_max : (acc : ℕ) (ms : List WorkerMetrics) → acc ≤ completed_max acc ms
unfolding completed_max
le-completed_max acc [] = omega arith
le-completed_max acc (m ∷ ms) = omega (arith, le-completed_max (max acc m.completed) ms)

-- The count of every worker lies between the two.
abbrev pub Between : ℕ → ℕ → List WorkerMetrics → Type 0
Between low high = All λ m. (low ≤ m.completed) × (m.completed ≤ high)

Between-mono :
    (l l' h h' : ℕ) (ms : List WorkerMetrics) → l' ≤ l → h ≤ h' → Between l h ms → Between l' h' ms
Between-mono l l' h h' [] a b all = tt
Between-mono l l' h h' (m ∷ ms) a b all = (omega arith, Between-mono l l' h h' ms a b all.1)

extremes :
    (low high : ℕ) (ms : List WorkerMetrics)
    → Between (completed_min low ms) (completed_max high ms) ms
unfolding completed_min completed_max
extremes low high [] = tt
extremes low high (m ∷ ms) = (
  omega (
    arith,
    completed_min-le (min low m.completed) ms,
    le-completed_max (max high m.completed) ms,
  ),
  extremes (min low m.completed) (max high m.completed) ms,
)

lowest-Between : (ms : List WorkerMetrics) → Between (lowest ms) (completed_max 0 ms) ms
lowest-Between [] = tt
lowest-Between (m ∷ ms) = extremes (two_64 - 1) 0 (m ∷ ms)

module _ (d : Double) where
  open d use {F, of_ℕ, of_ℤ, div}

  -- `p` is one of the entries, in microseconds.
  abbrev pub IsSample : F → List ℤ → Type 0
  IsSample p xs = (x : ℤ) × Occurs x xs × (p ≡ div (of_ℤ x) (of_ℕ 1000))

  percentile-IsSample :
      (xs : List ℤ) (p : F) → 0 < length xs → IsSample (percentile_latency_us d xs p) xs
  unfolding percentile_latency_us
  percentile-IsSample [] p h = absurd (omega arith)
  percentile-IsSample (y ∷ ys) p h = elim (Bool-cases (d.le p (of_ℕ 0))) [
    | inl low ↦ (y, inl refl, rw low)
    | inr above ↦ elim (Bool-cases (d.le (of_ℕ 100) p)) [
      | inl high ↦ (_, at (length ys) (omega arith), rw (above, high) last)
      | inr below ↦ (_, at (min index (length (y ∷ ys) - 1)) (omega arith), rw (above, below))
    ]
  ]
    where
      index : ℕ
      index = d.llround (d.mul (div p (of_ℕ 100)) (of_ℕ (length (y ∷ ys) - 1)))

      at : (i : ℕ) → i < length (y ∷ ys) → Occurs (get_or (y ∷ ys) i (pos 0)) (y ∷ ys)
      at i lt = Occurs-get_or (y ∷ ys) i (pos 0) lt

      last :
          div (of_ℤ (get_or (y ∷ ys) (length (y ∷ ys) - 1) (pos 0))) (of_ℕ 1000)
          ≡ div (of_ℤ (get_or (y ∷ ys) (length ys) (pos 0))) (of_ℕ 1000)
      last =
          let e : length (y ∷ ys) - 1 ≡ length ys = omega arith in
          ap (λ i. div (of_ℤ (get_or (y ∷ ys) i (pos 0))) (of_ℕ 1000)) e

  nonempty : (xs : List ℤ) → 0 < length xs → is_empty xs ≡ false
  nonempty [] h = absurd (omega arith)
  nonempty (x ∷ xs) h = refl

  -- If a run has measured any event, the percentiles that it reports are, in microseconds,
  -- latencies that some worker measured, whatever the floating point numbers do.
  pub percentiles_are_samples :
      (config : PipelineConfig d) (state : PipelineState) (workers : List WorkerMetrics)
      (ingress worker : QueueStats)
      → 0 < (finalize_result d config state workers ingress worker).samples
      → let r = finalize_result d config state workers ingress worker in
        IsSample r.p95_latency_us (all_latencies workers)
        × IsSample r.p99_latency_us (all_latencies workers)
  unfolding finalize_result
  percentiles_are_samples config state workers ingress worker h =
      (sample (of_ℕ 95), sample (of_ℕ 99))
    where
      all : List ℤ
      all = all_latencies workers

      sample :
          (p : F)
          → IsSample (if is_empty all then of_ℕ 0 else percentile_latency_us d (sort all) p) all
      sample p =
          let (x, o, e) =
            percentile-IsSample (sort all) p (let l = length-sort all in omega arith) in
          (x, Occurs-sort x all o, rw (nonempty all h) e)

  -- A run reports as many samples as its workers recorded latencies, as drops the sum of those at
  -- the ingress and at the dispatcher (modulo 2^64), and as its smallest and largest worker count
  -- two bounds of the counts of all workers.
  pub finalize_counts :
      (config : PipelineConfig d) (state : PipelineState) (workers : List WorkerMetrics)
      (ingress worker : QueueStats)
      → let r = finalize_result d config state workers ingress worker in
        (r.samples ≡ total (λ m. length m.latencies_ns) workers)
        × (r.dropped ≡ (r.dropped_ingress + r.dropped_dispatch) % two_64)
        × Between r.worker_completed_min r.worker_completed_max workers
  unfolding finalize_result
  finalize_counts config state workers ingress worker =
      (length-all_latencies workers, refl, lowest-Between workers)
