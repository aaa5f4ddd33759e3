-- ===== src/Pipeline/Run/Balance/Totals.antt =====
-- A run from its start to its end: what the counters that it reports come to.
use laboratory.Base.{
  ℕ, zero, suc, ◌+◌, ◌%◌, ◌≤◌, ◌≡◌, refl, ap, true, false, List, [], ◌∷◌, none, All, All-replicate,
  total, total-All, total-replicate, arith,
}
use laboratory.Base.Int.{ℤ}
use laboratory.Queue.{two_64}
use laboratory.Pipeline.Channel.{Channel, is_drop}
use laboratory.Pipeline.Run.{
  Plan, Wiring, Ingress, IngressPc, Worker, WorkerPc, DispatcherPc, finished, State, Ending, done,
}
use laboratory.Pipeline.Run.DispatcherLoop.{is_ending}
use laboratory.Pipeline.Run.Schedule.{Reach, all_ingress_ended, all_workers_ended, ingress_ended}
use laboratory.Pipeline.Run.Topologies.{start, start_workers, start_ingress}
use laboratory.Pipeline.Run.Joined.{
  IsJoined, IsJoined-IsKept, past_ingress, past_dispatcher, past_workers,
}
use laboratory.Pipeline.Run.Rule.{IsKept, Reach-IsKept}
use laboratory.Pipeline.Run.Balance.{
  IsBalanced, IngressFine, WorkerFine, HasSamples, samples, offered, unreported, in_work,
  in_dispatch, DispatcherFine, queued, weight, measure_start, LanesOpen, IsOpen,
}
use laboratory.Pipeline.Run.Balance.ByIngress
use laboratory.Pipeline.Run.Balance.ByWorker
use laboratory.Pipeline.Run.Balance.ByDispatcher
use laboratory.Pipeline.Run.Balance.ByMain

-- A queue as it is made.
abbrev pub IsNew : Channel → Type 0
IsNew c = (c.waiting ≡ []) × (c.closed ≡ false)

-- The dispatcher at the start: there is none, or it pops from a queue that the main thread closes.
abbrev pub DispatcherStarts : Wiring → DispatcherPc → Type 0
DispatcherStarts w DispatcherPc.popping = w.main_closes ≤ 1
DispatcherStarts w (DispatcherPc.ending e) = e ≡ done
DispatcherStarts w pc = true ≡ false

pub All-start_workers :
    (P : Worker → Type 0)
    → ((rng : ℕ)
        → P (record {
          metrics = record { completed = 0; latencies_ns = [] };
          rng = rng;
          pc = WorkerPc.popping;
        }))
    → (seed i n : ℕ) → All P (start_workers seed i n)
unfolding start_workers
All-start_workers P h seed i zero = tt
All-start_workers P h seed i (suc n) = (h _, All-start_workers P h seed (i + 1) n)

starts_fine :
    (p : Plan) (w : Wiring) (start : ℤ) (pc : DispatcherPc)
    → DispatcherStarts w pc
    → DispatcherFine p start pc
      × (in_dispatch start pc ≡ 0)
      × (is_ending pc ≡ false → w.main_closes ≤ 1)
starts_fine p w start DispatcherPc.popping h = (tt, refl, λ d. h)
starts_fine p w start DispatcherPc.looked h = cc
starts_fine p w start (DispatcherPc.pushing ev m) h = cc
starts_fine p w start (DispatcherPc.counting ok m) h = cc
starts_fine p w start (DispatcherPc.ending Ending.stopping) h = cc
starts_fine p w start (DispatcherPc.ending (Ending.closing k)) h = cc
starts_fine p w start (DispatcherPc.ending done) h = (tt, refl, λ d. cc)

-- Threads that have ended hold no event.
ended-ingress :
    (f : IngressPc → ℕ)
    → ((pc : IngressPc) → ingress_ended pc ≡ true → f pc ≡ 0)
    → (ts : List Ingress) → all_ingress_ended ts ≡ true
    → total (λ t. f t.pc) ts ≡ 0
unfolding total all_ingress_ended
ended-ingress f h [] e = refl
ended-ingress f h (t ∷ ts) e = ground (arith, h t.pc, ended-ingress f h ts)

ended-workers :
    (start : ℤ) (ts : List Worker)
    → all_workers_ended ts ≡ true
    → total (λ t. in_work start t.pc) ts ≡ 0
unfolding total all_workers_ended
ended-workers start [] e = refl
ended-workers start (t ∷ ts) e = ground (arith, ended-workers start ts)

pub IsBalanced-IsKept : (p : Plan) (w : Wiring) → IsKept p w (IsBalanced p w)
IsBalanced-IsKept p w = record {
  by_ingress = λ r s i t b has. ByIngress.keeps p w r s i t b has;
  by_worker = λ r s i t b has. ByWorker.keeps p w r s i t b has;
  by_dispatcher = λ r s b. ByDispatcher.keeps p w r s b;
  by_main = λ s b. ByMain.keeps p w s b;
}

module _ (p : Plan) (w : Wiring) (warmup_end : ℤ) (workers ingress_threads : ℕ)
    (queues : List Channel) (dispatcher : DispatcherPc) (new : All IsNew queues)
    (starts : DispatcherStarts w dispatcher) where
  abbrev pub s₀ : State
  s₀ = start w warmup_end workers ingress_threads queues dispatcher

  nothing_queued : (c : Channel) → IsNew c → queued warmup_end c ≡ 0
  unfolding total
  nothing_queued c h = ap (total (weight warmup_end)) h.0

  lanes_open : (qs : List Channel) → All IsNew qs → LanesOpen qs
  lanes_open [] h = tt
  lanes_open (c ∷ cs) h = all_open cs h.1
    where
      all_open : (ds : List Channel) → All IsNew ds → All IsOpen ds
      all_open [] k = tt
      all_open (d ∷ ds) k = (k.0.1, all_open ds k.1)

  pub starts-IsBalanced : IsBalanced p w s₀
  unfolding start
  starts-IsBalanced =
      let fine = starts_fine p w warmup_end dispatcher starts in
      let ins = total-replicate (λ t. offered t.pc) ingress_threads start_ingress refl in
      let reports = total-replicate (λ t. unreported t.pc) ingress_threads start_ingress refl in
      let sums =
        total-All samples (λ t. samples t ≡ 0) (λ t h. h) (start_workers w.seed 0 workers)
          (All-start_workers (λ t. samples t ≡ 0) (λ rng. refl) w.seed 0 workers) in
      let work =
        total-All (λ t. in_work warmup_end t.pc) (λ t. in_work warmup_end t.pc ≡ 0) (λ t h. h)
          (start_workers w.seed 0 workers)
          (All-start_workers (λ t. in_work warmup_end t.pc ≡ 0) (λ rng. refl) w.seed 0 workers) in
      let waits = total-All (queued warmup_end) IsNew nothing_queued queues new in
      record {
        ingress_fine =
            All-replicate (λ t. IngressFine warmup_end t.pc) ingress_threads start_ingress tt;
        workers_fine = All-start_workers (λ t. WorkerFine t.pc) (λ rng. tt) w.seed 0 workers;
        dispatcher_fine = fine.0;
        lanes = λ busy. (lanes_open queues new, fine.2 busy);
        has_samples = All-start_workers HasSamples (λ rng. refl) w.seed 0 workers;
        sampled = ground (arith, sums);
        accepted_fits = omega arith;
        generated_once = λ d. ground (arith, ins);
        accounted = ground (arith, fine.1, reports, waits, work);
      }

  pub starts-IsJoined : IsJoined s₀
  unfolding start
  starts-IsJoined = record { of_ingress = λ e. cc; of_dispatcher = λ e. cc; of_workers = λ e. cc }

  balanced : {s : State} → Reach p w s₀ s → s.thread_error ≡ none → IsBalanced p w s
  balanced r calm =
      Reach-IsKept p w (IsBalanced p w) (IsBalanced-IsKept p w) starts-IsBalanced r calm

  pub joined : {s : State} → Reach p w s₀ s → s.thread_error ≡ none → IsJoined s
  joined r calm = Reach-IsKept p w IsJoined (IsJoined-IsKept p w) starts-IsJoined r calm

  -- Once the main thread has joined the others and no thread has recorded an exception, each
  -- measured event that was accepted is completed, counted as dropped by the dispatcher, or left in
  -- a queue; each completed one has its latency among the samples, in all and for each worker. The
  -- counters are modulo 2^64.
  pub events_accounted :
      {s : State}
      → Reach p w s₀ s
      → s.thread_error ≡ none
      → s.main ≡ finished
      → (s.counters.accepted
          ≡ (s.counters.completed
              + s.counters.dropped_dispatch
              + total (queued (measure_start s)) s.queues)
            % two_64)
        × (s.counters.completed ≡ total samples s.workers % two_64)
        × All HasSamples s.workers
  events_accounted {s} r calm over =
      let b = balanced r calm in
      let j = joined r calm in
      let reports =
        ended-ingress unreported (λ pc e. ground arith) s.ingress
          (j.of_ingress (ap past_ingress over)) in
      let work = ended-workers (measure_start s) s.workers (j.of_workers (ap past_workers over)) in
      let idle : in_dispatch (measure_start s) s.dispatcher ≡ 0 =
        ground (arith, j.of_dispatcher (ap past_dispatcher over)) in
      (ground (arith, b.accounted, b.accepted_fits, reports, work, idle), b.sampled, b.has_samples)

  -- Under `Drop`, once the main thread has joined the others and no thread has recorded an
  -- exception, each measured event that was generated is accepted or counted as dropped by its
  -- ingress thread. The counters are modulo 2^64.
  pub drops_counted :
      {s : State}
      → is_drop p.policy ≡ true
      → Reach p w s₀ s
      → s.thread_error ≡ none
      → s.main ≡ finished
      → s.counters.generated ≡ (s.counters.accepted + s.counters.dropped_ingress) % two_64
  drops_counted {s} d r calm over =
      let ins =
        ended-ingress offered (λ pc e. ground arith) s.ingress
          ((joined r calm).of_ingress (ap past_ingress over)) in
      ground (arith, (balanced r calm).generated_once d, ins)
