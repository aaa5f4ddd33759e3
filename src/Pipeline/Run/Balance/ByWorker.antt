-- ===== src/Pipeline/Run/Balance/ByWorker.antt =====
-- The steps of the workers keep the balance.
use laboratory.Base.{
  ℕ, ◌+◌, ◌≡◌, refl, sym, ap, subst, Bool, true, false, ◌||◌, [], ◌∷◌, some, Option-cases, inl, inr,
  All-get_elem?, All-set, get_elem?, set, total, total-set, length-append, arith, if◌then◌else◌,
}
use laboratory.Base.Int.{sub_ℕ}
use laboratory.Queue.{Event, bump}
use laboratory.Pipeline.Stats.{is_measured, work_ns}
use laboratory.Pipeline.Channel.{
  Channel, Popped, got, ended, found_empty, again, pop_look, pop_flags,
}
use laboratory.Pipeline.Run.{Plan, Wiring, Worker, WorkerPc, State, Reading, done, end_step}
use laboratory.Pipeline.Run.WorkerLoop.{put, at, worker_step, take, complete, count_event}
use laboratory.Pipeline.Run.Balance.{
  IsBalanced, WorkerFine, HasSamples, samples, in_work, measure_start, one, weight, queued,
}
use laboratory.Pipeline.Run.Balance.Queues.{pop_look-got, LanesOpen-set}
use laboratory.Pipeline.Run.Rule.{After}

module _ (p : Plan) (w : Wiring) (r : Reading) (s : State) (i : ℕ) (t : Worker)
    (b : IsBalanced p w s) (has : get_elem? s.workers i ≡ some t) where
  own_samples : HasSamples t
  own_samples = All-get_elem? HasSamples s.workers i b.has_samples has

  -- Only the thread's counter changes, and it holds no event.
  moves :
      (pc : WorkerPc)
      → WorkerFine pc
      → in_work (measure_start s) t.pc ≡ in_work (measure_start s) pc
      → IsBalanced p w (put s i (at t pc))
  moves pc fine same =
      let t' = at t pc in
      let work : total (λ x. in_work (measure_start s) x.pc) (set s.workers i t')
          ≡ total (λ x. in_work (measure_start s) x.pc) s.workers =
        omega (arith, total-set (λ x. in_work (measure_start s) x.pc) s.workers i t t' has) in
      let sums : total samples (set s.workers i t') ≡ total samples s.workers =
        omega (arith, total-set samples s.workers i t t' has) in
      record {
        ingress_fine = b.ingress_fine;
        workers_fine = All-set (λ x. WorkerFine x.pc) s.workers i t' b.workers_fine fine;
        dispatcher_fine = b.dispatcher_fine;
        lanes = b.lanes;
        has_samples = All-set HasSamples s.workers i t' b.has_samples own_samples;
        sampled = rw sums b.sampled;
        accepted_fits = b.accepted_fits;
        generated_once = b.generated_once;
        accounted = rw work b.accounted;
      }

  -- An event goes from the queue to the worker.
  takes :
      (q : ℕ) (c c' : Channel) (ev : Event)
      → get_elem? s.queues q ≡ some c
      → c'.closed ≡ c.closed
      → queued (measure_start s) c ≡ weight (measure_start s) ev + queued (measure_start s) c'
      → in_work (measure_start s) t.pc ≡ 0
      → IsBalanced p w (take s i t q (got ev c'))
  unfolding take
  takes q c c' ev hc flag moved idle =
      let t' = at t (WorkerPc.working ev) in
      let work = total-set (λ x. in_work (measure_start s) x.pc) s.workers i t t' has in
      let waits = total-set (queued (measure_start s)) s.queues q c c' hc in
      let sums : total samples (set s.workers i t') ≡ total samples s.workers =
        omega (arith, total-set samples s.workers i t t' has) in
      record {
        ingress_fine = b.ingress_fine;
        workers_fine = All-set (λ x. WorkerFine x.pc) s.workers i t' b.workers_fine tt;
        dispatcher_fine = b.dispatcher_fine;
        lanes = λ d. (LanesOpen-set s.queues q c' (b.lanes d).0 hc flag, (b.lanes d).1);
        has_samples = All-set HasSamples s.workers i t' b.has_samples own_samples;
        sampled = rw sums b.sampled;
        accepted_fits = b.accepted_fits;
        generated_once = b.generated_once;
        accounted = ground (arith, work, waits, moved, b.accounted);
      }

  looks :
      (q : ℕ) (c : Channel)
      → get_elem? s.queues q ≡ some c
      → in_work (measure_start s) t.pc ≡ 0
      → (m : Popped) → pop_look false r.ok c c.waiting ≡ m
      → IsBalanced p w (take s i t q m)
  looks q c hc idle (got ev c') e =
      let (flag, moved) = pop_look-got (measure_start s) false r.ok c c.waiting refl e in
      takes q c c' ev hc flag moved idle
  looks q c hc idle ended e = unfold take in moves (WorkerPc.ending done) refl idle
  looks q c hc idle found_empty e = unfold take in moves WorkerPc.looked tt idle
  looks q c hc idle again e = unfold take in moves WorkerPc.popping tt idle

  loads_flags :
      (q : ℕ) (c : Channel) (closed : Bool)
      → in_work (measure_start s) t.pc ≡ 0
      → IsBalanced p w (take s i t q (if closed then ended else again))
  unfolding take
  loads_flags q c true idle = moves (WorkerPc.ending done) refl idle
  loads_flags q c false idle = moves WorkerPc.popping tt idle

  -- The worker after an event.
  abbrev rested : Bool → Event → Worker
  rested m ev = record {
    metrics = count_event m ev r.now t.metrics;
    rng = (work_ns p.service_ns p.jitter_ns t.rng).1;
    pc = WorkerPc.popping;
  }

  rested-HasSamples : (m : Bool) (ev : Event) → HasSamples (rested m ev)
  unfolding count_event
  rested-HasSamples true ev =
      ground
        (arith, own_samples, length-append t.metrics.latencies_ns (sub_ℕ r.now ev.created_at ∷ []))
  rested-HasSamples false ev = own_samples

  samples-rested : (m : Bool) (ev : Event) → samples (rested m ev) ≡ samples t + one m
  unfolding count_event
  samples-rested true ev = length-append t.metrics.latencies_ns (sub_ℕ r.now ev.created_at ∷ [])
  samples-rested false ev = omega arith

  counted :
      (m : Bool) (ev : Event)
      → in_work (measure_start s) t.pc ≡ one m
      → IsBalanced p w (record s {
        counters = record s.counters {
          completed = if m then bump s.counters.completed else s.counters.completed;
        };
        workers = set s.workers i (rested m ev);
      })
  counted m ev held =
      let t' = rested m ev in
      let work = total-set (λ x. in_work (measure_start s) x.pc) s.workers i t t' has in
      let sums = total-set samples s.workers i t t' has in
      record {
        ingress_fine = b.ingress_fine;
        workers_fine = All-set (λ x. WorkerFine x.pc) s.workers i t' b.workers_fine tt;
        dispatcher_fine = b.dispatcher_fine;
        lanes = b.lanes;
        has_samples = All-set HasSamples s.workers i t' b.has_samples (rested-HasSamples m ev);
        sampled = ground (arith, b.sampled, sums, samples-rested m ev);
        accepted_fits = b.accepted_fits;
        generated_once = b.generated_once;
        accounted = ground (arith, work, held, b.accounted);
      }

  steps_at :
      (pc : WorkerPc)
      → t.pc ≡ pc
      → WorkerFine pc
      → After (IsBalanced p w) (worker_step p w r s i t pc)
  unfolding worker_step end_step complete pop_flags
  steps_at WorkerPc.popping e fine = elim (Option-cases (get_elem? s.queues (w.worker_queue i))) [
    | inl x ↦ rw (x, worker_step) tt
    | inr (c, hc) ↦
        rw (hc, worker_step)
          (looks (w.worker_queue i) c hc (ap (in_work (measure_start s)) e) _ refl)
  ]
  steps_at WorkerPc.looked e fine = elim (Option-cases (get_elem? s.queues (w.worker_queue i))) [
    | inl x ↦ rw (x, worker_step) tt
    | inr (c, hc) ↦
        rw (hc, worker_step)
          (loads_flags (w.worker_queue i) c (c.closed || false) (ap (in_work (measure_start s)) e))
  ]
  steps_at (WorkerPc.working ev) e fine =
      counted (is_measured ev.created_at s.counters) ev (ap (in_work (measure_start s)) e)
  steps_at (WorkerPc.ending x) e fine =
      subst (λ y. After (IsBalanced p w) (worker_step p w r s i t (WorkerPc.ending y))) (sym fine)
        tt

  pub keeps : After (IsBalanced p w) (worker_step p w r s i t t.pc)
  keeps = steps_at t.pc refl (All-get_elem? (λ x. WorkerFine x.pc) s.workers i b.workers_fine has)
