-- ===== src/Pipeline/Run/Routes/ByWorker.antt =====
-- The steps of the workers keep the events on their routes.
use laboratory.Base.{
  ℕ, suc, ◌≡◌, refl, sym, subst, Bool, true, false, ◌||◌, Option, some, none, Option-cases, inl,
  inr, get_elem?, set, All, if◌then◌else◌,
}
use laboratory.Pipeline.Channel.{
  Channel, pop_look, pop_flags, Popped, got, ended, found_empty, again,
}
use laboratory.Pipeline.Run.{
  Plan, Ingress, Worker, WorkerPc, State, Reading, Ending, done, end_step,
}
use laboratory.Pipeline.Run.WorkerLoop
use laboratory.Pipeline.Run.WorkerLoop.{worker_step, complete}
use laboratory.Pipeline.Run.Topologies.{dispatch_wiring}
use laboratory.Pipeline.Run.Rule.{After}
use laboratory.Pipeline.Run.Routes.{
  AllAt, AllAt-get_elem?, AllAt-set, AtIngress, AtWorker, AtDispatcher, QueueBelongs, IsRouted,
  pop_look-Belongs, EndRoutes, end_routes,
}

module _ (p : Plan) (n : ℕ) (s : State) (b : IsRouted n s) where
  abbrev R : State → Type 0
  R = IsRouted n

  abbrev AtI : Ingress → Type 0
  AtI t = AtIngress n t.pc

  abbrev AtW : ℕ → Worker → Type 0
  AtW i t = AtWorker n i t.pc

  module _ (r : Reading) (i : ℕ) (t : Worker) (has : get_elem? s.workers i ≡ some t) where
    worker_moves : (t' : Worker) → AtW i t' → R (WorkerLoop.put s i t')
    worker_moves t' fine = record {
      queues = b.queues;
      ingress = b.ingress;
      workers = AllAt-set AtW s.workers i t' b.workers fine;
      dispatcher = b.dispatcher;
    }

    worker_takes :
        (c : Channel) (m : Popped)
        → get_elem? s.queues (suc i) ≡ some c
        → pop_look false r.ok c c.waiting ≡ m
        → R (WorkerLoop.take s i t (suc i) m)
    unfolding WorkerLoop.take
    worker_takes c (got ev c') hc e =
        let belongs =
          pop_look-Belongs n false r.ok (suc i) c c.waiting ev c'
            (AllAt-get_elem? (QueueBelongs n) s.queues (suc i) b.queues hc) e in
        record {
          queues = AllAt-set (QueueBelongs n) s.queues (suc i) c' b.queues belongs.1;
          ingress = b.ingress;
          workers =
              AllAt-set AtW s.workers i (WorkerLoop.at t (WorkerPc.working ev)) b.workers belongs.0;
          dispatcher = b.dispatcher;
        }
    worker_takes c ended hc e = worker_moves (WorkerLoop.at t (WorkerPc.ending done)) tt
    worker_takes c found_empty hc e = worker_moves (WorkerLoop.at t WorkerPc.looked) tt
    worker_takes c again hc e = worker_moves (WorkerLoop.at t WorkerPc.popping) tt

    worker_loads : (shut : Bool) → R (WorkerLoop.take s i t (suc i) (if shut then ended else again))
    unfolding WorkerLoop.take
    worker_loads true = worker_moves (WorkerLoop.at t (WorkerPc.ending done)) tt
    worker_loads false = worker_moves (WorkerLoop.at t WorkerPc.popping) tt

    worker_ends :
        (m : Option (State × Ending))
        → EndRoutes n s m
        → After R (elim m [
          | none ↦ none
          | some (s', e') ↦ some (WorkerLoop.put s' i (WorkerLoop.at t (WorkerPc.ending e')))
        ])
    worker_ends none h = tt
    worker_ends (some (s', e')) h = record {
      queues = h.0;
      ingress = subst (All AtI) (sym h.1.0) b.ingress;
      workers =
          subst (λ xs. AllAt AtW (set xs i (WorkerLoop.at t (WorkerPc.ending e')))) (sym h.1.1)
            (AllAt-set AtW s.workers i (WorkerLoop.at t (WorkerPc.ending e')) b.workers tt);
      dispatcher = subst (AtDispatcher n) (sym h.1.2) b.dispatcher;
    }

    pub worker_at : (pc : WorkerPc) → After R (worker_step p (dispatch_wiring n) r s i t pc)
    unfolding worker_step dispatch_wiring complete pop_flags
    worker_at WorkerPc.popping = elim (Option-cases (get_elem? s.queues (suc i))) [
      | inl x ↦ rw (x, worker_step) tt
      | inr (c, hc) ↦ rw (hc, worker_step) (worker_takes c _ hc refl)
    ]
    worker_at WorkerPc.looked = elim (Option-cases (get_elem? s.queues (suc i))) [
      | inl x ↦ rw (x, worker_step) tt
      | inr (c, hc) ↦ rw (hc, worker_step) (worker_loads (c.closed || false))
    ]
    worker_at (WorkerPc.working ev) = record {
      queues = b.queues;
      ingress = b.ingress;
      workers = AllAt-set AtW s.workers i _ b.workers tt;
      dispatcher = b.dispatcher;
    }
    worker_at (WorkerPc.ending x) = worker_ends (end_step 0 s x) (end_routes n 0 s x b.queues)
