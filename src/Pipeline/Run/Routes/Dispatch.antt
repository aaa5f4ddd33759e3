-- ===== src/Pipeline/Run/Routes/Dispatch.antt =====
-- `runDispatchLocalSpscPipeline`: where an event is worked on.
use laboratory.Base.{
  ℕ, zero, suc, ◌%◌, ◌≡◌, refl, sym, subst, Bool, true, false, List, [], ◌∷◌, some, none,
  Option-cases, Bool-cases, inl, inr, get_elem?, All, All-replicate, ltb, ◌+◌, if◌then◌else◌,
}
use laboratory.Base.Int.{ℤ}
use laboratory.Queue.{Event}
use laboratory.Pipeline.Channel.{Channel}
use laboratory.Pipeline.Run.{
  Plan, Worker, WorkerPc, DispatcherPc, MainPc, sleeping, joining_ingress, joining_dispatcher,
  joining_workers, finished, State,
}
use laboratory.Pipeline.Run.Schedule.{
  Reach, main_step, all_ingress_ended, all_workers_ended, dispatcher_ended,
}
use laboratory.Pipeline.Run.Topologies.{dispatch_wiring, start, start_workers, start_ingress}
use laboratory.Pipeline.Run.Rule.{After, Reach-IsKept}
use laboratory.Pipeline.Run.Balance.Totals.{IsNew}
use laboratory.Pipeline.Run.Routes.{
  AllAt, AllAt-get_elem?, AtIngress, AtWorker, Belongs, IsRouted, queue_closes,
}
use laboratory.Pipeline.Run.Routes.ByIngress.{ingress_at}
use laboratory.Pipeline.Run.Routes.ByWorker.{worker_at}
use laboratory.Pipeline.Run.Routes.ByDispatcher.{dispatcher_at}

module _ (n : ℕ) where
  module _ (s : State) (b : IsRouted n s) where
    main_moves : (pc : MainPc) → IsRouted n (record s { main = pc })
    main_moves pc = record {
      queues = b.queues;
      ingress = b.ingress;
      workers = b.workers;
      dispatcher = b.dispatcher;
    }

    joins :
        (all : Bool) (pc : MainPc)
        → After (IsRouted n) (if all then some (record s { main = pc }) else none)
    joins true pc = main_moves pc
    joins false pc = tt

    main_at : (pc : MainPc) → After (IsRouted n) (main_step (dispatch_wiring n) s pc)
    unfolding main_step dispatch_wiring
    main_at sleeping = record {
      queues = b.queues;
      ingress = b.ingress;
      workers = b.workers;
      dispatcher = b.dispatcher;
    }
    main_at joining_ingress = joins (all_ingress_ended s.ingress) (MainPc.closing 0)
    main_at (MainPc.closing k) = elim (Bool-cases (ltb k 1)) [
      | inl more ↦ elim (Option-cases (get_elem? s.queues k)) [
        | inl x ↦ rw (more, main_step, x) tt
        | inr (c, hc) ↦
            rw (more, main_step, hc)
              (record {
                queues = queue_closes n s.queues k c b.queues hc;
                ingress = b.ingress;
                workers = b.workers;
                dispatcher = b.dispatcher;
              })
      ]
      | inr over ↦ rw (over, main_step) (main_moves joining_dispatcher)
    ]
    main_at joining_dispatcher = joins (dispatcher_ended s.dispatcher) joining_workers
    main_at joining_workers = joins (all_workers_ended s.workers) finished
    main_at finished = tt

  nothing_yet :
      (P : ℕ → Event → Type 0) (qs : List Channel)
      → All IsNew qs
      → AllAt (λ q c. All (P q) c.waiting) qs
  nothing_yet P [] h = tt
  nothing_yet P (c ∷ cs) h = (subst (All (P 0)) (sym h.0.0) tt, nothing_yet (λ k. P (suc k)) cs h.1)

  no_work :
      (P : ℕ → WorkerPc → Type 0)
      → ((k : ℕ) → P k WorkerPc.popping)
      → (seed i m : ℕ) → AllAt (λ k t. P k t.pc) (start_workers seed i m)
  unfolding start_workers
  no_work P h seed i zero = tt
  no_work P h seed i (suc m) = (h 0, no_work (λ k. P (suc k)) (λ k. h (suc k)) seed (i + 1) m)

  -- In the dispatch topology, started with new queues and with as many workers as its plan says, at
  -- any point of a run in which no exception was recorded, the event that a worker has popped is
  -- one whose route key leaves the worker's index modulo the number of workers.
  pub dispatch_routes :
      (p : Plan) (warmup_end : ℤ) (ingress_threads : ℕ) (queues : List Channel) {s : State} (i : ℕ)
      (t : Worker) (ev : Event)
      → p.workers ≡ n
      → All IsNew queues
      → Reach p
          (dispatch_wiring n)
          (start (dispatch_wiring n) warmup_end n ingress_threads queues DispatcherPc.popping)
          s
      → s.thread_error ≡ none
      → get_elem? s.workers i ≡ some t
      → t.pc ≡ WorkerPc.working ev
      → ev.route_key % n ≡ i
  unfolding start
  dispatch_routes p warmup_end ingress_threads queues {s} i t ev same new r calm has works =
      let b =
        Reach-IsKept p (dispatch_wiring n) (IsRouted n)
          (record {
            by_ingress = λ r s i t b has. ingress_at p n s b r i t has t.pc refl;
            by_worker = λ r s i t b has. worker_at p n s b r i t has t.pc;
            by_dispatcher = λ r s b. dispatcher_at p n same s b r s.dispatcher refl;
            by_main = λ s b. main_at s b s.main;
          })
          (record {
            queues = nothing_yet (Belongs n) queues new;
            ingress = All-replicate (λ t. AtIngress n t.pc) ingress_threads start_ingress tt;
            workers = no_work (AtWorker n) (λ k. tt) (dispatch_wiring n).seed 0 n;
            dispatcher = tt;
          })
          r calm in
      subst (AtWorker n i) works
        (AllAt-get_elem? (λ k t. AtWorker n k t.pc) s.workers i b.workers has)
