-- ===== src/Pipeline/Run/Routes/ByIngress.antt =====
-- The steps of the ingress threads keep the events on their routes.
use laboratory.Base.{
  ℕ, ◌≡◌, refl, sym, subst, Bool, true, false, ◌&&◌, Option, some, none, Option-cases, Bool-cases,
  inl, inr, get_elem?, set, All, All-get_elem?, All-set, ltb, if◌then◌else◌,
}
use laboratory.Base.Int.{pos, leb_ℤ}
use laboratory.Queue.{Event}
use laboratory.Pipeline.Channel.{push_call}
use laboratory.Pipeline.Run.{
  Plan, Ingress, IngressPc, starting, head, checked, Worker, State, Reading, Ending, done, end_step,
}
use laboratory.Pipeline.Run.IngressLoop
use laboratory.Pipeline.Run.IngressLoop.{ingress_step, fire, fire_or_wait, push_event, make_event}
use laboratory.Pipeline.Run.Topologies.{dispatch_wiring}
use laboratory.Pipeline.Run.Rule.{After}
use laboratory.Pipeline.Run.Routes.{
  AllAt, AllAt-get_elem?, AllAt-set, AtIngress, AtWorker, AtDispatcher, QueueBelongs, IsRouted,
  push_call-Belongs, EndRoutes, end_routes,
}

module _ (p : Plan) (n : ℕ) (s : State) (b : IsRouted n s) where
  abbrev R : State → Type 0
  R = IsRouted n

  abbrev AtI : Ingress → Type 0
  AtI t = AtIngress n t.pc

  abbrev AtW : ℕ → Worker → Type 0
  AtW i t = AtWorker n i t.pc

  module _ (r : Reading) (i : ℕ) (t : Ingress) (has : get_elem? s.ingress i ≡ some t) where
    moves : (t' : Ingress) → AtI t' → R (IngressLoop.put s i t')
    moves t' fine = record {
      queues = b.queues;
      ingress = All-set AtI s.ingress i t' b.ingress fine;
      workers = b.workers;
      dispatcher = b.dispatcher;
    }

    fires : R (fire_or_wait p (dispatch_wiring n) r s i t)
    unfolding fire_or_wait fire make_event dispatch_wiring
    fires = elim (Bool-cases (leb_ℤ p.measure_end (pos r.now))) [
      | inl over ↦ rw over (moves (IngressLoop.at t (IngressPc.ending done)) tt)
      | inr more ↦ rw more (elim (Bool-cases (p.rate_limited && ltb r.now t.next_fire)) [
        | inl early ↦ rw early (moves (IngressLoop.at t head) tt)
        | inr due ↦ rw due (record {
          queues = b.queues;
          ingress = All-set AtI s.ingress i _ b.ingress refl;
          workers = b.workers;
          dispatcher = b.dispatcher;
        })
      ])
    ]

    pushes :
        (ev : Event) (m : Bool)
        → t.pc ≡ IngressPc.pushing ev m
        → After R (push_event p r s i t 0 ev m)
    unfolding push_event
    pushes ev m e = elim (Option-cases (get_elem? s.queues 0)) [
      | inl x ↦ rw (x, push_event) tt
      | inr (c, hc) ↦ elim (Option-cases (push_call p.policy s.counters.ingress_stop c ev r.ok)) [
        | inl x ↦ rw (hc, push_event, x) tt
        | inr ((c', pushed), hp) ↦
            rw (hc, push_event, hp)
              (record {
                queues = AllAt-set (QueueBelongs n) s.queues 0 c' b.queues (
                    push_call-Belongs n p s.counters.ingress_stop 0 c ev r.ok c' pushed
                      (AllAt-get_elem? (QueueBelongs n) s.queues 0 b.queues hc)
                      (subst (AtIngress n) e (All-get_elem? AtI s.ingress i b.ingress has)) hp);
                ingress = All-set AtI s.ingress i _ b.ingress tt;
                workers = b.workers;
                dispatcher = b.dispatcher;
              })
      ]
    ]

    ends :
        (m : Option (State × Ending))
        → EndRoutes n s m
        → After R (elim m [
          | none ↦ none
          | some (s', e') ↦ some (IngressLoop.put s' i (IngressLoop.at t (IngressPc.ending e')))
        ])
    ends none h = tt
    ends (some (s', e')) h = record {
      queues = h.0;
      ingress =
          subst (λ xs. All AtI (set xs i (IngressLoop.at t (IngressPc.ending e')))) (sym h.1.0)
            (All-set AtI s.ingress i _ b.ingress tt);
      workers = subst (AllAt AtW) (sym h.1.1) b.workers;
      dispatcher = subst (AtDispatcher n) (sym h.1.2) b.dispatcher;
    }

    tests :
        (stop : Bool)
        → R (
            IngressLoop.put s i
              (IngressLoop.at t (if stop then IngressPc.ending done else checked)))
    tests true = moves (IngressLoop.at t (IngressPc.ending done)) tt
    tests false = moves (IngressLoop.at t checked) tt

    pub ingress_at :
        (pc : IngressPc) → t.pc ≡ pc → After R (ingress_step p (dispatch_wiring n) r s i t pc)
    unfolding ingress_step dispatch_wiring
    ingress_at starting e = moves (record { next_fire = r.now; seq = t.seq; pc = head }) tt
    ingress_at head e = tests s.counters.ingress_stop
    ingress_at checked e = fires
    ingress_at (IngressPc.pushing ev m) e = pushes ev m e
    ingress_at (IngressPc.counting ok m) e = record {
      queues = b.queues;
      ingress = All-set AtI s.ingress i (IngressLoop.at t head) b.ingress tt;
      workers = b.workers;
      dispatcher = b.dispatcher;
    }
    ingress_at (IngressPc.ending x) e = ends (end_step 0 s x) (end_routes n 0 s x b.queues)
