-- ===== src/Pipeline/Run/Routes/ByDispatcher.antt =====
-- The steps of the dispatcher keep the events on their routes.
use native.Mathlib.Nat.{mod-mod}
use laboratory.Base.{
  ℕ, suc, ◌%◌, ◌≡◌, refl, sym, subst, Bool, true, false, ◌||◌, Option, some, none, Option-cases,
  inl, inr, get_elem?, All, if◌then◌else◌,
}
use laboratory.Queue.{Event}
use laboratory.Pipeline.Channel.{
  Channel, push_call, pop_look, pop_flags, Popped, got, ended, found_empty, again,
}
use laboratory.Pipeline.Run.{
  Plan, Ingress, Worker, DispatcherPc, State, Reading, Ending, closing, end_step,
}
use laboratory.Pipeline.Run.DispatcherLoop
use laboratory.Pipeline.Run.DispatcherLoop.{dispatcher_step, hand_on}
use laboratory.Pipeline.Run.Rule.{After}
use laboratory.Pipeline.Run.Routes.{
  AllAt, AllAt-get_elem?, AllAt-set, Belongs, AtIngress, AtWorker, AtDispatcher, QueueBelongs,
  IsRouted, push_call-Belongs, pop_look-Belongs, EndRoutes, end_routes,
}

module _ (p : Plan) (n : ℕ) (same : p.workers ≡ n) (s : State) (b : IsRouted n s) where
  abbrev R : State → Type 0
  R = IsRouted n

  abbrev AtI : Ingress → Type 0
  AtI t = AtIngress n t.pc

  abbrev AtW : ℕ → Worker → Type 0
  AtW i t = AtWorker n i t.pc

  dispatcher_moves : (pc : DispatcherPc) → AtDispatcher n pc → R (DispatcherLoop.put s pc)
  dispatcher_moves pc fine = record {
    queues = b.queues;
    ingress = b.ingress;
    workers = b.workers;
    dispatcher = fine;
  }

  dispatcher_takes :
      (r : Reading) (c : Channel) (m : Popped)
      → get_elem? s.queues 0 ≡ some c
      → pop_look false r.ok c c.waiting ≡ m
      → R (DispatcherLoop.take s m)
  unfolding DispatcherLoop.take
  dispatcher_takes r c (got ev c') hc e =
      let belongs =
        pop_look-Belongs n false r.ok 0 c c.waiting ev c'
          (AllAt-get_elem? (QueueBelongs n) s.queues 0 b.queues hc) e in
      record {
        queues = AllAt-set (QueueBelongs n) s.queues 0 c' b.queues belongs.1;
        ingress = b.ingress;
        workers = b.workers;
        dispatcher = belongs.0;
      }
  dispatcher_takes r c ended hc e = dispatcher_moves (DispatcherPc.ending (closing 1)) tt
  dispatcher_takes r c found_empty hc e = dispatcher_moves DispatcherPc.looked tt
  dispatcher_takes r c again hc e = dispatcher_moves DispatcherPc.popping tt

  dispatcher_loads : (shut : Bool) → R (DispatcherLoop.take s (if shut then ended else again))
  unfolding DispatcherLoop.take
  dispatcher_loads true = dispatcher_moves (DispatcherPc.ending (closing 1)) tt
  dispatcher_loads false = dispatcher_moves DispatcherPc.popping tt

  -- The dispatcher's own remainder changes nothing.
  target_kept : (ev : Event) → Belongs n 0 ev → Belongs n (suc (ev.target_worker % p.workers)) ev
  target_kept ev h = rw (h, same) (sym (mod-mod ev.route_key n))

  hands_on :
      (r : Reading) (ev : Event) (m : Bool)
      → s.dispatcher ≡ DispatcherPc.pushing ev m
      → After R (hand_on p r s ev m)
  unfolding hand_on
  hands_on r ev m e =
      let q = suc (ev.target_worker % p.workers) in
      elim (Option-cases (get_elem? s.queues q)) [
        | inl x ↦ rw (x, hand_on) tt
        | inr (c, hc) ↦ elim (Option-cases (push_call p.policy false c ev r.ok)) [
          | inl x ↦ rw (hc, hand_on, x) tt
          | inr ((c', pushed), hp) ↦
              rw (hc, hand_on, hp)
                (record {
                  queues = AllAt-set (QueueBelongs n) s.queues q c' b.queues (
                      push_call-Belongs n p false q c ev r.ok c' pushed
                        (AllAt-get_elem? (QueueBelongs n) s.queues q b.queues hc)
                        (target_kept ev (subst (AtDispatcher n) e b.dispatcher)) hp);
                  ingress = b.ingress;
                  workers = b.workers;
                  dispatcher = tt;
                })
        ]
      ]

  dispatcher_ends :
      (m : Option (State × Ending))
      → EndRoutes n s m
      → After R (elim m [
        | none ↦ none
        | some (s', e') ↦ some (DispatcherLoop.put s' (DispatcherPc.ending e'))
      ])
  dispatcher_ends none h = tt
  dispatcher_ends (some (s', e')) h = record {
    queues = h.0;
    ingress = subst (All AtI) (sym h.1.0) b.ingress;
    workers = subst (AllAt AtW) (sym h.1.1) b.workers;
    dispatcher = tt;
  }

  pub dispatcher_at :
      (r : Reading) (pc : DispatcherPc) → s.dispatcher ≡ pc → After R (dispatcher_step p r s pc)
  unfolding dispatcher_step pop_flags
  dispatcher_at r DispatcherPc.popping e = elim (Option-cases (get_elem? s.queues 0)) [
    | inl x ↦ rw (x, dispatcher_step) tt
    | inr (c, hc) ↦ rw (hc, dispatcher_step) (dispatcher_takes r c _ hc refl)
  ]
  dispatcher_at r DispatcherPc.looked e = elim (Option-cases (get_elem? s.queues 0)) [
    | inl x ↦ rw (x, dispatcher_step) tt
    | inr (c, hc) ↦ rw (hc, dispatcher_step) (dispatcher_loads (c.closed || false))
  ]
  dispatcher_at r (DispatcherPc.pushing ev m) e = hands_on r ev m e
  dispatcher_at r (DispatcherPc.counting ok m) e = record {
    queues = b.queues;
    ingress = b.ingress;
    workers = b.workers;
    dispatcher = tt;
  }
  dispatcher_at r (DispatcherPc.ending x) e =
      dispatcher_ends (end_step 1 s x) (end_routes n 1 s x b.queues)
