-- ===== src/Pipeline/Run/Balance/ByDispatcher.antt =====
-- The steps of the dispatcher keep the balance.
use laboratory.Base.{
  ℕ, suc, ◌+◌, ◌%◌, ◌≡◌, refl, ap, subst, Bool, true, false, not, ◌&&◌, ◌||◌, some, Option-cases,
  inl, inr, get_elem?, set, total-set, arith, if◌then◌else◌,
}
use laboratory.Queue.{Event, two_64}
use laboratory.Pipeline.Channel.{
  Channel, Popped, got, ended, found_empty, again, pop_look, pop_flags, push_call, is_drop, close,
}
use laboratory.Pipeline.Run.{
  Plan, Wiring, DispatcherPc, State, Reading, stopping, closing, done, end_step,
}
use laboratory.Pipeline.Run.IngressLoop.{bump_if}
use laboratory.Pipeline.Run.DispatcherLoop.{
  put, dispatcher_step, take, hand_on, count_drop, is_ending,
}
use laboratory.Pipeline.Run.Balance.{
  IsBalanced, DispatcherFine, in_dispatch, measure_start, weight, queued,
}
use laboratory.Pipeline.Run.Balance.Queues.{
  push_call-Pushed, pop_look-got, LanesOpen-set, lane-IsOpen, queued-close,
}
use laboratory.Pipeline.Run.Rule.{After}

module _ (p : Plan) (w : Wiring) (r : Reading) (s : State) (b : IsBalanced p w s) where
  -- Only the program counter changes, and it holds no event.
  moves :
      (pc : DispatcherPc)
      → DispatcherFine p (measure_start s) pc
      → in_dispatch (measure_start s) s.dispatcher ≡ in_dispatch (measure_start s) pc
      → (is_ending pc ≡ false → is_ending s.dispatcher ≡ false)
      → IsBalanced p w (put s pc)
  moves pc fine same busy = record {
    ingress_fine = b.ingress_fine;
    workers_fine = b.workers_fine;
    dispatcher_fine = fine;
    lanes = λ d. b.lanes (busy d);
    has_samples = b.has_samples;
    sampled = b.sampled;
    accepted_fits = b.accepted_fits;
    generated_once = b.generated_once;
    accounted = ground (arith, same, b.accounted);
  }

  module _ (busy : is_ending s.dispatcher ≡ false)
      (idle : in_dispatch (measure_start s) s.dispatcher ≡ 0) where
    takes :
        (c c' : Channel) (ev : Event)
        → get_elem? s.queues 0 ≡ some c
        → c'.closed ≡ c.closed
        → queued (measure_start s) c ≡ weight (measure_start s) ev + queued (measure_start s) c'
        → IsBalanced p w (take s (got ev c'))
    unfolding take
    takes c c' ev hc flag moved =
        let waits = total-set (queued (measure_start s)) s.queues 0 c c' hc in
        record {
          ingress_fine = b.ingress_fine;
          workers_fine = b.workers_fine;
          dispatcher_fine = refl;
          lanes = λ d. (LanesOpen-set s.queues 0 c' (b.lanes busy).0 hc flag, (b.lanes busy).1);
          has_samples = b.has_samples;
          sampled = b.sampled;
          accepted_fits = b.accepted_fits;
          generated_once = b.generated_once;
          accounted = ground (arith, idle, waits, moved, b.accounted);
        }

    looks :
        (c : Channel)
        → get_elem? s.queues 0 ≡ some c
        → (m : Popped) → pop_look false r.ok c c.waiting ≡ m
        → IsBalanced p w (take s m)
    looks c hc (got ev c') e =
        let (flag, moved) = pop_look-got (measure_start s) false r.ok c c.waiting refl e in
        takes c c' ev hc flag moved
    looks c hc ended e = unfold take in moves (DispatcherPc.ending (closing 1)) tt idle (λ d. busy)
    looks c hc found_empty e = unfold take in moves DispatcherPc.looked tt idle (λ d. busy)
    looks c hc again e = unfold take in moves DispatcherPc.popping tt idle (λ d. busy)

    loads_flags : (closed : Bool) → IsBalanced p w (take s (if closed then ended else again))
    unfolding take
    loads_flags true = moves (DispatcherPc.ending (closing 1)) tt idle (λ d. busy)
    loads_flags false = moves DispatcherPc.popping tt idle (λ d. busy)

  returns :
      (k : ℕ) (ev : Event) (m : Bool) (c c' : Channel) (ok : Bool)
      → s.dispatcher ≡ DispatcherPc.pushing ev m
      → get_elem? s.queues (suc k) ≡ some c
      → push_call p.policy false c ev r.ok ≡ some (c', ok)
      → IsBalanced p w
          (record s { queues = set s.queues (suc k) c'; dispatcher = DispatcherPc.counting ok m })
  returns k ev m c c' ok e hc hp =
      let pushed = push_call-Pushed (measure_start s) p.policy false c ev r.ok hp in
      let busy : is_ending s.dispatcher ≡ false = ap is_ending e in
      let waits = total-set (queued (measure_start s)) s.queues (suc k) c c' hc in
      let fine : DispatcherFine p (measure_start s) (DispatcherPc.pushing ev m) =
        subst (DispatcherFine p (measure_start s)) e b.dispatcher_fine in
      record {
        ingress_fine = b.ingress_fine;
        workers_fine = b.workers_fine;
        dispatcher_fine =
            λ no_room. pushed.refused no_room (lane-IsOpen s.queues k (b.lanes busy).0 hc) refl;
        lanes = λ d. (
          LanesOpen-set s.queues (suc k) c' (b.lanes busy).0 hc pushed.same_flag,
          (b.lanes busy).1,
        );
        has_samples = b.has_samples;
        sampled = b.sampled;
        accepted_fits = b.accepted_fits;
        generated_once = b.generated_once;
        accounted =
            ground
              (arith, waits, fine, pushed.adds, b.accounted, ap (in_dispatch (measure_start s)) e);
      }

  drops :
      (ok m : Bool)
      → (ok ≡ false → is_drop p.policy ≡ true)
      → in_dispatch (measure_start s) s.dispatcher
        ≡ in_dispatch (measure_start s) (DispatcherPc.counting ok m)
      → bump_if (not ok && is_drop p.policy && m) s.counters.dropped_dispatch % two_64
        ≡ (s.counters.dropped_dispatch + in_dispatch (measure_start s) s.dispatcher) % two_64
  drops true m fine e = ground (arith, e)
  drops false m fine e = ground (arith, fine refl, e)

  counts :
      (ok m : Bool)
      → s.dispatcher ≡ DispatcherPc.counting ok m
      → IsBalanced p w
          (put (record s { counters = count_drop p ok m s.counters }) DispatcherPc.popping)
  unfolding count_drop
  counts ok m e =
      let busy : is_ending s.dispatcher ≡ false = ap is_ending e in
      let fine : DispatcherFine p (measure_start s) (DispatcherPc.counting ok m) =
        subst (DispatcherFine p (measure_start s)) e b.dispatcher_fine in
      record {
        ingress_fine = b.ingress_fine;
        workers_fine = b.workers_fine;
        dispatcher_fine = tt;
        lanes = λ d. b.lanes busy;
        has_samples = b.has_samples;
        sampled = b.sampled;
        accepted_fits = b.accepted_fits;
        generated_once = b.generated_once;
        accounted =
            omega (arith, drops ok m fine (ap (in_dispatch (measure_start s)) e), b.accounted);
      }

  hands_on :
      (ev : Event) (m : Bool)
      → s.dispatcher ≡ DispatcherPc.pushing ev m
      → After (IsBalanced p w) (hand_on p r s ev m)
  unfolding hand_on
  hands_on ev m e =
      let k = ev.target_worker % p.workers in
      elim (Option-cases (get_elem? s.queues (suc k))) [
        | inl x ↦ rw (x, hand_on) tt
        | inr (c, hc) ↦ elim (Option-cases (push_call p.policy false c ev r.ok)) [
          | inl x ↦ rw (hc, hand_on, x) tt
          | inr ((c', ok), hp) ↦ rw (hc, hand_on, hp) (returns k ev m c c' ok e hc hp)
        ]
      ]

  closes :
      (k : ℕ) (c : Channel)
      → get_elem? s.queues k ≡ some c
      → in_dispatch (measure_start s) s.dispatcher ≡ 0
      → IsBalanced p w (record s {
        queues = set s.queues k (close c);
        dispatcher = DispatcherPc.ending (closing (suc k));
      })
  closes k c hc idle = record {
    ingress_fine = b.ingress_fine;
    workers_fine = b.workers_fine;
    dispatcher_fine = tt;
    lanes = λ d. cc;
    has_samples = b.has_samples;
    sampled = b.sampled;
    accepted_fits = b.accepted_fits;
    generated_once = b.generated_once;
    accounted = omega (arith, idle, queued-close (measure_start s) s.queues k c hc, b.accounted);
  }

  steps_at :
      (pc : DispatcherPc)
      → s.dispatcher ≡ pc
      → DispatcherFine p (measure_start s) pc
      → After (IsBalanced p w) (dispatcher_step p r s pc)
  unfolding dispatcher_step end_step pop_flags
  steps_at DispatcherPc.popping e fine = elim (Option-cases (get_elem? s.queues 0)) [
    | inl x ↦ rw (x, dispatcher_step) tt
    | inr (c, hc) ↦
        rw (hc, dispatcher_step)
          (looks (ap is_ending e) (ap (in_dispatch (measure_start s)) e) c hc _ refl)
  ]
  steps_at DispatcherPc.looked e fine = elim (Option-cases (get_elem? s.queues 0)) [
    | inl x ↦ rw (x, dispatcher_step) tt
    | inr (c, hc) ↦
        rw (hc, dispatcher_step)
          (loads_flags (ap is_ending e) (ap (in_dispatch (measure_start s)) e) (c.closed || false))
  ]
  steps_at (DispatcherPc.pushing ev m) e fine = hands_on ev m e
  steps_at (DispatcherPc.counting ok m) e fine = counts ok m e
  steps_at (DispatcherPc.ending stopping) e fine = absurd (ground arith)
  steps_at (DispatcherPc.ending (closing k)) e fine = elim (Option-cases (get_elem? s.queues k)) [
    | inl x ↦
        rw (x, dispatcher_step, end_step)
          (moves (DispatcherPc.ending done) tt (ap (in_dispatch (measure_start s)) e) (λ d. cc))
    | inr (c, hc) ↦
        rw (hc, dispatcher_step, end_step) (closes k c hc (ap (in_dispatch (measure_start s)) e))
  ]
  steps_at (DispatcherPc.ending done) e fine = tt

  pub keeps : After (IsBalanced p w) (dispatcher_step p r s s.dispatcher)
  keeps = steps_at s.dispatcher refl b.dispatcher_fine
