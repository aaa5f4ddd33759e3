-- ===== src/Pipeline/Run/Balance/ByIngress.antt =====
-- The steps of the ingress threads keep the balance.
use laboratory.Base.{
  ℕ, ◌+◌, ◌≡◌, refl, Bool, true, false, some, Option-cases, Bool-cases, sym, ltb, ◌&&◌, inl, inr,
  ap, subst, All-get_elem?, All-set, get_elem?, set, total, total-set, arith, if◌then◌else◌,
}
use laboratory.Base.Int.{pos, leb_ℤ}
use laboratory.Queue.{Event, bump}
use laboratory.Pipeline.Stats.{is_measured}
use laboratory.Pipeline.Channel.{Channel, push_call}
use laboratory.Pipeline.Run.{
  Plan, Wiring, Ingress, IngressPc, starting, head, checked, State, Reading, done, end_step,
}
use laboratory.Pipeline.Run.IngressLoop.{
  put, at, ingress_step, fire, fire_or_wait, push_event, count_push, make_event,
}
use laboratory.Pipeline.Run.Balance.{
  IsBalanced, IngressFine, offered, unreported, measure_start, queued,
}
use laboratory.Pipeline.Run.Balance.Queues.{push_call-Pushed, LanesOpen-set}
use laboratory.Pipeline.Run.Rule.{After}

module _ (p : Plan) (w : Wiring) (r : Reading) (s : State) (i : ℕ) (t : Ingress)
    (b : IsBalanced p w s) (has : get_elem? s.ingress i ≡ some t) where
  -- Only the thread changes, and it holds no event.
  moves :
      (t' : Ingress)
      → IngressFine (measure_start s) t'.pc
      → offered t.pc ≡ offered t'.pc
      → unreported t.pc ≡ unreported t'.pc
      → IsBalanced p w (put s i t')
  moves t' fine o u =
      let flights : total (λ x. offered x.pc) (set s.ingress i t')
          ≡ total (λ x. offered x.pc) s.ingress =
        omega (arith, total-set (λ x. offered x.pc) s.ingress i t t' has) in
      let reports : total (λ x. unreported x.pc) (set s.ingress i t')
          ≡ total (λ x. unreported x.pc) s.ingress =
        omega (arith, total-set (λ x. unreported x.pc) s.ingress i t t' has) in
      record {
        ingress_fine =
            All-set (λ x. IngressFine (measure_start s) x.pc) s.ingress i t' b.ingress_fine fine;
        workers_fine = b.workers_fine;
        dispatcher_fine = b.dispatcher_fine;
        lanes = b.lanes;
        has_samples = b.has_samples;
        sampled = b.sampled;
        accepted_fits = b.accepted_fits;
        generated_once = λ d. rw flights (b.generated_once d);
        accounted = rw reports b.accounted;
      }

  -- An event is made, and counted as generated if it is measured.
  fires : t.pc ≡ checked → IsBalanced p w (fire p w r s i t)
  unfolding fire make_event
  fires e =
      let t' : Ingress = record {
        next_fire = if p.rate_limited then t.next_fire + p.interval else t.next_fire;
        seq = bump t.seq;
        pc = IngressPc.pushing (make_event w i t.seq r.created) (is_measured r.created s.counters);
      } in
      let flights = total-set (λ x. offered x.pc) s.ingress i t t' has in
      let reports : total (λ x. unreported x.pc) (set s.ingress i t')
          ≡ total (λ x. unreported x.pc) s.ingress =
        ground (arith, total-set (λ x. unreported x.pc) s.ingress i t t' has) in
      record {
        ingress_fine =
            All-set (λ x. IngressFine (measure_start s) x.pc) s.ingress i t' b.ingress_fine refl;
        workers_fine = b.workers_fine;
        dispatcher_fine = b.dispatcher_fine;
        lanes = b.lanes;
        has_samples = b.has_samples;
        sampled = b.sampled;
        accepted_fits = b.accepted_fits;
        generated_once = λ d. ground (arith, flights, b.generated_once d);
        accounted = rw reports b.accounted;
      }

  -- A push that returns: the event is in the queue, or still with its thread.
  returns :
      (q : ℕ) (ev : Event) (m : Bool) (c c' : Channel) (ok : Bool)
      → t.pc ≡ IngressPc.pushing ev m
      → get_elem? s.queues q ≡ some c
      → push_call p.policy s.counters.ingress_stop c ev r.ok ≡ some (c', ok)
      → IsBalanced p w (record s {
        queues = set s.queues q c';
        ingress = set s.ingress i (at t (IngressPc.counting ok m));
      })
  returns q ev m c c' ok e hc hp =
      let pushed =
        push_call-Pushed (measure_start s) p.policy s.counters.ingress_stop c ev r.ok hp in
      let t' = at t (IngressPc.counting ok m) in
      let fine : IngressFine (measure_start s) (IngressPc.pushing ev m) =
        subst (IngressFine (measure_start s)) e (
          All-get_elem? (λ x. IngressFine (measure_start s) x.pc) s.ingress i b.ingress_fine has) in
      let flights : total (λ x. offered x.pc) (set s.ingress i t')
          ≡ total (λ x. offered x.pc) s.ingress =
        omega (arith, total-set (λ x. offered x.pc) s.ingress i t t' has, ap offered e) in
      let reports = total-set (λ x. unreported x.pc) s.ingress i t t' has in
      let waits = total-set (queued (measure_start s)) s.queues q c c' hc in
      record {
        ingress_fine =
            All-set (λ x. IngressFine (measure_start s) x.pc) s.ingress i t' b.ingress_fine tt;
        workers_fine = b.workers_fine;
        dispatcher_fine = b.dispatcher_fine;
        lanes = λ d. (LanesOpen-set s.queues q c' (b.lanes d).0 hc pushed.same_flag, (b.lanes d).1);
        has_samples = b.has_samples;
        sampled = b.sampled;
        accepted_fits = b.accepted_fits;
        generated_once = λ d. rw flights (b.generated_once d);
        accounted = ground (arith, reports, waits, pushed.adds, b.accounted, ap unreported e);
      }

  pushes :
      (q : ℕ) (ev : Event) (m : Bool)
      → t.pc ≡ IngressPc.pushing ev m
      → After (IsBalanced p w) (push_event p r s i t q ev m)
  unfolding push_event
  pushes q ev m e = elim (Option-cases (get_elem? s.queues q)) [
    | inl x ↦ rw (x, push_event) tt
    | inr (c, hc) ↦ elim (Option-cases (push_call p.policy s.counters.ingress_stop c ev r.ok)) [
      | inl x ↦ rw (hc, push_event, x) tt
      | inr ((c', ok), hp) ↦ rw (hc, push_event, hp) (returns q ev m c c' ok e hc hp)
    ]
  ]

  counts :
      (ok m : Bool)
      → t.pc ≡ IngressPc.counting ok m
      → IsBalanced p w (put (record s { counters = count_push p ok m s.counters }) i (at t head))
  unfolding count_push
  counts true m e =
      let t' = at t head in
      let flights = total-set (λ x. offered x.pc) s.ingress i t t' has in
      let reports = total-set (λ x. unreported x.pc) s.ingress i t t' has in
      record {
        ingress_fine =
            All-set (λ x. IngressFine (measure_start s) x.pc) s.ingress i t' b.ingress_fine tt;
        workers_fine = b.workers_fine;
        dispatcher_fine = b.dispatcher_fine;
        lanes = b.lanes;
        has_samples = b.has_samples;
        sampled = b.sampled;
        accepted_fits = ground (arith, b.accepted_fits);
        generated_once = λ d. ground (arith, flights, b.generated_once d, ap offered e);
        accounted = ground (arith, reports, b.accounted, ap unreported e);
      }
  counts false m e =
      let t' = at t head in
      let flights = total-set (λ x. offered x.pc) s.ingress i t t' has in
      let reports : total (λ x. unreported x.pc) (set s.ingress i t')
          ≡ total (λ x. unreported x.pc) s.ingress =
        omega (arith, total-set (λ x. unreported x.pc) s.ingress i t t' has, ap unreported e) in
      record {
        ingress_fine =
            All-set (λ x. IngressFine (measure_start s) x.pc) s.ingress i t' b.ingress_fine tt;
        workers_fine = b.workers_fine;
        dispatcher_fine = b.dispatcher_fine;
        lanes = b.lanes;
        has_samples = b.has_samples;
        sampled = b.sampled;
        accepted_fits = b.accepted_fits;
        generated_once = λ d. ground (arith, d, flights, b.generated_once d, ap offered e);
        accounted = rw reports b.accounted;
      }

  waits_or_fires : t.pc ≡ checked → IsBalanced p w (fire_or_wait p w r s i t)
  unfolding fire_or_wait
  waits_or_fires e = elim (Bool-cases (leb_ℤ p.measure_end (pos r.now))) [
    | inl over ↦ rw over (moves (at t (IngressPc.ending done)) refl (rw e refl) (rw e refl))
    | inr more ↦ rw more (elim (Bool-cases (p.rate_limited && ltb r.now t.next_fire)) [
      | inl early ↦ rw early (moves (at t head) tt (rw e refl) (rw e refl))
      | inr due ↦ rw due (fires e)
    ])
  ]

  tests :
      (stop : Bool)
      → t.pc ≡ head
      → IsBalanced p w (put s i (at t (if stop then IngressPc.ending done else checked)))
  tests true e = moves (at t (IngressPc.ending done)) refl (rw e refl) (rw e refl)
  tests false e = moves (at t checked) tt (rw e refl) (rw e refl)

  steps_at :
      (pc : IngressPc)
      → t.pc ≡ pc
      → IngressFine (measure_start s) pc
      → After (IsBalanced p w) (ingress_step p w r s i t pc)
  unfolding ingress_step end_step
  steps_at starting e fine =
      moves (record { next_fire = r.now; seq = t.seq; pc = head }) tt (rw e refl) (rw e refl)
  steps_at head e fine = tests s.counters.ingress_stop e
  steps_at checked e fine = waits_or_fires e
  steps_at (IngressPc.pushing ev m) e fine = pushes (w.ingress_queue i) ev m e
  steps_at (IngressPc.counting ok m) e fine = counts ok m e
  steps_at (IngressPc.ending x) e fine =
      subst (λ y. After (IsBalanced p w) (ingress_step p w r s i t (IngressPc.ending y))) (sym fine)
        tt

  pub keeps : After (IsBalanced p w) (ingress_step p w r s i t t.pc)
  keeps =
      steps_at t.pc refl
        (All-get_elem? (λ x. IngressFine (measure_start s) x.pc) s.ingress i b.ingress_fine has)
