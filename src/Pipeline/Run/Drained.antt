-- ===== src/Pipeline/Run/Drained.antt =====
-- The shared topology over the queue under one mutex: a worker ends only when the queue is empty
-- and closed, and it is closed only when no thread pushes any more. So no accepted event is left.
mod Workers
pub mod Ends
use laboratory.Base.{
  ℕ, zero, suc, ◌+◌, ◌%◌, ◌<◌, ◌≡◌, refl, sym, ap, subst, ◌∙◌, Bool, true, false, ◌||◌, ◌&&◌, List,
  [], ◌∷◌, length, length-set, Option, some, none, Bool-cases, Option-cases, inl, inr, get_elem?,
  set, All, All-get_elem?, All-set, total, ◌≢◌, arith, if◌then◌else◌,
}
use laboratory.Queue.{Event}
use laboratory.Pipeline.Channel.{
  Channel, close, pops_at_once, push_call, pop_look, pop_flags, Popped, got, ended, found_empty,
  again,
}
use laboratory.Pipeline.Run.{
  Plan, Wiring, Ingress, IngressPc, starting, head, checked, Worker, WorkerPc, DispatcherPc, MainPc,
  sleeping, joining_ingress, joining_dispatcher, joining_workers, finished, State, Reading, Ending,
  stopping, closing, done, end_step,
}
use laboratory.Pipeline.Run.IngressLoop.{ingress_step, fire, fire_or_wait, push_event}
use laboratory.Pipeline.Run.WorkerLoop.{worker_step, take, complete}
use laboratory.Pipeline.Run.DispatcherLoop.{dispatcher_step}
use laboratory.Pipeline.Run.Schedule.{main_step, worker_ended, ingress_ended, all_ingress_ended}
use laboratory.Pipeline.Run.Rule.{After, IsKept}
use laboratory.Pipeline.Run.Joined.{IsJoined, past_ingress, ingress_ended_at}
use laboratory.Pipeline.Run.Balance.{IngressFine, WorkerFine}

unfoldable pub any_worker_ended : List Worker → Bool
any_worker_ended [] = false
any_worker_ended (t ∷ ts) = worker_ended t.pc || any_worker_ended ts

abbrev pub NotLooked : WorkerPc → Type 0
NotLooked WorkerPc.looked = true ≡ false
NotLooked pc = Unit

-- A queue that a worker could end on.
abbrev pub IsOver : Channel → Type 0
IsOver c = (c.closed ≡ true) × (c.waiting ≡ [])

abbrev pub AtOnce : Channel → Type 0
AtOnce c = pops_at_once c.kind ≡ true

-- What a push leaves of a queue.
abbrev Same : Channel → Channel → Type 0
Same c c' = (c'.kind ≡ c.kind) × (c'.closed ≡ c.closed)

push_call-Same :
    (p : Plan) (stop : Bool) (c : Channel) (ev : Event) (want : Bool) {c' : Channel} {ok : Bool}
    → push_call p.policy stop c ev want ≡ some (c', ok)
    → Same c c'
unfolding push_call
push_call-Same p stop c ev true h = ground arith
push_call-Same p stop c ev false h = ground arith

-- One queue; where it is closed the ingress threads have been joined; where a worker has ended it is
-- closed and empty.
abbrev pub DrainedAs : List Channel → Bool → Bool → Type 0
DrainedAs (c ∷ []) some_ended past =
    AtOnce c × (c.closed ≡ true → past ≡ true) × (some_ended ≡ true → IsOver c)
DrainedAs queues some_ended past = true ≡ false

pub record IsDrained (s : State) : Type 0 where
  pub staffed : 0 < length s.workers
  pub no_dispatcher : s.dispatcher ≡ DispatcherPc.ending done
  pub not_looked : All (λ t. NotLooked t.pc) s.workers
  pub queue : DrainedAs s.queues (any_worker_ended s.workers) (past_ingress s.main)

DrainedAs-set :
    (qs : List Channel) (past : Bool) (q : ℕ) {c : Channel} (c' : Channel)
    → DrainedAs qs false past
    → get_elem? qs q ≡ some c
    → Same c c'
    → DrainedAs (set qs q c') false past
DrainedAs-set [] past q c' d has same = d
DrainedAs-set (x ∷ y ∷ qs) past q c' d has same = absurd (ground arith)
DrainedAs-set (x ∷ []) past zero c' d has same =
    (ground arith, λ e. d.1 (ground arith), λ e. absurd (ground arith))
DrainedAs-set (x ∷ []) past (suc q) c' d has same = d

DrainedAs-past : (qs : List Channel) (past : Bool) → DrainedAs qs true past → past ≡ true
DrainedAs-past [] past d = absurd (ground arith)
DrainedAs-past (x ∷ y ∷ qs) past d = absurd (ground arith)
DrainedAs-past (x ∷ []) past d = d.1 (d.2 refl).0

-- The rest of the state is as it was.
abbrev SameRest : State → State → Type 0
SameRest s t =
    (t.queues ≡ s.queues)
    × (t.workers ≡ s.workers)
    × (t.main ≡ s.main)
    × (t.dispatcher ≡ s.dispatcher)

drained-After :
    (s : State) (m : Option State) → IsDrained s → After (SameRest s) m → After IsDrained m
drained-After s none d f = tt
drained-After s (some t) d f = record {
  staffed = omega (arith, ap length f.1, d.staffed);
  no_dispatcher = f.3 ∙ d.no_dispatcher;
  not_looked = rw f.1 d.not_looked;
  queue = rw (f.0, f.1, f.2) d.queue;
}

module _ (p : Plan) (w : Wiring) where
  ingress_rest :
      (r : Reading) (s : State) (i : ℕ) (t : Ingress) (pc : IngressPc)
      → ((ev : Event) (m : Bool) → pc ≢ IngressPc.pushing ev m)
      → IngressFine (s.counters.measure_start_ns) pc
      → After (SameRest s) (ingress_step p w r s i t pc)
  unfolding ingress_step fire fire_or_wait end_step
  ingress_rest r s i t starting other fine = ground arith
  ingress_rest r s i t head other fine = ground arith
  ingress_rest r s i t checked other fine = ground arith
  ingress_rest r s i t (IngressPc.pushing ev m) other fine = absurd (other ev m refl)
  ingress_rest r s i t (IngressPc.counting ok m) other fine = ground arith
  ingress_rest r s i t (IngressPc.ending stopping) other fine = absurd (ground arith)
  ingress_rest r s i t (IngressPc.ending (closing k)) other fine = absurd (ground arith)
  ingress_rest r s i t (IngressPc.ending done) other fine = tt

  module _ (s : State) (d : IsDrained s) (j : IsJoined s) where
    nobody_ended :
        (i : ℕ) {t : Ingress}
        → get_elem? s.ingress i ≡ some t
        → ingress_ended t.pc ≡ false
        → any_worker_ended s.workers ≡ false
    nobody_ended i has busy = elim (Bool-cases (any_worker_ended s.workers)) [
      | inl e ↦
          let past =
            DrainedAs-past s.queues (past_ingress s.main)
              (subst (λ x. DrainedAs s.queues x (past_ingress s.main)) e d.queue) in
          absurd (ground (arith, ingress_ended_at s.ingress i (j.of_ingress past) has))
      | inr e ↦ e
    ]

    pushed :
        (i q : ℕ) (t t' : Ingress) (c c' : Channel)
        → get_elem? s.ingress i ≡ some t
        → ingress_ended t.pc ≡ false
        → get_elem? s.queues q ≡ some c
        → Same c c'
        → IsDrained (record s { queues = set s.queues q c'; ingress = set s.ingress i t' })
    pushed i q t t' c c' has busy hc same =
        let e = nobody_ended i has busy in
        record {
          staffed = d.staffed;
          no_dispatcher = d.no_dispatcher;
          not_looked = d.not_looked;
          queue =
              subst (λ x. DrainedAs (set s.queues q c') x (past_ingress s.main)) (sym e)
                (DrainedAs-set s.queues (past_ingress s.main) q c'
                  (subst (λ x. DrainedAs s.queues x (past_ingress s.main)) e d.queue) hc same);
        }

    IsDrained-by_push :
        (r : Reading) (i : ℕ) (t : Ingress) (ev : Event) (m : Bool)
        → t.pc ≡ IngressPc.pushing ev m
        → get_elem? s.ingress i ≡ some t
        → After IsDrained (push_event p r s i t (w.ingress_queue i) ev m)
    unfolding push_event
    IsDrained-by_push r i t ev m e has =
        let q = w.ingress_queue i in
        elim (Option-cases (get_elem? s.queues q)) [
          | inl x ↦ rw (x, push_event) tt
          | inr (c, hc) ↦
              elim (Option-cases (push_call p.policy s.counters.ingress_stop c ev r.ok)) [
                | inl x ↦ rw (hc, push_event, x) tt
                | inr ((c', ok), hp) ↦
                    rw (hc, push_event, hp)
                      (pushed i q t _ c c' has (ap ingress_ended e) hc
                        (push_call-Same p s.counters.ingress_stop c ev r.ok hp))
              ]
        ]

    pub IsDrained-by_ingress :
        (r : Reading) (i : ℕ) (t : Ingress) (pc : IngressPc)
        → t.pc ≡ pc
        → IngressFine (s.counters.measure_start_ns) pc
        → get_elem? s.ingress i ≡ some t
        → After IsDrained (ingress_step p w r s i t pc)
    IsDrained-by_ingress r i t (IngressPc.pushing ev m) e fine has =
        unfold ingress_step in IsDrained-by_push r i t ev m e has
    IsDrained-by_ingress r i t starting e fine has =
        drained-After s _ d (ingress_rest r s i t starting (λ ev m. cc) fine)
    IsDrained-by_ingress r i t pc e fine has =
        drained-After s _ d (ingress_rest r s i t pc (λ ev m. cc) fine)
