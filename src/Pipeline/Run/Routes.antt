-- ===== src/Pipeline/Run/Routes.antt =====
-- Where the events of `runDispatchLocalSpscPipeline` go: each to the worker that its route names.
use Prim.Native.Nat.{bit_or}
mod ByIngress
mod ByWorker
mod ByDispatcher
pub mod Dispatch
use laboratory.Base.{
  ℕ, zero, suc, ◌+◌, ◌%◌, ◌<◌, ◌≡◌, refl, sym, ap, subst, Bool, true, false, ◌&&◌, ◌||◌, List, [],
  ◌∷◌, ◌++◌, Option, some, none, Option-cases, Bool-cases, inl, inr, get_elem?, set, All, ltb,
  arith, replicate, if◌then◌else◌,
}
use laboratory.Base.Int.{ℤ, pos, leb_ℤ}
use laboratory.Queue.{Event, bump}
use laboratory.Pipeline.Stats.{is_measured}
use laboratory.Pipeline.Channel.{
  Channel, push_call, pop_look, pop_flags, Popped, got, ended, found_empty, again, close,
}
use laboratory.Pipeline.Run.{
  Plan, Wiring, Ingress, IngressPc, starting, head, checked, Worker, WorkerPc, DispatcherPc, MainPc,
  sleeping, joining_ingress, joining_dispatcher, joining_workers, finished, State, Reading, Ending,
  stopping, closing, done, end_step,
}
use laboratory.Pipeline.Run.IngressLoop
use laboratory.Pipeline.Run.IngressLoop.{
  ingress_step, fire, fire_or_wait, push_event, make_event, count_push,
}
use laboratory.Pipeline.Run.Topologies.{dispatch_wiring}
use laboratory.Pipeline.Run.Rule.{After, IsKept}

-- A predicate at every entry, which knows the entry's place.
abbrev pub AllAt : {A : Type 0} → (ℕ → A → Type 0) → List A → Type 0
AllAt P [] = Unit
AllAt P (x ∷ xs) = P 0 x × AllAt (λ k. P (suc k)) xs

pub AllAt-get_elem? :
    {A : Type 0} (P : ℕ → A → Type 0) (xs : List A) (i : ℕ) {x : A}
    → AllAt P xs
    → get_elem? xs i ≡ some x
    → P i x
AllAt-get_elem? P [] i h e = cc
AllAt-get_elem? P (y ∷ ys) zero h e = subst (P 0) (cc) h.0
AllAt-get_elem? P (y ∷ ys) (suc i) h e = AllAt-get_elem? (λ k. P (suc k)) ys i h.1 e

pub AllAt-set :
    {A : Type 0} (P : ℕ → A → Type 0) (xs : List A) (i : ℕ) (v : A)
    → AllAt P xs
    → P i v
    → AllAt P (set xs i v)
AllAt-set P [] i v h p = h
AllAt-set P (y ∷ ys) zero v h p = (p, h.1)
AllAt-set P (y ∷ ys) (suc i) v h p = (h.0, AllAt-set (λ k. P (suc k)) ys i v h.1 p)

module _ (n : ℕ) where
  -- An event of the dispatch queue names its worker; an event of a worker's queue is the worker's.
  abbrev pub Belongs : ℕ → Event → Type 0
  Belongs zero ev = ev.target_worker ≡ ev.route_key % n
  Belongs (suc k) ev = ev.route_key % n ≡ k

  abbrev pub AtIngress : IngressPc → Type 0
  AtIngress (IngressPc.pushing ev m) = Belongs 0 ev
  AtIngress pc = Unit

  abbrev pub AtWorker : ℕ → WorkerPc → Type 0
  AtWorker i (WorkerPc.working ev) = Belongs (suc i) ev
  AtWorker i pc = Unit

  abbrev pub AtDispatcher : DispatcherPc → Type 0
  AtDispatcher (DispatcherPc.pushing ev m) = Belongs 0 ev
  AtDispatcher pc = Unit

  abbrev pub QueueBelongs : ℕ → Channel → Type 0
  QueueBelongs q c = All (Belongs q) c.waiting

  pub record IsRouted (s : State) : Type 0 where
    pub queues : AllAt QueueBelongs s.queues
    pub ingress : All (λ t. AtIngress t.pc) s.ingress
    pub workers : AllAt (λ i t. AtWorker i t.pc) s.workers
    pub dispatcher : AtDispatcher s.dispatcher

  All-append_one :
      (P : Event → Type 0) (xs : List Event) (ev : Event) → All P xs → P ev → All P (xs ++ ev ∷ [])
  All-append_one P [] ev h p = (p, tt)
  All-append_one P (x ∷ xs) ev h p = (h.0, All-append_one P xs ev h.1 p)

  -- A push puts the event in the queue or leaves the queue as it is.
  pub push_call-Belongs :
      (p : Plan) (stop : Bool) (q : ℕ) (c : Channel) (ev : Event) (want : Bool) (c' : Channel)
      (pushed : Bool)
      → QueueBelongs q c
      → Belongs q ev
      → push_call p.policy stop c ev want ≡ some (c', pushed)
      → QueueBelongs q c'
  unfolding push_call
  push_call-Belongs p stop q c ev true c' pushed h b e =
      let longer : c.waiting ++ ev ∷ [] ≡ c'.waiting = ground arith in
      subst (All (Belongs q)) longer (All-append_one (Belongs q) c.waiting ev h b)
  push_call-Belongs p stop q c ev false c' pushed h b e =
      let same : c.waiting ≡ c'.waiting = ground arith in subst (All (Belongs q)) same h

  pub pop_look-Belongs :
      (stop ready : Bool) (q : ℕ) (c : Channel) (xs : List Event) (ev : Event) (c' : Channel)
      → All (Belongs q) xs
      → pop_look stop ready c xs ≡ got ev c'
      → Belongs q ev × QueueBelongs q c'
  unfolding pop_look
  pop_look-Belongs stop ready q c [] ev c' h e = absurd (ground arith)
  pop_look-Belongs stop ready q c (x ∷ xs) ev c' h e =
      let first : x ≡ ev = ground arith in
      let rest : xs ≡ c'.waiting = ground arith in
      (subst (Belongs q) first h.0, subst (All (Belongs q)) rest h.1)

  -- The ends of the threads and the main thread only close queues.
  pub queue_closes :
      (qs : List Channel) (k : ℕ) (c : Channel)
      → AllAt QueueBelongs qs
      → get_elem? qs k ≡ some c
      → AllAt QueueBelongs (set qs k (close c))
  queue_closes qs k c h e =
      AllAt-set QueueBelongs qs k (close c) h (AllAt-get_elem? QueueBelongs qs k h e)

  abbrev pub Elsewhere : State → State → Type 0
  Elsewhere s t = (t.ingress ≡ s.ingress) × (t.workers ≡ s.workers) × (t.dispatcher ≡ s.dispatcher)

  -- A step of a thread's end: what it does to the queues, and that it does nothing else here.
  abbrev pub EndRoutes : State → Option (State × Ending) → Type 0
  EndRoutes s none = Unit
  EndRoutes s (some (t, e)) = AllAt QueueBelongs t.queues × Elsewhere s t

  pub end_routes :
      (first : ℕ) (s : State) (e : Ending)
      → AllAt QueueBelongs s.queues
      → EndRoutes s (end_step first s e)
  unfolding end_step
  end_routes first s stopping h = (h, (refl, refl, refl))
  end_routes first s (closing k) h = elim (Option-cases (get_elem? s.queues k)) [
    | inl x ↦ rw (x, end_step) (h, (refl, refl, refl))
    | inr (c, x) ↦ rw (x, end_step) (queue_closes s.queues k c h x, (refl, refl, refl))
  ]
  end_routes first s done h = tt
