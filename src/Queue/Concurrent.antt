-- ===== src/Queue/Concurrent.antt =====
-- queues.hpp, `IEventQueue`: what any number of threads can do to one queue. Each queue gives the
-- code of its calls as a step function on a program counter; the threads interleave in any order.
use laboratory.Base.{
  ℕ, Bool, ◌≡◌, ◌∙◌, sym, ap, List, [], ◌∷◌, ◌++◌, append-nil, append_assoc, Option, some, none,
  get_elem?, set,
}
use laboratory.Queue.{Event, BackpressurePolicy}

-- The calls of `IEventQueue`.
pub data Op : Type 0 where
  push : Event → BackpressurePolicy → Op
  pop : Op
  close : Op

-- What they return: the result of `push`; the result of `pop` with the event that it stores
-- through `out`; nothing.
pub data Reply : Type 0 where
  pushed : Bool → Reply
  popped : Option Event → Reply
  left_unset : Bool → Reply
  closed_now : Reply

-- What the surroundings settle in one step: the value of the caller's stop flag, and whether a
-- `try_acquire` of a positive semaphore fails spuriously, which the C++ standard allows.
pub record Env : Type 0 where
  pub stop : Bool
  pub spurious : Bool

-- What a step does to the events in the queue.
pub data Label : Type 0 where
  quiet : Label
  enters leaves : Event → Label

abbrev pub entering : Label → List Event
entering (enters ev) = ev ∷ []
entering quiet = []
entering (leaves ev) = []

abbrev pub leaving : Label → List Event
leaving (leaves ev) = ev ∷ []
leaving quiet = []
leaving (enters ev) = []

-- The code of a queue: where a call begins, whether a program counter stands at a return, one
-- step of one thread, and what the step from one counter to the next does to the events.
pub record QueueCode (State Pc : Type 0) : Type 0 where
  pub start : Op → Pc
  pub finished : Pc → Option Reply
  pub micro : Env → State → Pc → State × Pc
  pub label : Pc → Pc → Label

pub record System (State Pc : Type 0) : Type 0 where
  pub shared : State
  pub threads : List Pc

module _ {State Pc : Type 0} (q : QueueCode State Pc) where
  -- One thread makes a step of its call, or one whose call has returned makes another call.
  pub data Step (s : System State Pc) : Label → System State Pc → Type 0 where
    run :
        (e : Env) (i : ℕ) (p : Pc)
        → get_elem? s.threads i ≡ some p
        → Step s (q.label p (q.micro e s.shared p).1) (record {
          shared = (q.micro e s.shared p).0;
          threads = set s.threads i (q.micro e s.shared p).1;
        })
    call :
        (op : Op) (i : ℕ) (p : Pc) (r : Reply)
        → get_elem? s.threads i ≡ some p
        → q.finished p ≡ some r
        → Step s quiet (record { shared = s.shared; threads = set s.threads i (q.start op) })

  -- Reached from `s₀` by some interleaving, with the events that entered and left so far.
  pub data Reach (s₀ : System State Pc) : System State Pc → List Event → List Event → Type 0 where
    here : Reach s₀ s₀ [] []
    next :
        {s t : System State Pc} {l : Label} {ins outs : List Event}
        → Reach s₀ s ins outs
        → Step s l t
        → Reach s₀ t (ins ++ entering l) (outs ++ leaving l)

  -- A call alone: at most `fuel` steps of one thread, none by others between them.
  unfoldable pub solo : ℕ → Env → State → Pc → State × Pc
  solo ℕ.zero e s p = (s, p)
  solo (ℕ.suc fuel) e s p = elim (q.finished p) [
    | some r ↦ (s, p)
    | none ↦ solo fuel e (q.micro e s p).0 (q.micro e s p).1
  ]

  -- The contract of a FIFO queue: an invariant that every step keeps, and a list of the queued
  -- events, oldest first, that a step changes at its two ends only and as its label says.
  pub record IsFifo (Inv : State → List Pc → Type 0) (view : State → List Event) : Type 0 where
    pub run_keeps :
        (e : Env) (s : State) (ps : List Pc) (i : ℕ) (p : Pc)
        → Inv s ps
        → get_elem? ps i ≡ some p
        → Inv (q.micro e s p).0 (set ps i (q.micro e s p).1)
    pub call_keeps :
        (s : State) (ps : List Pc) (i : ℕ) (p : Pc) (r : Reply) (op : Op)
        → Inv s ps
        → get_elem? ps i ≡ some p
        → q.finished p ≡ some r
        → Inv s (set ps i (q.start op))
    pub moves :
        (e : Env) (s : State) (ps : List Pc) (i : ℕ) (p : Pc)
        → Inv s ps
        → get_elem? ps i ≡ some p
        → view s ++ entering (q.label p (q.micro e s p).1)
          ≡ leaving (q.label p (q.micro e s p).1) ++ view (q.micro e s p).0

  -- What every step keeps holds in every state that is reached.
  pub Reach_keeps :
      (P : State → List Pc → Type 0)
      → ((e : Env) (s : State) (ps : List Pc) (i : ℕ) (p : Pc)
          → P s ps
          → get_elem? ps i ≡ some p
          → P (q.micro e s p).0 (set ps i (q.micro e s p).1))
      → ((s : State) (ps : List Pc) (i : ℕ) (p : Pc) (r : Reply) (op : Op)
          → P s ps
          → get_elem? ps i ≡ some p
          → q.finished p ≡ some r
          → P s (set ps i (q.start op)))
      → {s₀ s : System State Pc} {ins outs : List Event} → P s₀.shared s₀.threads
      → Reach s₀ s ins outs
      → P s.shared s.threads
  Reach_keeps P keep_run keep_call h here = h
  Reach_keeps P keep_run keep_call h (next {s} {t} {l} {ins} {outs} r (run e i p at)) =
      keep_run e s.shared s.threads i p (Reach_keeps P keep_run keep_call h r) at
  Reach_keeps P keep_run keep_call h (next {s} {t} {l} {ins} {outs} r (call op i p reply at back)) =
      keep_call s.shared s.threads i p reply op (Reach_keeps P keep_run keep_call h r) at back

  module _ {Inv : State → List Pc → Type 0} {view : State → List Event} (fifo : IsFifo Inv view)
      {s₀ : System State Pc} (start_Inv : Inv s₀.shared s₀.threads)
      (start_view : view s₀.shared ≡ []) where
    Step-view :
        {s t : System State Pc} {l : Label}
        → Step s l t
        → Inv s.shared s.threads
        → view s.shared ++ entering l ≡ leaving l ++ view t.shared
    Step-view {s} (run e i p at) v = fifo.moves e s.shared s.threads i p v at
    Step-view {s} (call op i p r at back) v = append-nil (view s.shared)

    pub Reach-Inv :
        {s : System State Pc} {ins outs : List Event} → Reach s₀ s ins outs → Inv s.shared s.threads
    Reach-Inv = Reach_keeps Inv fifo.run_keeps fifo.call_keeps start_Inv

    -- What went in, in order, is what came out, in order, and then what is queued.
    pub Reach-fifo :
        {s : System State Pc} {ins outs : List Event}
        → Reach s₀ s ins outs
        → ins ≡ outs ++ view s.shared
    Reach-fifo here = sym start_view
    Reach-fifo (next {s} {t} {l} {ins} {outs} r st) =
        ap (λ xs. xs ++ entering l) (Reach-fifo r)
        ∙ append_assoc outs (view s.shared) (entering l)
        ∙ ap (λ xs. outs ++ xs) (Step-view st (Reach-Inv r))
        ∙ sym (append_assoc outs (leaving l) (view t.shared))
