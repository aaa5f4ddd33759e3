-- ===== src/Queue/Schedule.antt =====
-- Reachable states by evaluation: threads of a queue run in a given order.
use laboratory.Base.{ℕ, ◌≡◌, refl, List, [], ◌∷◌, Option, some, none, get_elem?}
use laboratory.Queue.{Event}
use laboratory.Queue.Concurrent.{Op, Reply, Env, System, QueueCode, Reach, here, next, run, call}

module _ {State Pc : Type 0} (q : QueueCode State Pc) (s₀ : System State Pc) where
  pub record Run : Type 0 where
    pub last : System State Pc
    pub ins : List Event
    pub outs : List Event
    pub reach : Reach q s₀ last ins outs

  -- What the schedule says next: a thread makes a call, or makes some steps of the one it is in.
  pub data Turn : Type 0 where
    calls : ℕ → Op → Turn
    steps : ℕ → Env → ℕ → Turn

  -- One step of thread `i`, if there is such a thread.
  step_thread : Env → ℕ → Run → Run
  step_thread e i r = go (get_elem? r.last.threads i) refl
    where
      go : (m : Option Pc) → get_elem? r.last.threads i ≡ m → Run
      go none at = r
      go (some p) at = record { last = _; ins = _; outs = _; reach = next r.reach (run e i p at) }

  -- A call of thread `i`, if it is in none.
  call_thread : Op → ℕ → Run → Run
  call_thread op i r = go (get_elem? r.last.threads i) refl
    where
      back :
          (p : Pc)
          → get_elem? r.last.threads i ≡ some p
          → (m : Option Reply) → q.finished p ≡ m
          → Run
      back p at none no_reply = r
      back p at (some reply) returned = record {
        last = _;
        ins = _;
        outs = _;
        reach = next r.reach (call op i p reply at returned);
      }

      go : (m : Option Pc) → get_elem? r.last.threads i ≡ m → Run
      go none at = r
      go (some p) at = back p at (q.finished p) refl

  repeat : ℕ → (Run → Run) → Run → Run
  repeat ℕ.zero f r = r
  repeat (ℕ.suc n) f r = repeat n f (f r)

  schedule_from : Run → List Turn → Run
  unfolding step_thread call_thread repeat
  schedule_from r [] = r
  schedule_from r (calls i op ∷ ts) = schedule_from (call_thread op i r) ts
  schedule_from r (steps i e n ∷ ts) = schedule_from (repeat n (step_thread e i) r) ts

  unfoldable pub schedule : List Turn → Run
  unfolding schedule_from
  schedule ts = schedule_from (record { last = _; ins = _; outs = _; reach = here }) ts
