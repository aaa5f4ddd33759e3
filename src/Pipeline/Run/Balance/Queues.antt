-- ===== src/Pipeline/Run/Balance/Queues.antt =====
-- What the calls of a queue do to the events in it.
use laboratory.Base.{
  ℕ, zero, suc, ◌+◌, ◌≡◌, ◌∙◌, Bool, true, false, List, [], ◌∷◌, some, All-set, All-get_elem?, ap,
  get_elem?, set, total, total-set, total-append, if◌then◌else◌, arith,
}
use laboratory.Base.Int.{ℤ}
use laboratory.Queue.{Event, BackpressurePolicy}
use laboratory.Pipeline.Channel.{Channel, push_call, is_drop, got, pop_look, close}
use laboratory.Pipeline.Run.Balance.{weight, queued, LanesOpen, IsOpen}

-- The event is in the queue if the push returns true; else the queue is as it was, and a queue that
-- is open, with the stop flag not set, refuses under `Drop` only.
pub record Pushed (start : ℤ) (policy : BackpressurePolicy) (stop : Bool) (c : Channel) (ev : Event)
    (c' : Channel) (ok : Bool) : Type 0 where
  pub same_flag : c'.closed ≡ c.closed
  pub adds : queued start c' ≡ queued start c + (if ok then weight start ev else 0)
  pub refused : ok ≡ false → c.closed ≡ false → stop ≡ false → is_drop policy ≡ true

pub push_call-Pushed :
    (start : ℤ) (policy : BackpressurePolicy) (stop : Bool) (c : Channel) (ev : Event) (want : Bool)
    {c' : Channel} {ok : Bool}
    → push_call policy stop c ev want ≡ some (c', ok)
    → Pushed start policy stop c ev c' ok
unfolding push_call total
push_call-Pushed start policy stop c ev true h =
    ground (arith, total-append (weight start) c.waiting (ev ∷ []))
push_call-Pushed start policy stop c ev false h = ground arith

-- A pop that takes an event takes the oldest one.
pub pop_look-got :
    (start : ℤ) (stop ready : Bool) (c : Channel) (xs : List Event) {ev : Event} {c' : Channel}
    → c.waiting ≡ xs
    → pop_look stop ready c xs ≡ got ev c'
    → (c'.closed ≡ c.closed) × (queued start c ≡ weight start ev + queued start c')
unfolding pop_look total
pop_look-got start stop ready c [] e h = ground arith
pop_look-got start stop ready c (x ∷ xs) e h = ground (arith, ap (total (weight start)) e)

pub LanesOpen-set :
    (qs : List Channel) (q : ℕ) {c : Channel} (c' : Channel)
    → LanesOpen qs
    → get_elem? qs q ≡ some c
    → c'.closed ≡ c.closed
    → LanesOpen (set qs q c')
LanesOpen-set [] q c' h e f = h
LanesOpen-set (x ∷ xs) zero c' h e f = h
LanesOpen-set (x ∷ xs) (suc q) c' h e f =
    All-set IsOpen xs q c' h (f ∙ All-get_elem? IsOpen xs q h e)

pub lane-IsOpen :
    (qs : List Channel) (k : ℕ) {c : Channel}
    → LanesOpen qs
    → get_elem? qs (suc k) ≡ some c
    → c.closed ≡ false
lane-IsOpen [] k h e = absurd (ground arith)
lane-IsOpen (x ∷ xs) k h e = All-get_elem? IsOpen xs k h e

pub queued-close :
    (start : ℤ) (qs : List Channel) (k : ℕ) (c : Channel)
    → get_elem? qs k ≡ some c
    → total (queued start) (set qs k (close c)) ≡ total (queued start) qs
queued-close start qs k c h = omega (arith, total-set (queued start) qs k c (close c) h)
