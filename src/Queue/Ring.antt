-- ===== src/Queue/Ring.antt =====
-- queues.cpp: the circular buffer of `MpmcRingQueue` and `SpscRingQueue`.
use laboratory.Base.{
  ℕ, zero, suc, ◌+◌, ◌-◌, ◌%◌, ◌≤◌, ◌<◌, ◌≡◌, refl, sym, ap, ap₂, ◌∙◌, ◌≢◌, List, [], ◌∷◌, ◌++◌,
  arith, ltb, ◌==◌, if◌then◌else◌, length, get_or, set, get_or-set_self, get_or-set_ne,
}
use laboratory.Queue.{Event, default_event, two_64}

-- `nextIndex`, the same in both classes, with the wrap-around of `std::size_t`.
abbrev pub next_index : ℕ → ℕ → ℕ
next_index ring_capacity idx = let i = (idx + 1) % two_64 in if i == ring_capacity then 0 else i

-- The index `k` places after `h`.
abbrev pub slot : ℕ → ℕ → ℕ → ℕ
slot ring_capacity h k = if ltb (h + k) ring_capacity then h + k else h + k - ring_capacity

module _ (buffer : List Event) (ring_capacity : ℕ) where
  -- The `n` events from index `h` on, going round at the end.
  abbrev pub window : ℕ → ℕ → List Event
  window h zero = []
  window h (suc n) = get_or buffer h default_event ∷ window (next_index ring_capacity h) n

  pub length-window : (h n : ℕ) → length (window h n) ≡ n
  length-window h zero = refl
  length-window h (suc n) = ap suc (length-window (next_index ring_capacity h) n)

  pub window_pos :
      (h n : ℕ)
      → 0 < n
      → window h n ≡ get_or buffer h default_event ∷ window (next_index ring_capacity h) (n - 1)
  window_pos h zero p = absurd (omega arith)
  window_pos h (suc n) p = ap (λ k. window h (suc k)) (omega arith)

pub next_index-slot :
    (c h k : ℕ) → c < two_64 → h < c → k < c → next_index c (slot c h k) ≡ slot c h (k + 1)
next_index-slot c h k s p q = ground arith

pub slot-next_index :
    (c h k : ℕ) → c < two_64 → h < c → k < c → slot c (next_index c h) k ≡ slot c h (suc k)
slot-next_index c h k s p q = ground arith

pub slot-lt : (c h k : ℕ) → h < c → k ≤ c → slot c h k < c
slot-lt c h k p q = ground arith

pub slot-ne : (c h k : ℕ) → h < c → suc k < c → slot c h (suc k) ≢ h
slot-ne c h k p q e = ground arith

pub next_index-lt : (c h : ℕ) → c < two_64 → h < c → next_index c h < c
next_index-lt c h s p = ground arith

-- Writing just past a window leaves it alone.
pub window-set_out :
    (buffer : List Event) (c : ℕ) (ev : Event) (n h : ℕ)
    → c < two_64
    → h < c
    → n < c
    → window (set buffer (slot c h n) ev) c h n ≡ window buffer c h n
window-set_out buffer c ev zero h s p q = refl
window-set_out buffer c ev (suc n) h s p q =
    ap₂ ◌∷◌ (get_or-set_ne buffer ev default_event (slot-ne c h n p q)) (
      ap (λ i. window (set buffer i ev) c (next_index c h) n)
        (sym (slot-next_index c h n s p (omega arith)))
      ∙ window-set_out buffer c ev n (next_index c h) s (next_index-lt c h s p) (omega arith))

-- A window that is longer by one ends with the cell just past the shorter one.
pub window_snoc :
    (buffer : List Event) (c n h : ℕ)
    → c < two_64
    → h < c
    → n < c
    → window buffer c h (suc n)
      ≡ window buffer c h n ++ (get_or buffer (slot c h n) default_event ∷ [])
window_snoc buffer c zero h s p q = let e : slot c h 0 ≡ h = ground arith in rw e
window_snoc buffer c (suc n) h s p q =
    ap (λ evs. get_or buffer h default_event ∷ evs)
      (window_snoc buffer c n (next_index c h) s (next_index-lt c h s p) (omega arith)
        ∙ ap (λ i. window buffer c (next_index c h) n ++ (get_or buffer i default_event ∷ []))
            (slot-next_index c h n s p (omega arith)))

-- Writing just past a window extends it by that event.
pub window-set :
    (buffer : List Event) (c : ℕ) (ev : Event) (n h : ℕ)
    → c ≤ length buffer
    → c < two_64
    → h < c
    → n < c
    → window (set buffer (slot c h n) ev) c h (suc n) ≡ window buffer c h n ++ (ev ∷ [])
window-set buffer c ev n h b s p q =
    window_snoc (set buffer (slot c h n) ev) c n h s p q
    ∙ ap₂ (λ evs x. evs ++ (x ∷ [])) (window-set_out buffer c ev n h s p q)
        (get_or-set_self buffer (slot c h n) ev default_event
          (let i : slot c h n < c = slot-lt c h n p (omega arith) in omega arith))
