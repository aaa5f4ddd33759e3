-- ===== src/Queue/SplitLock/Chain.antt =====
-- The list of nodes of `SplitLockLinkedQueue` from one node on, and what writing a node does to it.
use laboratory.Base.{
  same, occurs, ℕ, zero, suc, ◌+◌, ◌<◌, ◌≡◌, refl, sym, ap, ap₂, ◌∙◌, arith, List, [], ◌∷◌, ◌++◌,
  length, Option, some, none,
}
use laboratory.Queue.{Event, default_event}
use laboratory.Queue.SplitLock.{Node, update}

abbrev pub next_of : Option Node → Option ℕ
next_of none = none
next_of (some n) = n.next

abbrev pub value_of : Option Node → Option Event
value_of none = none
value_of (some n) = n.value

abbrev pub event_of : Option Event → Event
event_of none = default_event
event_of (some ev) = ev

-- From the node at `a` on, `next` leads through the nodes `bs`, each with a value, to `tail`.
abbrev pub Chain : (ℕ → Option Node) → ℕ → List ℕ → ℕ → Type 0
Chain cell a [] tail = (a ≡ tail) × ((n : Node) × (cell a ≡ some n) × (n.next ≡ none))
Chain cell a (b ∷ bs) tail =
    ((n : Node) × (cell a ≡ some n) × (n.next ≡ some b))
    × ((ev : Event) × (value_of (cell b) ≡ some ev))
    × Chain cell b bs tail

-- The values of the `n` nodes after the one at `a`.
unfoldable pub walk : (ℕ → Option Node) → ℕ → ℕ → List Event
walk cell a zero = []
walk cell a (suc n) = elim (next_of (cell a)) [
  | none ↦ []
  | some b ↦ event_of (value_of (cell b)) ∷ walk cell b n
]

-- The values of these nodes.
pub values : (ℕ → Option Node) → List ℕ → List Event
values cell [] = []
values cell (b ∷ bs) = event_of (value_of (cell b)) ∷ values cell bs

pub length-values : (cell : ℕ → Option Node) (bs : List ℕ) → length (values cell bs) ≡ length bs
unfolding values
length-values cell [] = refl
length-values cell (b ∷ bs) = ap suc (length-values cell bs)

module _ (cell : ℕ → Option Node) where
  pub walk-Chain :
      (a : ℕ) (bs : List ℕ) (tail : ℕ)
      → Chain cell a bs tail
      → walk cell a (length bs) ≡ values cell bs
  unfolding walk values
  walk-Chain a [] tail h = refl
  walk-Chain a (b ∷ bs) tail ((n, at, link), ev, rest) =
      rw (walk, at, link)
        (ap (λ evs. event_of (value_of (cell b)) ∷ evs) (walk-Chain b bs tail rest))

  pub Chain-tail :
      (a : ℕ) (bs : List ℕ) (tail : ℕ)
      → Chain cell a bs tail
      → (n : Node) × (cell tail ≡ some n) × (n.next ≡ none)
  Chain-tail a [] tail (e, (n, at, last)) = (n, ap cell (sym e) ∙ at, last)
  Chain-tail a (b ∷ bs) tail (first, ev, rest) = Chain-tail b bs tail rest

  pub occurs-tail :
      (a : ℕ) (bs : List ℕ) (tail : ℕ) → Chain cell a bs tail → 0 < same tail a + occurs tail bs
  occurs-tail a [] tail (e, last) = ground arith
  occurs-tail a (b ∷ bs) tail (first, ev, rest) = ground (arith, occurs-tail b bs tail rest)

  -- Writing a node that is not in the list leaves the list alone.
  module _ (x : ℕ) (written : Option Node) where
    update_ne : (a : ℕ) → same x a ≡ 0 → update cell x written a ≡ cell a
    update_ne a h = ground arith

    pub values-update :
        (bs : List ℕ) → occurs x bs ≡ 0 → values (update cell x written) bs ≡ values cell bs
    unfolding values
    values-update [] h = refl
    values-update (b ∷ bs) h =
        ap₂ (λ n evs. event_of (value_of n) ∷ evs) (update_ne b (omega arith))
          (values-update bs (omega arith))

    pub Chain-update :
        (a : ℕ) (bs : List ℕ) (tail : ℕ)
        → same x a + occurs x bs ≡ 0
        → Chain cell a bs tail
        → Chain (update cell x written) a bs tail
    Chain-update a [] tail h (e, (n, at, last)) = (e, (n, update_ne a (omega arith) ∙ at, last))
    Chain-update a (b ∷ bs) tail h ((n, at, link), (ev, v), rest) = (
      (n, update_ne a (omega arith) ∙ at, link),
      (ev, ap value_of (update_ne b (omega arith)) ∙ v),
      Chain-update b bs tail (omega arith) rest,
    )

same-sym : (a b : ℕ) → same a b ≡ same b a
same-sym a b = ground arith

-- Linking writes no value.
value-link :
    (cell : ℕ → Option Node) (tail : ℕ) (last : Node) (next : Option ℕ) (b : ℕ)
    → cell tail ≡ some last
    → value_of (update cell tail (some (record last { next = next })) b) ≡ value_of (cell b)
value-link cell tail last next b is = ground arith

module _ (cell : ℕ → Option Node) (node : ℕ) (ev : Event)
    (fresh_cell : cell node ≡ some (record { value = some ev; next = none })) where
  module _ (tail : ℕ) (last : Node) (is : cell tail ≡ some last) (other : same node tail ≡ 0) where
    -- The node at `tail` with `next` leading to `node`.
    abbrev pub linked : ℕ → Option Node
    linked = update cell tail (some (record last { next = some node }))

    linked-node : linked node ≡ some (record { value = some ev; next = none })
    linked-node = update_ne cell tail _ node (same-sym tail node ∙ other) ∙ fresh_cell

    linked-tail : linked tail ≡ some (record last { next = some node })
    linked-tail = ground arith

    -- Linking a node behind the last one lengthens the list by it.
    pub Chain-link :
        (a : ℕ) (bs : List ℕ)
        → Chain cell a bs tail
        → same tail a + occurs tail bs ≡ 1
        → Chain linked a (bs ++ node ∷ []) node
    Chain-link a [] (e, (n, at, none_next)) once = (
      (record last { next = some node }, ap linked e ∙ linked-tail, refl),
      (ev, ap value_of linked-node),
      (refl, (record { value = some ev; next = none }, linked-node, refl)),
    )
    Chain-link a (b ∷ bs) ((n, at, link), (ev', v), rest) once = (
      (n, update_ne cell tail _ a (omega (arith, occurs-tail cell b bs tail rest)) ∙ at, link),
      (ev', value-link cell tail last (some node) b is ∙ v),
      Chain-link b bs rest (omega (arith, occurs-tail cell b bs tail rest)),
    )

    pub values-link : (bs : List ℕ) → values linked (bs ++ node ∷ []) ≡ values cell bs ++ ev ∷ []
    unfolding values
    values-link [] = ap (λ n. event_of (value_of n) ∷ []) linked-node
    values-link (b ∷ bs) =
        ap₂ (λ m evs. event_of m ∷ evs) (value-link cell tail last (some node) b is)
          (values-link bs)

-- Writing a node outside the list leaves its values alone.
pub walk-update :
    (cell : ℕ → Option Node) (x : ℕ) (written : Option Node) (a : ℕ) (bs : List ℕ) (tail : ℕ)
    → same x a + occurs x bs ≡ 0
    → Chain cell a bs tail
    → walk (update cell x written) a (length bs) ≡ walk cell a (length bs)
walk-update cell x written a bs tail apart chain =
    walk-Chain (update cell x written) a bs tail (Chain-update cell x written a bs tail apart chain)
    ∙ values-update cell x written bs (omega arith)
    ∙ sym (walk-Chain cell a bs tail chain)

-- Linking a node puts its value behind the others.
pub walk-link :
    (cell : ℕ → Option Node) (node : ℕ) (ev : Event)
    (fresh_cell : cell node ≡ some (record { value = some ev; next = none })) (tail : ℕ)
    (last : Node) (is : cell tail ≡ some last) (other : same node tail ≡ 0) (a : ℕ) (bs : List ℕ)
    → Chain cell a bs tail
    → same tail a + occurs tail bs ≡ 1
    → walk (linked cell node ev fresh_cell tail last is other) a (length (bs ++ node ∷ []))
      ≡ walk cell a (length bs) ++ ev ∷ []
walk-link cell node ev fresh_cell tail last is other a bs chain once =
    walk-Chain _ a (bs ++ node ∷ []) node
      (Chain-link cell node ev fresh_cell tail last is other a bs chain once)
    ∙ values-link cell node ev fresh_cell tail last is other bs
    ∙ ap (λ evs. evs ++ ev ∷ []) (sym (walk-Chain cell a bs tail chain))

-- The first value.
pub walk-first :
    (cell : ℕ → Option Node) (a b n : ℕ) (first : Node) (ev : Event)
    → cell a ≡ some first
    → first.next ≡ some b
    → value_of (cell b) ≡ some ev
    → walk cell a (suc n) ≡ ev ∷ walk cell b n
unfolding walk
walk-first cell a b n first ev is to value = rw (walk, is, to, value)
