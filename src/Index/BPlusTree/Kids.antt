-- ===== src/Index/BPlusTree/Kids.antt =====
-- The children of an internal node: a key range for each, what they hold from left to right, which
-- blocks they use, and how the leaves hang together.
use laboratory.Base.{
  occurs, occurs-append, ℕ, suc, ◌+◌, ◌≤◌, ◌<◌, ◌≡◌, refl, sym, ap, subst, ◌∙◌, arith, List, [],
  ◌∷◌, ◌++◌, append_assoc,
}
use laboratory.Index.{Entry, rank}
use laboratory.Index.Order.{Asc, Asc-append}

-- What is said of a subtree: its block, its keys from `lo` on and below `hi`, its entries, its
-- blocks, its first leaf, and the leaf behind it.
abbrev pub Child : Type 1
Child = ℕ → ℕ → ℕ → List Entry → List ℕ → ℕ → ℕ → Type 0

-- A first child and the rest.
pub record Parts : Type 0 where
  pub first_entries : List Entry
  pub other_entries : List Entry
  pub first_ids : List ℕ
  pub other_ids : List ℕ
  pub middle : ℕ

abbrev pub Kids : Child → ℕ → ℕ → List Entry → ℕ → List Entry → List ℕ → ℕ → ℕ → Type 0
Kids P c lo [] hi es ids first next = P c lo hi es ids first next
Kids P c lo (x ∷ xs) hi es ids first next =
    (parts : Parts) × (es ≡ parts.first_entries ++ parts.other_entries)
    × (ids ≡ parts.first_ids ++ parts.other_ids)
    × (lo < rank x.key)
    × (rank x.key < hi)
    × P c lo (rank x.key) parts.first_entries parts.first_ids first parts.middle
    × Kids P x.value (rank x.key) xs hi parts.other_entries parts.other_ids parts.middle next

-- The separators rise.
pub Kids-Asc-separators :
    (P : Child) (c lo : ℕ) (seps : List Entry) (hi : ℕ) (es : List Entry) (ids : List ℕ)
    (first next : ℕ)
    → lo < hi
    → Kids P c lo seps hi es ids first next
    → Asc (suc lo) seps hi
Kids-Asc-separators P c lo [] hi es ids first next h k = omega arith
Kids-Asc-separators P c lo (x ∷ xs) hi es ids first next h (parts, e, i, low, high, here, rest) = (
  omega arith,
  high,
  Kids-Asc-separators P x.value (rank x.key) xs hi parts.other_entries parts.other_ids parts.middle
      next high rest,
)

-- The entries rise if those of each child do.
pub Kids-Asc :
    (P : Child)
    → ((c lo hi : ℕ) (es : List Entry) (ids : List ℕ) (first next : ℕ)
        → P c lo hi es ids first next
        → Asc lo es hi)
    → (c lo : ℕ) (seps : List Entry) (hi : ℕ) (es : List Entry) (ids : List ℕ) (first next : ℕ)
    → Kids P c lo seps hi es ids first next
    → Asc lo es hi
Kids-Asc P each c lo [] hi es ids first next k = each c lo hi es ids first next k
Kids-Asc P each c lo (x ∷ xs) hi es ids first next (parts, e, i, low, high, here, rest) =
    subst (λ l. Asc lo l hi) (sym e)
      (Asc-append lo (rank x.key) hi parts.first_entries parts.other_entries
        (each c lo (rank x.key) parts.first_entries parts.first_ids first parts.middle here)
        (Kids-Asc P each x.value (rank x.key) xs hi parts.other_entries parts.other_ids parts.middle
          next rest))

-- No block is used here that is not used there.
abbrev pub Within : List ℕ → List ℕ → Type 0
Within ids all = (a : ℕ) → occurs a ids ≤ occurs a all

-- Another view of each child gives another view of them all.
pub Kids-map :
    (P Q : Child) (all : List ℕ)
    → ((c lo hi : ℕ) (es : List Entry) (ids : List ℕ) (first next : ℕ)
        → Within ids all
        → P c lo hi es ids first next
        → Q c lo hi es ids first next)
    → (c lo : ℕ) (seps : List Entry) (hi : ℕ) (es : List Entry) (ids : List ℕ) (first next : ℕ)
    → Within ids all
    → Kids P c lo seps hi es ids first next
    → Kids Q c lo seps hi es ids first next
Kids-map P Q all each c lo [] hi es ids first next w k = each c lo hi es ids first next w k
Kids-map P Q all each c lo (x ∷ xs) hi es ids first next w (parts, e, i, low, high, here, rest) =
    let split : (a : ℕ) → occurs a parts.first_ids + occurs a parts.other_ids ≤ occurs a all =
      λ a. omega (arith, occurs-append a parts.first_ids parts.other_ids, ap (occurs a) i, w a) in
    (
      parts,
      e,
      i,
      low,
      high,
      each c lo (rank x.key) parts.first_entries parts.first_ids first parts.middle
          (λ a. omega (arith, split a)) here,
      Kids-map P Q all each x.value (rank x.key) xs hi parts.other_entries parts.other_ids
          parts.middle next (λ a. omega (arith, split a)) rest,
    )

-- Cut before a separator, whose child becomes the first one on the right.
pub Kids-cut :
    (P : Child) (c lo : ℕ) (xs : List Entry) (x : Entry) (ys : List Entry) (hi : ℕ)
    (es : List Entry) (ids : List ℕ) (first next : ℕ)
    → Kids P c lo (xs ++ x ∷ ys) hi es ids first next
    → (parts : Parts) × (es ≡ parts.first_entries ++ parts.other_entries)
      × (ids ≡ parts.first_ids ++ parts.other_ids)
      × (lo < rank x.key)
      × (rank x.key < hi)
      × Kids P c lo xs (rank x.key) parts.first_entries parts.first_ids first parts.middle
      × Kids P x.value (rank x.key) ys hi parts.other_entries parts.other_ids parts.middle next
Kids-cut P c lo [] x ys hi es ids first next k = k
Kids-cut P c lo (y ∷ xs) x ys hi es ids first next (parts, e, i, low, high, here, rest) =
    let (cut, e', i', low', high', left, right) =
      Kids-cut P y.value (rank y.key) xs x ys hi parts.other_entries parts.other_ids parts.middle
        next rest in
    (
      record {
        first_entries = parts.first_entries ++ cut.first_entries;
        other_entries = cut.other_entries;
        first_ids = parts.first_ids ++ cut.first_ids;
        other_ids = cut.other_ids;
        middle = cut.middle;
      },
      e
          ∙ ap (λ l. parts.first_entries ++ l) e'
          ∙ sym (append_assoc parts.first_entries cut.first_entries cut.other_entries),
      i
          ∙ ap (λ l. parts.first_ids ++ l) i'
          ∙ sym (append_assoc parts.first_ids cut.first_ids cut.other_ids),
      omega arith,
      high',
      (
        record {
          first_entries = parts.first_entries;
          other_entries = cut.first_entries;
          first_ids = parts.first_ids;
          other_ids = cut.first_ids;
          middle = parts.middle;
        },
        refl,
        refl,
        low,
        low',
        here,
        left,
      ),
      right,
    )
