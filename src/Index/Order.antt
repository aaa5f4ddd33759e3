-- ===== src/Index/Order.antt =====
-- Lists of entries in the order of their keys, and what sorting and placing do to them.
use laboratory.Base.{
  ℕ, zero, suc, ◌+◌, ◌≤◌, ◌<◌, ◌≡◌, ◌≢◌, refl, sym, ap, ◌∙◌, arith, true, false, inl, inr, ltb,
  List, [], ◌∷◌, ◌++◌, length, get_or, take, drop, Bool-cases,
}
use laboratory.Index.{Entry, rank, two_32, may_precede, place, sort_entries}

-- The keys rise, from `lo` on and below `hi`, in the order of `int`.
abbrev pub Asc : ℕ → List Entry → ℕ → Type 0
Asc lo [] hi = lo ≤ hi
Asc lo (e ∷ es) hi = (lo ≤ rank e.key) × (rank e.key < hi) × Asc (suc (rank e.key)) es hi

-- No key has this rank.
abbrev pub Absent : ℕ → List Entry → Type 0
Absent r [] = Unit {0}
Absent r (e ∷ es) = (rank e.key ≢ r) × Absent r es

-- Entries that can be told from empty places, of `int` values.
abbrev pub Storable : List Entry → Type 0
Storable [] = Unit {0}
Storable (e ∷ es) = (0 < e.key) × (e.key < two_32) × (e.value < two_32) × Storable es

pub Asc-le : (lo hi : ℕ) (es : List Entry) → Asc lo es hi → lo ≤ hi
Asc-le lo hi [] a = a
Asc-le lo hi (e ∷ es) (low, high, a) = omega arith

pub Asc-weaken : (lo' lo hi : ℕ) (es : List Entry) → lo' ≤ lo → Asc lo es hi → Asc lo' es hi
Asc-weaken lo' lo hi [] h a = omega arith
Asc-weaken lo' lo hi (e ∷ es) h (low, high, a) = (omega arith, high, a)

pub Asc-append :
    (lo k hi : ℕ) (xs ys : List Entry) → Asc lo xs k → Asc k ys hi → Asc lo (xs ++ ys) hi
Asc-append lo k hi [] ys a b = Asc-weaken lo k hi ys a b
Asc-append lo k hi (x ∷ xs) ys (low, high, a) b =
    (low, omega (arith, Asc-le k hi ys b), Asc-append (suc (rank x.key)) k hi xs ys a b)

pub Asc-behind : (lo hi : ℕ) (xs ys : List Entry) → Asc lo (xs ++ ys) hi → Asc lo ys hi
Asc-behind lo hi [] ys a = a
Asc-behind lo hi (x ∷ xs) ys (low, high, a) =
    Asc-weaken lo (suc (rank x.key)) hi ys (omega arith) (Asc-behind (suc (rank x.key)) hi xs ys a)

-- A list cut before an entry.
pub Asc-cut :
    (lo hi : ℕ) (xs : List Entry) (y : Entry) (ys : List Entry)
    → Asc lo (xs ++ y ∷ ys) hi
    → Asc lo xs (rank y.key) × (Asc (rank y.key) (y ∷ ys) hi) × (lo + length xs ≤ rank y.key)
Asc-cut lo hi [] y ys (low, high, a) = (low, (omega arith, high, a), omega arith)
Asc-cut lo hi (x ∷ xs) y ys (low, high, a) =
    let (left, right, long) = Asc-cut (suc (rank x.key)) hi xs y ys a in
    ((low, omega arith, left), right, omega arith)

Asc-Absent : (r lo hi : ℕ) (es : List Entry) → r < lo → Asc lo es hi → Absent r es
Asc-Absent r lo hi [] h a = tt
Asc-Absent r lo hi (e ∷ es) h (low, high, a) =
    (λ same. omega arith, Asc-Absent r (suc (rank e.key)) hi es (omega arith) a)

-- Both orders of two entries with different keys.
precedes : (a b : Entry) → rank a.key < rank b.key → may_precede a b ≡ true
precedes a b h = ground arith

follows : (a b : Entry) → rank b.key < rank a.key → may_precede a b ≡ false
follows a b h = ground arith

pub place_first :
    (e : Entry) (es : List Entry) (hi : ℕ) → Asc (suc (rank e.key)) es hi → place e es ≡ e ∷ es
unfolding place
place_first e [] hi a = refl
place_first e (x ∷ xs) hi (low, high, a) = rw (precedes e x (omega arith))

pub place_before :
    (e x : Entry) (xs : List Entry) → rank e.key < rank x.key → place e (x ∷ xs) ≡ e ∷ x ∷ xs
unfolding place
place_before e x xs h = rw (precedes e x h)

pub place_later :
    (e x : Entry) (xs : List Entry) → rank x.key < rank e.key → place e (x ∷ xs) ≡ x ∷ place e xs
unfolding place
place_later e x xs h = rw (follows e x h)

pub place-Asc :
    (lo hi : ℕ) (e : Entry) (es : List Entry)
    → lo ≤ rank e.key
    → rank e.key < hi
    → Absent (rank e.key) es
    → Asc lo es hi
    → Asc lo (place e es) hi
unfolding place
place-Asc lo hi e [] low high absent a = (low, high, omega arith)
place-Asc lo hi e (x ∷ xs) low high (ne, absent) (x_low, x_high, a) =
    elim (Bool-cases (ltb (rank e.key) (rank x.key))) [
      | inl less ↦ rw (precedes e x (ground arith)) (low, high, (ground arith, x_high, a))
      | inr more ↦
          rw (follows e x (ground arith))
            (x_low, x_high, place-Asc (suc (rank x.key)) hi e xs (ground arith) high absent a)
    ]

-- Placing an entry beside a list that is all smaller, or all larger.
pub place_right :
    (lo k : ℕ) (e : Entry) (xs ys : List Entry)
    → k ≤ rank e.key
    → Asc lo xs k
    → place e (xs ++ ys) ≡ xs ++ place e ys
place_right lo k e [] ys h a = refl
place_right lo k e (x ∷ xs) ys h (low, high, a) =
    place_later e x (xs ++ ys) (omega arith)
    ∙ ap (λ l. x ∷ l) (place_right (suc (rank x.key)) k e xs ys h a)

pub place_left :
    (k hi : ℕ) (e : Entry) (xs ys : List Entry)
    → rank e.key < k
    → Asc k ys hi
    → place e (xs ++ ys) ≡ place e xs ++ ys
unfolding place
place_left k hi e [] ys h a =
    place_first e ys hi (Asc-weaken (suc (rank e.key)) k hi ys (omega arith) a)
place_left k hi e (x ∷ xs) ys h a = ground (arith, place_left k hi e xs ys h a)

-- Sorting a sorted list with one entry behind it places the entry.
pub sort_entries-append :
    (lo hi : ℕ) (e : Entry) (es : List Entry)
    → rank e.key < hi
    → Asc lo es hi
    → Absent (rank e.key) es
    → sort_entries (es ++ e ∷ []) ≡ place e es
unfolding sort_entries
sort_entries-append lo hi e [] e_high a absent = refl
sort_entries-append lo hi e (x ∷ xs) e_high (low, high, a) (ne, absent) =
    ap (place x) (sort_entries-append (suc (rank x.key)) hi e xs e_high a absent)
    ∙ elim (Bool-cases (ltb (rank e.key) (rank x.key))) [
      | inl less ↦
          ap (place x) (
            place_first e xs hi
              (Asc-weaken (suc (rank e.key)) (suc (rank x.key)) hi xs (ground arith) a))
          ∙ place_later x e xs (ground arith)
          ∙ ap (λ l. e ∷ l) (place_first x xs hi a)
          ∙ sym (place_first e (x ∷ xs) hi (ground arith, high, a))
      | inr more ↦
          place_first x (place e xs) hi
            (place-Asc (suc (rank x.key)) hi e xs (ground arith) e_high absent a)
          ∙ sym (place_later e x xs (ground arith))
    ]

-- Sorting a sorted list changes nothing.
pub sort_entries_lem : (lo hi : ℕ) (es : List Entry) → Asc lo es hi → sort_entries es ≡ es
unfolding sort_entries
sort_entries_lem lo hi [] a = refl
sort_entries_lem lo hi (x ∷ xs) (low, high, a) =
    ap (place x) (sort_entries_lem (suc (rank x.key)) hi xs a) ∙ place_first x xs hi a

place-Asc-le : (lo hi : ℕ) (e : Entry) (es : List Entry) → Asc lo (place e es) hi → lo ≤ rank e.key
unfolding place
place-Asc-le lo hi e [] a = a.0
place-Asc-le lo hi e (x ∷ xs) a = elim (Bool-cases (may_precede e x)) [
  | inl before ↦ (rw before at a).0
  | inr behind ↦
      let (x_low, x_high, rest) = rw behind at a in
      omega (arith, place-Asc-le (suc (rank x.key)) hi e xs rest)
]

-- What was placed was not there before.
pub place-Asc-Absent :
    (lo hi : ℕ) (e : Entry) (es : List Entry)
    → Asc lo (place e es) hi
    → Asc lo es hi × Absent (rank e.key) es
unfolding place
place-Asc-Absent lo hi e [] a = (omega arith, tt)
place-Asc-Absent lo hi e (x ∷ xs) a = elim (Bool-cases (may_precede e x)) [
  | inl before ↦
      let (low, high, (x_low, x_high, rest)) = rw before at a in
      (
        (omega arith, x_high, rest),
        (λ same. omega arith, Asc-Absent (rank e.key) (suc (rank x.key)) hi xs (omega arith) rest),
      )
  | inr behind ↦
      let (x_low, x_high, rest) = rw behind at a in
      let (rest_Asc, absent) = place-Asc-Absent (suc (rank x.key)) hi e xs rest in
      (
        (x_low, x_high, rest_Asc),
        (λ same. omega (arith, place-Asc-le (suc (rank x.key)) hi e xs rest), absent),
      )
]

pub length-place : (e : Entry) (es : List Entry) → length (place e es) ≡ suc (length es)
unfolding place
length-place e [] = refl
length-place e (x ∷ xs) = ground (arith, length-place e xs)

pub place-Storable :
    (e : Entry) (es : List Entry)
    → 0 < e.key
    → e.key < two_32
    → e.value < two_32
    → Storable es
    → Storable (place e es)
unfolding place
place-Storable e [] pos small value_small good = (pos, small, value_small, tt)
place-Storable e (x ∷ xs) pos small value_small (x_pos, x_small, xv_small, good) =
    ground (arith, place-Storable e xs pos small value_small good)

pub Storable-append : (xs ys : List Entry) → Storable (xs ++ ys) → Storable xs × Storable ys
Storable-append [] ys good = (tt, good)
Storable-append (x ∷ xs) ys (pos, small, value_small, good) =
    let (left, right) = Storable-append xs ys good in ((pos, small, value_small, left), right)

-- A list cut at an index inside it.
pub take-drop :
    (m : ℕ) (es : List Entry) (d : Entry)
    → m < length es
    → (es ≡ take m es ++ get_or es m d ∷ drop (suc m) es)
      × (drop m es ≡ get_or es m d ∷ drop (suc m) es)
      × (length (take m es) ≡ m)
      × (length (drop (suc m) es) + m + 1 ≡ length es)
take-drop m [] d h = absurd (omega arith)
take-drop zero (x ∷ xs) d h = (refl, refl, refl, omega arith)
take-drop (suc m) (x ∷ xs) d h =
    let (whole, right, left_size, right_size) = take-drop m xs d (omega arith) in
    (ap (λ l. x ∷ l) whole, right, ap suc left_size, omega (arith, right_size))

pub Absent-append : (r : ℕ) (xs ys : List Entry) → Absent r (xs ++ ys) → Absent r xs × Absent r ys
Absent-append r [] ys absent = (tt, absent)
Absent-append r (x ∷ xs) ys (ne, absent) =
    let (left, right) = Absent-append r xs ys absent in ((ne, left), right)
