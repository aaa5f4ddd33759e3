-- ===== src/Index/InputParser/Printed.antt =====
-- What `<<` prints of an `int`, the parsers read back.
use laboratory.Base.{
  ℕ, zero, suc, ◌+◌, ◌-◌, ◌*◌, ◌/◌, ◌%◌, ◌≤◌, ◌<◌, ◌≡◌, ◌≢◌, refl, sym, ap, subst, ◌∙◌, arith, true,
  false, inl, inr, ltb, List, [], ◌∷◌, ◌++◌, some, ok, Bool-cases,
}
use laboratory.Base.Int.{ℤ, pos, negsuc}
use laboratory.Base.Numbers.{digits_from, unsigned, signed, skip_space, negate, stoi_codes}
use laboratory.Index.{of_ℤ, two_31, two_32, is_negative}
use laboratory.Index.InputParser.{
  cut_at, parse_pair, parse_entry, parse_search_key, show_digits, show_int,
}

-- All of them are digits.
abbrev Digits : List ℕ → Type 0
Digits [] = Unit {0}
Digits (c ∷ cs) = (b'0' ≤ c) × (c ≤ b'9') × Digits cs

Digits-append : (xs ys : List ℕ) → Digits xs → Digits ys → Digits (xs ++ ys)
Digits-append [] ys left right = right
Digits-append (x ∷ xs) ys (low, high, left) right = (low, high, Digits-append xs ys left right)

digits_from-append :
    (acc : ℕ) (xs ys : List ℕ)
    → Digits xs
    → digits_from acc (xs ++ ys) ≡ digits_from (digits_from acc xs) ys
unfolding digits_from
digits_from-append acc [] ys good = refl
digits_from-append acc (x ∷ xs) ys (low, high, good) =
    ground (arith, digits_from-append (acc * 10 + (x - b'0')) xs ys good)

show_digits-Digits : (fuel n : ℕ) → Digits (show_digits fuel n)
unfolding show_digits
show_digits-Digits zero n = tt
show_digits-Digits (suc fuel) n = elim (Bool-cases (ltb n 10)) [
  | inl small ↦ rw small (omega arith, ground (arith, small), tt)
  | inr large ↦ rw large (
      Digits-append (show_digits fuel (n / 10)) ((b'0' + n % 10) ∷ [])
        (show_digits-Digits fuel (n / 10)) (omega arith, omega arith, tt))
]

-- Numbers with at most so many digits are below this.
bound : ℕ → ℕ
bound zero = 1
bound (suc fuel) = bound fuel * 10

digits_from-show_digits : (fuel n : ℕ) → n < bound fuel → digits_from 0 (show_digits fuel n) ≡ n
unfolding digits_from show_digits bound
digits_from-show_digits zero n h = omega arith
digits_from-show_digits (suc fuel) n h = elim (Bool-cases (ltb n 10)) [
  | inl small ↦ ground (arith, small)
  | inr large ↦
      let front = show_digits fuel (n / 10) in
      rw large (
        digits_from-append 0 front ((b'0' + n % 10) ∷ []) (show_digits-Digits fuel (n / 10))
        ∙ ap (λ acc. digits_from acc ((b'0' + n % 10) ∷ []))
            (digits_from-show_digits fuel (n / 10) (omega arith))
        ∙ last_digit)
]
  where
    last_digit : digits_from (n / 10) ((b'0' + n % 10) ∷ []) ≡ n
    last_digit = ground arith

show_digits-cons : (fuel n : ℕ) → (c : ℕ) × (cs : List ℕ) × (show_digits (suc fuel) n ≡ c ∷ cs)
unfolding show_digits
show_digits-cons zero n = elim (Bool-cases (ltb n 10)) [
  | inl small ↦ (b'0' + n, [], rw small refl)
  | inr large ↦ (b'0' + n % 10, [], rw large refl)
]
show_digits-cons (suc fuel) n = elim (Bool-cases (ltb n 10)) [
  | inl small ↦ (b'0' + n, [], rw (show_digits, small) refl)
  | inr large ↦
      let (c, cs, same) = show_digits-cons fuel (n / 10) in
      (
        c,
        cs ++ (b'0' + n % 10) ∷ [],
        rw (show_digits, large) (ap (λ l. l ++ (b'0' + n % 10) ∷ []) same),
      )
]

-- A number without a sign is read up to its end.
unsigned_lem :
    (c : ℕ) (cs : List ℕ) → Digits (c ∷ cs) → unsigned (c ∷ cs) ≡ ok (digits_from 0 (c ∷ cs))
unfolding unsigned digits_from
unsigned_lem c cs (low, high, good) = ground arith

signed_plain :
    (c : ℕ) (cs : List ℕ)
    → Digits (c ∷ cs)
    → signed (skip_space (c ∷ cs)) ≡ ok (false, digits_from 0 (c ∷ cs))
unfolding signed skip_space
signed_plain c cs (low, high, good) = ground (arith, unsigned_lem c cs (low, high, good))

signed_minus :
    (c : ℕ) (cs : List ℕ)
    → Digits (c ∷ cs)
    → signed (skip_space (b'-' ∷ c ∷ cs)) ≡ ok (true, digits_from 0 (c ∷ cs))
unfolding signed skip_space
signed_minus c cs good = ground (arith, unsigned_lem c cs good)

stoi_plus :
    (cs : List ℕ) (n : ℕ)
    → signed (skip_space cs) ≡ ok (false, n)
    → n < two_31
    → stoi_codes cs ≡ ok (pos n)
unfolding stoi_codes
stoi_plus cs n h small = rw (stoi_codes, h) (ground (arith, small))

stoi_minus :
    (cs : List ℕ) (n : ℕ)
    → signed (skip_space cs) ≡ ok (true, suc n)
    → suc n ≤ two_31
    → stoi_codes cs ≡ ok (negsuc n)
unfolding stoi_codes negate
stoi_minus cs n h small = rw (stoi_codes, h) (ground (arith, small))

-- An `int` that is printed is read back.
pub stoi_codes-show_int :
    (n : ℕ) → n < two_32 → (z : ℤ) × (stoi_codes (show_int n) ≡ ok z) × (of_ℤ z ≡ n)
unfolding show_int bound
stoi_codes-show_int n h = elim (Bool-cases (is_negative n)) [
  | inl minus ↦
      let large : two_31 ≤ n = ground (arith, minus) in
      let m = two_32 - n in
      let (c, cs, same) = show_digits-cons 9 m in
      let good = subst Digits same (show_digits-Digits 10 m) in
      let value : digits_from 0 (c ∷ cs) ≡ suc (m - 1) =
        ap (digits_from 0) (sym same)
        ∙ digits_from-show_digits 10 m (small m (omega arith))
        ∙ omega (arith, large) in
      (
        negsuc (m - 1),
        rw (minus, same)
            (stoi_minus (b'-' ∷ c ∷ cs) (m - 1)
              (signed_minus c cs good ∙ ap (λ k. ok (true, k)) value) (omega (arith, large))),
        ground (arith, minus),
      )
  | inr plus ↦
      let (c, cs, same) = show_digits-cons 9 n in
      let good = subst Digits same (show_digits-Digits 10 n) in
      let value : digits_from 0 (c ∷ cs) ≡ n =
        ap (digits_from 0) (sym same) ∙ digits_from-show_digits 10 n (small n h) in
      (
        pos n,
        rw (plus, same)
            (stoi_plus (c ∷ cs) n (signed_plain c cs good ∙ ap (λ k. ok (false, k)) value)
              (ground (arith, plus))),
        ground (arith, plus),
      )
]
  where
    small : (m : ℕ) → m < two_32 → m < bound 10
    small m h = omega arith

-- A character that is not the delimiter stays left of it.
abbrev Without : ℕ → List ℕ → Type 0
Without delimiter [] = Unit {0}
Without delimiter (c ∷ cs) = (c ≢ delimiter) × Without delimiter cs

cut_at_lem :
    (delimiter : ℕ) (xs ys : List ℕ)
    → Without delimiter xs
    → cut_at delimiter (xs ++ delimiter ∷ ys) ≡ some (xs, ys)
unfolding cut_at
cut_at_lem delimiter [] ys free = ground arith
cut_at_lem delimiter (x ∷ xs) ys (ne, free) = ground (arith, cut_at_lem delimiter xs ys free)

Digits-Without : (xs : List ℕ) → Digits xs → Without b'|' xs
Digits-Without [] good = tt
Digits-Without (x ∷ xs) (low, high, good) = (λ same. omega arith, Digits-Without xs good)

show_int-Without : (n : ℕ) → Without b'|' (show_int n)
unfolding show_int
show_int-Without n = elim (Bool-cases (is_negative n)) [
  | inl minus ↦ rw minus (
    λ same. omega arith,
    Digits-Without (show_digits 10 (two_32 - n)) (show_digits-Digits 10 (two_32 - n)),
  )
  | inr plus ↦ rw plus (Digits-Without (show_digits 10 n) (show_digits-Digits 10 n))
]

-- An entry of `int` values that is printed as `key|value`, as a search prints what it found, is
-- parsed back.
pub parse_entry-show_int :
    (key value : ℕ)
    → key < two_32
    → value < two_32
    → parse_entry (show_int key ++ b'|' ∷ show_int value) ≡ ok (record { key = key; value = value })
unfolding parse_entry parse_pair
parse_entry-show_int key value key_small value_small =
    let (left, left_read, left_same) = stoi_codes-show_int key key_small in
    let (right, right_read, right_same) = stoi_codes-show_int value value_small in
    ground (
      arith,
      cut_at_lem b'|' (show_int key) (show_int value) (show_int-Without key),
      left_read,
      right_read,
      left_same,
      right_same,
    )

-- A printed number is not an empty text.
pub show_int-cons : (n : ℕ) → (c : ℕ) × (cs : List ℕ) × (show_int n ≡ c ∷ cs)
unfolding show_int
show_int-cons n = elim (Bool-cases (is_negative n)) [
  | inl minus ↦ (b'-', show_digits 10 (two_32 - n), rw minus refl)
  | inr plus ↦ rw plus (show_digits-cons 9 n)
]

-- A printed search key is parsed back.
pub parse_search_key-show_int : (key : ℕ) → key < two_32 → parse_search_key (show_int key) ≡ ok key
unfolding parse_search_key
parse_search_key-show_int key small =
    let (z, read, same) = stoi_codes-show_int key small in
    let (c, cs, shape) = show_int-cons key in
    let read' : stoi_codes (c ∷ cs) ≡ ok z = ap stoi_codes (sym shape) ∙ read in
    ap parse_search_key shape ∙ ground (arith, read', same)
