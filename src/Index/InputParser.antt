-- ===== src/Index/InputParser.antt =====
-- index_file, InputParser.cpp. A text is the list of its characters' codes.
pub mod Printed
use laboratory.Base.{
  ℕ, zero, suc, ◌+◌, ◌-◌, ◌/◌, ◌%◌, ◌<◌, Bool, ltb, ◌==◌, if◌then◌else◌, List, [], ◌∷◌, ◌++◌,
  Option, none, some, Result, ok, err, ◌>>=◌, Error,
}
use laboratory.Base.Int.{ℤ}
use laboratory.Base.Numbers.{stoi_codes}
use laboratory.Index.{Entry, of_ℤ, two_32, is_negative}

-- `find` and the two `substr` around what it found.
unfoldable pub cut_at : ℕ → List ℕ → Option (List ℕ × List ℕ)
cut_at delimiter [] = none
cut_at delimiter (c ∷ cs) =
    let later : Option (List ℕ × List ℕ) = elim (cut_at delimiter cs) [
      | none ↦ none
      | some parts ↦ some (c ∷ parts.0, parts.1)
    ] in
    if c == delimiter then some ([], cs) else later

unfoldable pub parse_pair : ℕ → Error → List ℕ → Result (ℕ × ℕ)
unfolding cut_at
parse_pair delimiter error line = elim (cut_at delimiter line) [
  | none ↦ err error
  | some parts ↦
      stoi_codes parts.0 >>= λ left. stoi_codes parts.1 >>= λ right. ok (of_ℤ left, of_ℤ right)
]

unfoldable pub parse_entry : List ℕ → Result Entry
unfolding parse_pair
parse_entry line =
    parse_pair b'|' Error.bad_entry line >>= λ pair. ok (record { key = pair.0; value = pair.1 })

unfoldable pub parse_search_key : List ℕ → Result ℕ
parse_search_key [] = ok 0
parse_search_key (c ∷ cs) = stoi_codes (c ∷ cs) >>= λ key. ok (of_ℤ key)

unfoldable pub parse_range : List ℕ → Result (ℕ × ℕ)
unfolding parse_pair
parse_range line = parse_pair b'-' Error.bad_range line

-- `<<` of an `int`. Its digits are at most as many as the fuel.
unfoldable pub show_digits : ℕ → ℕ → List ℕ
show_digits zero n = []
show_digits (suc fuel) n =
    let front = show_digits fuel (n / 10) in
    if ltb n 10 then (b'0' + n) ∷ [] else front ++ (b'0' + n % 10) ∷ []

unfoldable pub show_int : ℕ → List ℕ
unfolding show_digits
show_int n = if is_negative n then b'-' ∷ show_digits 10 (two_32 - n) else show_digits 10 n

-- `writeCsv`
unfoldable pub write_csv : List ℕ → List ℕ
unfolding show_int
write_csv [] = 10 ∷ []
write_csv (v ∷ []) = show_int v ++ 10 ∷ []
write_csv (v ∷ w ∷ rest) = show_int v ++ b',' ∷ write_csv (w ∷ rest)
