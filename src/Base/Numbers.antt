-- ===== src/Base/Numbers.antt =====
-- `std::stoi` and `std::stoull`: leading white space, a sign, digits; what follows is ignored.
use Prim.Native.Nat.{ℕ, zero, suc, ◌+◌, ◌-◌, ◌*◌, ◌^◌}
use Prim.Native.Char.{code}
use Prim.Native.String.{String}
use mathlib.Core.Bool.{Bool, true, false, ◌&&◌, ◌||◌}
use mathlib.Core.List.{List, [], ◌∷◌}
use laboratory.Base.Tests.{ltb, leb, ◌==◌, if◌then◌else◌}
use laboratory.Base.Results.{Result, ok, err, Error}
use laboratory.Base.Int.{ℤ, pos, negsuc}

-- The code points of a text.
abbrev pub codes : String → List ℕ
codes String.[] = []
codes (String.◌∷◌ c s) = code c ∷ codes s

abbrev pub is_digit : ℕ → Bool
is_digit c = leb b'0' c && leb c b'9'

-- `isspace` in the C locale.
abbrev pub is_space : ℕ → Bool
is_space c = c == b' ' || (leb 9 c && leb c 13)

-- The digits from the front on, after those that gave `acc`.
unfoldable pub digits_from : ℕ → List ℕ → ℕ
digits_from acc [] = acc
digits_from acc (c ∷ cs) =
    let more = digits_from (acc * 10 + (c - b'0')) cs in if is_digit c then more else acc

-- A number without a sign: at least one digit.
unfoldable pub unsigned : List ℕ → Result ℕ
unfolding digits_from
unsigned [] = err Error.bad_number
unsigned (c ∷ cs) = if is_digit c then ok (digits_from (c - b'0') cs) else err Error.bad_number

unfoldable pub skip_space : List ℕ → List ℕ
skip_space [] = []
skip_space (c ∷ cs) = let rest = skip_space cs in if is_space c then rest else c ∷ cs

unfoldable pub negate : ℕ → ℤ
negate zero = pos 0
negate (suc n) = negsuc n

-- Whether a minus stands in front, and the number after the sign.
unfoldable pub signed : List ℕ → Result (Bool × ℕ)
unfolding unsigned
signed [] = err Error.bad_number
signed (c ∷ cs) =
    if c == b'-'
    then under true (unsigned cs)
    else (if c == b'+' then under false (unsigned cs) else under false (unsigned (c ∷ cs)))
  where
    under : Bool → Result ℕ → Result (Bool × ℕ)
    under b (ok n) = ok (b, n)
    under b (err e) = err e

-- `int` has 32 bits.
unfoldable pub stoi_codes : List ℕ → Result ℤ
unfolding signed skip_space negate
stoi_codes cs = elim (signed (skip_space cs)) [
  | err e ↦ err e
  | ok r ↦
      if r.0
      then (if leb r.1 (2 ^ 31) then ok (negate r.1) else err Error.bad_number)
      else (if ltb r.1 (2 ^ 31) then ok (pos r.1) else err Error.bad_number)
]

unfoldable pub stoi : String → Result ℤ
unfolding stoi_codes
stoi s = stoi_codes (codes s)

-- A minus negates modulo 2^64.
unfoldable pub stoull : String → Result ℕ
unfolding signed skip_space
stoull s = elim (signed (skip_space (codes s))) [
  | err e ↦ err e
  | ok r ↦
      if ltb r.1 (2 ^ 64)
      then ok (if r.0 then (if r.1 == 0 then 0 else 2 ^ 64 - r.1) else r.1)
      else err Error.bad_number
]
