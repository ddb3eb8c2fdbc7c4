-- ===== src/Pattern/Number.antt =====
-- `str::parse::<i64>`.
use luaml.Prelude.{
  ℕ, zero, suc, ◌+◌, ◌-◌, ◌*◌, ◌^◌, Text, Bool, true, false, Option, none, some, [], ◌∷◌, ◌==◌, ltb,
  if◌then◌else◌, is_ascii_digit,
}
use luaml.Prelude.Int.{ℤ, pos, negsuc}

-- The value of a run of digits after those that make `acc`.
unfoldable pub digits : ℕ → Text → Option ℕ
digits acc [] = some acc
digits acc (c ∷ s) =
    let rest = digits (acc * 10 + (c - b'0')) s in if is_ascii_digit c then rest else none

unfoldable pub magnitude : Text → Option ℕ
unfolding digits
magnitude [] = none
magnitude (c ∷ s) = digits 0 (c ∷ s)

abbrev pub i64_limit : ℕ
i64_limit = 2 ^ 63

unfoldable pub from_magnitude : Bool → ℕ → Option ℤ
from_magnitude true zero = some (pos 0)
from_magnitude true (suc n) = if ltb n i64_limit then some (negsuc n) else none
from_magnitude false n = if ltb n i64_limit then some (pos n) else none

abbrev signed : Bool → Text → Option ℤ
signed minus s = elim (magnitude s) [ none ↦ none | some n ↦ from_magnitude minus n ]

unfoldable pub parse_i64 : Text → Option ℤ
unfolding magnitude from_magnitude
parse_i64 [] = none
parse_i64 (c ∷ s) =
    if c == b'-' then signed true s else if c == b'+' then signed false s else signed false (c ∷ s)
