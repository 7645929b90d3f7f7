-- ===== src/Text/Number.antt =====
-- Decimal numbers: `str(n)`, `int(s)` and `f"{n:03d}"`, over ASCII digits.
pub mod RoundTrip
use Prim.Native.Nat.{min}
use mangasama.Base.{
  ℕ, zero, suc, ◌+◌, ◌-◌, ◌*◌, ◌/◌, ◌%◌, Bool, true, false, ◌&&◌, ◌||◌, Option, none, some, [], ◌∷◌,
  ◌++◌,
}
use mangasama.Base.{◌==◌, nat_eq, if◌then◌else◌, ltb, length}
use mangasama.Text.{Text, is_digit, strip}

-- An integer as `int` gives it: whether a minus sign stands in front, and the rest.
pub record Integer : Type 0 where
  pub negative : Bool
  pub magnitude : ℕ

show_fuel : ℕ → ℕ → Text
show_fuel zero n = []
show_fuel (suc f) n =
    let rest = show_fuel f (n / 10) in
    if ltb n 10 then (48 + n) ∷ [] else rest ++ ((48 + n % 10) ∷ [])

-- `str(n)`. A number has fewer digits than `n + 1`.
unfoldable pub show_nat : ℕ → Text
unfolding show_fuel
show_nat n = show_fuel (suc n) n

-- The digits of `int`: an underscore may stand between two digits.
parse_digits : ℕ → Bool → Text → Option ℕ
unfolding is_digit nat_eq
parse_digits acc prev [] = if prev then some acc else none
parse_digits acc prev (c ∷ s) =
    let rest = parse_digits (if is_digit c then acc * 10 + (c - 48) else acc) (is_digit c) s in
    if is_digit c || (c == b'_' && prev) then rest else none

abbrev with_sign : Bool → Option ℕ → Option Integer
with_sign neg none = none
with_sign neg (some n) = some (record { negative = neg; magnitude = n })

abbrev parse_signed : Text → Option Integer
parse_signed [] = none
parse_signed (c ∷ s) =
    if c == b'-'
    then with_sign true (parse_digits 0 false s)
    else if c == b'+'
    then with_sign false (parse_digits 0 false s)
    else with_sign false (parse_digits 0 false (c ∷ s))

-- `int(s)`; `none` is the `ValueError`.
unfoldable pub py_int : Text → Option Integer
unfolding parse_digits strip nat_eq
py_int s = parse_signed (strip s)

unfoldable pub zeros : ℕ → Text
zeros zero = []
zeros (suc n) = b'0' ∷ zeros n

unfoldable pub zfill : ℕ → Text → Text
unfolding zeros
zfill w s = zeros (w - length s) ++ s

-- `f"{n:03d}"`: the sign counts for the width.
unfoldable pub format_03d : Integer → Text
unfolding show_nat zfill
format_03d n =
    if n.negative && ltb 0 n.magnitude
    then b'-' ∷ zfill 2 (show_nat n.magnitude)
    else zfill 3 (show_nat n.magnitude)
