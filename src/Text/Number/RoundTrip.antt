-- ===== src/Text/Number/RoundTrip.antt =====
-- `int` on what `str` and a zero-padded format print.
use mangasama.Base.{
  ℕ, zero, suc, ◌+◌, ◌-◌, ◌*◌, ◌/◌, ◌%◌, ◌≤◌, ◌<◌, ◌≡◌, refl, ◌∙◌, ap, true, false, some, [], ◌∷◌,
  ◌++◌, arith,
}
use mangasama.Base.{nat_eq, ltb, length, All, All-append, Bool-cases, inl, inr}
use mangasama.Base.{length-append}
use mangasama.Text.{Text, is_digit, is_space, strip, lstrip_by, rstrip_by}
use mangasama.Text.Number.{show_fuel, show_nat, parse_digits, parse_signed, py_int, zeros, zfill}

abbrev pub IsDigit : ℕ → Type 0
IsDigit c = (48 ≤ c) × (c ≤ 57)

-- The number that digits stand for.
value : ℕ → Text → ℕ
value acc [] = acc
value acc (c ∷ s) = value (acc * 10 + (c - 48)) s

value-append : (acc : ℕ) (s t : Text) → value acc (s ++ t) ≡ value (value acc s) t
unfolding value
value-append acc [] t = refl
value-append acc (c ∷ s) t = value-append (acc * 10 + (c - 48)) s t

value-zeros : (n : ℕ) (s : Text) → value 0 (zeros n ++ s) ≡ value 0 s
unfolding value zeros
value-zeros zero s = refl
value-zeros (suc n) s = value-zeros n s

is_digit_of : (c : ℕ) → IsDigit c → is_digit c ≡ true
unfolding is_digit
is_digit_of c h = ground arith

not_space : (c : ℕ) → IsDigit c → is_space c ≡ false
unfolding is_space
not_space c h = ground arith

parse_digits-value :
    (acc : ℕ) (s : Text) → All IsDigit s → parse_digits acc true s ≡ some (value acc s)
unfolding parse_digits value
parse_digits-value acc [] h = refl
parse_digits-value acc (c ∷ s) h =
    ground (arith, is_digit_of c h.0, parse_digits-value (acc * 10 + (c - 48)) s h.1)

parse_digits-cons :
    (acc : ℕ) (c : ℕ) (s : Text)
    → IsDigit c
    → All IsDigit s
    → parse_digits acc false (c ∷ s) ≡ some (value acc (c ∷ s))
unfolding parse_digits value
parse_digits-cons acc c s h k =
    ground (arith, is_digit_of c h, parse_digits-value (acc * 10 + (c - 48)) s k)

rstrip_digits : (s : Text) → All IsDigit s → rstrip_by is_space s ≡ s
unfolding rstrip_by
rstrip_digits [] h = refl
rstrip_digits (c ∷ s) h = ground (arith, not_space c h.0, rstrip_digits s h.1)

pub strip_digits : (s : Text) → All IsDigit s → strip s ≡ s
unfolding strip lstrip_by
strip_digits [] h = refl
strip_digits (c ∷ s) h = rw (not_space c h.0) (rstrip_digits (c ∷ s) h)

parse_signed_digits :
    (c : ℕ) (s : Text)
    → All IsDigit (c ∷ s)
    → parse_signed (c ∷ s) ≡ some (record { negative = false; magnitude = value 0 (c ∷ s) })
parse_signed_digits c s h = ground (arith, parse_digits-cons 0 c s h.0 h.1)

-- `int` reads a text of digits as the number that they stand for.
py_int-value :
    (c : ℕ) (s : Text)
    → All IsDigit (c ∷ s)
    → py_int (c ∷ s) ≡ some (record { negative = false; magnitude = value 0 (c ∷ s) })
unfolding py_int
py_int-value c s h = ap parse_signed (strip_digits (c ∷ s) h) ∙ parse_signed_digits c s h

show_fuel-All : (f n : ℕ) → All IsDigit (show_fuel f n)
unfolding show_fuel
show_fuel-All zero n = tt
show_fuel-All (suc f) n = elim (Bool-cases (ltb n 10)) [
  | inl h ↦ rw h (ground arith)
  | inr h ↦ rw h (All-append IsDigit _ _ (show_fuel-All f (n / 10)) (omega arith))
]

value-show_fuel : (f n : ℕ) → n < f → value 0 (show_fuel f n) ≡ n
unfolding show_fuel value
value-show_fuel zero n h = absurd (omega arith)
value-show_fuel (suc f) n h = elim (Bool-cases (ltb n 10)) [
  | inl e ↦ rw e (omega arith)
  | inr e ↦ rw e (
      rw (value-append 0 (show_fuel f (n / 10)) ((48 + n % 10) ∷ []))
        (rw (value-show_fuel f (n / 10) (ground arith)) (ground arith)))
]

zeros-All : (n : ℕ) → All IsDigit (zeros n)
unfolding zeros
zeros-All zero = tt
zeros-All (suc n) = (omega arith, zeros-All n)

pub zfill-All : (w : ℕ) (s : Text) → All IsDigit s → All IsDigit (zfill w s)
unfolding zfill
zfill-All w s h = All-append IsDigit _ s (zeros-All (w - length s)) h

length-zeros : (n : ℕ) → length (zeros n) ≡ n
unfolding zeros
length-zeros zero = refl
length-zeros (suc n) = ap suc (length-zeros n)

-- The width is reached.
pub zfill-length : (w : ℕ) (s : Text) → w ≤ length (zfill w s)
unfolding zfill
zfill-length w s =
    omega (arith, length-append {0} (zeros (w - length s)) s, length-zeros (w - length s))

value-zfill-show : (w n : ℕ) → value 0 (zfill w (show_nat n)) ≡ n
unfolding zfill show_nat
value-zfill-show w n = value-zeros _ _ ∙ value-show_fuel (suc n) n (omega arith)

pub show_nat-All : (n : ℕ) → All IsDigit (show_nat n)
unfolding show_nat
show_nat-All n = show_fuel-All (suc n) n

py_int-of_value :
    (s : Text)
    → All IsDigit s
    → 0 < length s
    → py_int s ≡ some (record { negative = false; magnitude = value 0 s })
py_int-of_value [] h k = absurd (omega arith)
py_int-of_value (c ∷ s) h k = py_int-value c s h

-- `int` reads back a number that was printed with leading zeros.
pub py_int-zfill :
    (w n : ℕ)
    → 0 < w
    → py_int (zfill w (show_nat n)) ≡ some (record { negative = false; magnitude = n })
py_int-zfill w n h =
    py_int-of_value _ (zfill-All w _ (show_nat-All n)) (omega (arith, zfill-length w (show_nat n)))
    ∙ rw (value-zfill-show w n)

show_fuel-pos : (f n : ℕ) → 0 < length (show_fuel (suc f) n)
unfolding show_fuel
show_fuel-pos f n = ground (arith, length-append {0} (show_fuel f (n / 10)) ((48 + n % 10) ∷ []))

value-show : (n : ℕ) → value 0 (show_nat n) ≡ n
unfolding show_nat
value-show n = value-show_fuel (suc n) n (omega arith)

pub show_nat-pos : (n : ℕ) → 0 < length (show_nat n)
unfolding show_nat
show_nat-pos n = show_fuel-pos n n

-- `int` reads back what `str` printed.
pub py_int-show : (n : ℕ) → py_int (show_nat n) ≡ some (record { negative = false; magnitude = n })
py_int-show n = py_int-of_value _ (show_nat-All n) (show_nat-pos n) ∙ rw (value-show n)
