-- ===== src/Paths/Padding.antt =====
-- `_pad`: what a chapter or volume number becomes in a name.
use mangasama.Base.{ℕ, ◌≤◌, ◌<◌, ◌≡◌, refl, ◌≢◌, ◌∙◌, false, none, some, [], ◌∷◌, ◌++◌, arith, ap}
use mangasama.Base.{nat_eq, contains, true, length, All, Bool-cases, inl, inr}
use mangasama.Text.{Text, codes, strip, is_empty, before, after}
use mangasama.Text.Number.{Integer, show_nat, py_int, zfill, format_03d}
use mangasama.Text.Number.RoundTrip.{
  IsDigit, show_nat-All, show_nat-pos, strip_digits, py_int-zfill, py_int-show, zfill-length,
}
use mangasama.Paths.{pad, pad_number, volume_folder_name}

no_dot : (s : Text) → All IsDigit s → contains s b'.' ≡ false
no_dot [] h = refl
no_dot (c ∷ s) h = ground (arith, no_dot s h.1)

before_self : (s : Text) → contains s b'.' ≡ false → before b'.' s ≡ s
unfolding before
before_self [] h = refl
before_self (c ∷ s) h = ground (arith, before_self s)

is_empty-pos : (s : Text) → 0 < length s → is_empty s ≡ false
is_empty-pos [] h = absurd (omega arith)
is_empty-pos (c ∷ s) h = refl

pad_number-int :
    (s : Text) (n : Integer)
    → contains s b'.' ≡ false
    → py_int s ≡ some n
    → pad_number s ≡ format_03d n
unfolding pad_number
pad_number-int s n e h = rw e (rw h)

pad-eq-pad_number : (s : Text) → strip s ≡ s → is_empty s ≡ false → pad s ≡ pad_number s
unfolding pad
pad-eq-pad_number s e h = rw e (rw h)

format_03d-nat :
    (n : ℕ) → format_03d (record { negative = false; magnitude = n }) ≡ zfill 3 (show_nat n)
unfolding format_03d
format_03d-nat n = refl

-- A whole number is printed with three digits at least.
pad-show : (n : ℕ) → pad (show_nat n) ≡ zfill 3 (show_nat n)
pad-show n =
    pad-eq-pad_number (show_nat n) (strip_digits _ (show_nat-All n))
      (is_empty-pos _ (show_nat-pos n))
    ∙ pad_number-int (show_nat n) _ (no_dot _ (show_nat-All n)) (py_int-show n)
    ∙ format_03d-nat n

has_dot : (s t : Text) → contains (s ++ (b'.' ∷ t)) b'.' ≡ true
has_dot [] t = ground arith
has_dot (c ∷ s) t = ground (arith, has_dot s t)

before_dot : (s t : Text) → contains s b'.' ≡ false → before b'.' (s ++ (b'.' ∷ t)) ≡ s
unfolding before
before_dot [] t h = ground arith
before_dot (c ∷ s) t h = ground (arith, before_dot s t)

after_dot : (s t : Text) → contains s b'.' ≡ false → after b'.' (s ++ (b'.' ∷ t)) ≡ t
unfolding after
after_dot [] t h = ground arith
after_dot (c ∷ s) t h = ground (arith, after_dot s t)

is_empty-dot : (s t : Text) → is_empty (s ++ (b'.' ∷ t)) ≡ false
is_empty-dot [] t = refl
is_empty-dot (c ∷ s) t = refl

-- A decimal number keeps what stands behind the dot, and its whole part is padded.
pad_decimal :
    (n : ℕ) (dec : Text)
    → strip (show_nat n ++ (b'.' ∷ dec)) ≡ show_nat n ++ (b'.' ∷ dec)
    → pad (show_nat n ++ (b'.' ∷ dec)) ≡ zfill 3 (show_nat n) ++ (b'.' ∷ dec)
unfolding pad_number
pad_decimal n dec h =
    let plain = no_dot _ (show_nat-All n) in
    pad-eq-pad_number (show_nat n ++ (b'.' ∷ dec)) h (is_empty-dot (show_nat n) dec)
    ∙ rw
        (
          has_dot (show_nat n) dec,
          before_dot (show_nat n) dec plain,
          py_int-show n,
          after_dot (show_nat n) dec plain,
        )
        (ap (λ s. s ++ (b'.' ∷ dec)) (format_03d-nat n))

-- The digits of a whole number are padded to three at least, from which the number can be read
-- back; those of a number with a dot, and no space at its end, are padded likewise before the dot,
-- and what stands behind it is kept.
pub py_int-pad :
    (n : ℕ) (dec : Text)
    → strip (show_nat n ++ (b'.' ∷ dec)) ≡ show_nat n ++ (b'.' ∷ dec)
    → (py_int (pad (show_nat n)) ≡ some (record { negative = false; magnitude = n }))
      × (3 ≤ length (pad (show_nat n)))
      × (pad (show_nat n ++ (b'.' ∷ dec)) ≡ pad (show_nat n) ++ (b'.' ∷ dec))
py_int-pad n dec h =
    rw (pad-show n)
      (py_int-zfill 3 n (omega arith), zfill-length 3 (show_nat n), pad_decimal n dec h)

pad_number_verbatim : (s : Text) → py_int (before b'.' s) ≡ none → pad_number s ≡ s
unfolding pad_number
pad_number_verbatim s h = elim (Bool-cases (contains s b'.')) [
  | inl e ↦ rw e (rw h)
  | inr e ↦ let h' : py_int s ≡ none = rw (before_self s e) at h in rw e (rw h')
]

volume_folder_name-pad :
    (s : Text) → is_empty s ≡ false → volume_folder_name s ≡ codes "Volume " ++ pad s
unfolding volume_folder_name
volume_folder_name-pad s h = rw h

is_empty_ne : (s : Text) → s ≢ [] → is_empty s ≡ false
is_empty_ne [] n = absurd (n refl)
is_empty_ne (c ∷ s) n = refl

-- A volume number that is not empty, has no space at its ends and whose part before the first dot
-- is no number for `int` stands in the name of the folder as it is, with whatever separators it
-- holds.
pub volume_folder_name_verbatim :
    (s : Text)
    → s ≢ []
    → strip s ≡ s
    → py_int (before b'.' s) ≡ none
    → volume_folder_name s ≡ codes "Volume " ++ s
volume_folder_name_verbatim s n e h =
    volume_folder_name-pad s (is_empty_ne s n)
    ∙ ap (λ t. codes "Volume " ++ t)
        (pad-eq-pad_number s e (is_empty_ne s n) ∙ pad_number_verbatim s h)
