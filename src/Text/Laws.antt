-- ===== src/Text/Laws.antt =====
-- Laws of the text methods.
use mangasama.Base.{ℕ, ◌≤◌, ◌≡◌, ap, Bool, false, ◌&&◌, Option, none, some, [], ◌∷◌, arith}
use mangasama.Base.{if◌then◌else◌, length, All}
use mangasama.Text.{Text, is_empty, lstrip_by, rstrip_by, strip_by}

-- The first character, and the last one.
abbrev pub first : Text → Option ℕ
first [] = none
first (c ∷ s) = some c

abbrev pub last : Text → Option ℕ
last [] = none
last (c ∷ []) = some c
last (c ∷ d ∷ s) = last (d ∷ s)

module _ (p : ℕ → Bool) where
  pub length-lstrip_by-le : (s : Text) → length (lstrip_by p s) ≤ length s
  unfolding lstrip_by
  length-lstrip_by-le [] = omega arith
  length-lstrip_by-le (c ∷ s) = ground (arith, length-lstrip_by-le s)

  pub length-rstrip_by-le : (s : Text) → length (rstrip_by p s) ≤ length s
  unfolding rstrip_by
  length-rstrip_by-le [] = omega arith
  length-rstrip_by-le (c ∷ s) = ground (arith, length-rstrip_by-le s)

  pub length-strip_by-le : (s : Text) → length (strip_by p s) ≤ length s
  unfolding strip_by
  length-strip_by-le s = omega (arith, length-lstrip_by-le s, length-rstrip_by-le (lstrip_by p s))

  module _ {ℓ} (P : ℕ → Type ℓ) where
    pub lstrip_by-All : (s : Text) → All P s → All P (lstrip_by p s)
    unfolding lstrip_by
    lstrip_by-All [] h = tt
    lstrip_by-All (c ∷ s) h = ground (arith, lstrip_by-All s h.1)

    pub rstrip_by-All : (s : Text) → All P s → All P (rstrip_by p s)
    unfolding rstrip_by
    rstrip_by-All [] h = tt
    rstrip_by-All (c ∷ s) h = ground (arith, rstrip_by-All s h.1)

    pub strip_by-All : (s : Text) → All P s → All P (strip_by p s)
    unfolding strip_by
    strip_by-All s h = rstrip_by-All (lstrip_by p s) (lstrip_by-All s h)

  last_kept :
      (d : ℕ) (r : Text) (c : ℕ)
      → (last r ≡ some c → p c ≡ false)
      → last (if p d && is_empty r then [] else d ∷ r) ≡ some c
      → p c ≡ false
  last_kept d [] c ih h = ground arith
  last_kept d (e ∷ r) c ih h = ih (ground arith)

  -- What is left ends in no character that `p` names.
  pub last-rstrip_by : (s : Text) (c : ℕ) → last (rstrip_by p s) ≡ some c → p c ≡ false
  unfolding rstrip_by
  last-rstrip_by [] c h = cc
  last-rstrip_by (d ∷ s) c h = last_kept d (rstrip_by p s) c (last-rstrip_by s c) h

  first_kept :
      (d : ℕ) (r : Text) (c : ℕ) → first (if p d && is_empty r then [] else d ∷ r) ≡ some c → d ≡ c
  first_kept d r c h = ground arith

  pub first-rstrip_by : (s : Text) (c : ℕ) → first (rstrip_by p s) ≡ some c → first s ≡ some c
  unfolding rstrip_by
  first-rstrip_by [] c h = h
  first-rstrip_by (d ∷ s) c h = ap some (first_kept d (rstrip_by p s) c h)

  first-lstrip_by : (s : Text) (c : ℕ) → first (lstrip_by p s) ≡ some c → p c ≡ false
  unfolding lstrip_by
  first-lstrip_by [] c h = cc
  first-lstrip_by (d ∷ s) c h = ground (arith, first-lstrip_by s c)

  -- Nor does it begin with one.
  pub first-strip_by : (s : Text) (c : ℕ) → first (strip_by p s) ≡ some c → p c ≡ false
  unfolding strip_by
  first-strip_by s c h = first-lstrip_by s c (first-rstrip_by (lstrip_by p s) c h)

  pub last-strip_by : (s : Text) (c : ℕ) → last (strip_by p s) ≡ some c → p c ≡ false
  unfolding strip_by
  last-strip_by s c h = last-rstrip_by (lstrip_by p s) c h
