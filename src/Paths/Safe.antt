-- ===== src/Paths/Safe.antt =====
-- The characters and the length of what `safe_filename` of app/core/paths.py gives.
use mangasama.Base.{ℕ, zero, suc, ◌≤◌, ◌≡◌, refl, ◌≢◌, Bool, false, some, [], ◌∷◌, arith}
use mangasama.Base.{ltb, length, length-take, take, All, All-take, Bool-cases, inl, inr}
use mangasama.Text.{Text, codes, is_space, strip}
use mangasama.Text.Laws.{
  first, last, strip_by-All, rstrip_by-All, first-strip_by, last-strip_by, last-rstrip_by,
  length-rstrip_by-le, first-rstrip_by,
}
use mangasama.Paths.{
  is_unsafe, replace_unsafe, squeeze, is_dot, is_edge, collapse, clean, truncate, avoid_reserved,
  or_untitled, finish, safe_filename, is_reserved,
}

abbrev IsAllowed : ℕ → Type 0
IsAllowed c = is_unsafe c ≡ false

-- A name that is one component of a path on every file system: it is not empty, it holds no
-- separator, control or other unsafe character, it does not begin with a dot or a space, and it does
-- not end in one or in an underscore.
pub record IsSafe (s : Text) : Type 0 where
  pub nonempty : s ≢ []
  pub allowed : All (λ c. is_unsafe c ≡ false) s
  pub starts : (c : ℕ) → first s ≡ some c → (c ≢ b'.') × (c ≢ b' ')
  pub ends : (c : ℕ) → last s ≡ some c → is_edge c ≡ false

replace_unsafe-All : (s : Text) → All IsAllowed (replace_unsafe s)
unfolding replace_unsafe
replace_unsafe-All [] = tt
replace_unsafe-All (c ∷ s) = elim (Bool-cases (is_unsafe c)) [
  | inl h ↦ rw h (refl, replace_unsafe-All s)
  | inr h ↦ rw h (h, replace_unsafe-All s)
]

squeeze-All :
    (p : ℕ → Bool) (by : ℕ) (inside : Bool) (s : Text)
    → IsAllowed by
    → All IsAllowed s
    → All IsAllowed (squeeze p by inside s)
unfolding squeeze
squeeze-All p by inside [] b h = tt
squeeze-All p by inside (c ∷ s) b h = ground (arith, squeeze-All p by (p c) s b h.1)

collapse-All : (nfc : Text → Text) (name : Text) → All IsAllowed (collapse nfc name)
unfolding collapse is_unsafe
collapse-All nfc name =
    squeeze-All is_dot b'.' false _ refl
      (squeeze-All is_space b' ' false _ refl (replace_unsafe-All (strip (nfc name))))

clean-All : (nfc : Text → Text) (name : Text) → All IsAllowed (clean nfc name)
unfolding clean
clean-All nfc name = strip_by-All is_edge IsAllowed (collapse nfc name) (collapse-All nfc name)

truncate-All : (n : ℕ) (s : Text) → All IsAllowed s → All IsAllowed (truncate n s)
unfolding truncate
truncate-All n s h = elim (Bool-cases (ltb n (length s))) [
  | inl e ↦ rw e (rstrip_by-All is_edge IsAllowed _ (All-take IsAllowed n s h))
  | inr e ↦ rw e h
]

last-truncate :
    (n : ℕ) (s : Text)
    → ((c : ℕ) → last s ≡ some c → is_edge c ≡ false)
    → (c : ℕ) → last (truncate n s) ≡ some c
    → is_edge c ≡ false
unfolding truncate
last-truncate n s h c e = elim (Bool-cases (ltb n (length s))) [
  | inl t ↦ last-rstrip_by is_edge (take n s) c (rw t at e)
  | inr t ↦ h c (rw t at e)
]

first-take : (n : ℕ) (s : Text) (c : ℕ) → first (take n s) ≡ some c → first s ≡ some c
first-take zero s c h = cc
first-take (suc n) [] c h = h
first-take (suc n) (d ∷ s) c h = h

first-truncate : (n : ℕ) (s : Text) (c : ℕ) → first (truncate n s) ≡ some c → first s ≡ some c
unfolding truncate
first-truncate n s c h = elim (Bool-cases (ltb n (length s))) [
  | inl t ↦ first-take n s c (first-rstrip_by is_edge (take n s) c (rw t at h))
  | inr t ↦ rw t at h
]

length-truncate-le : (n : ℕ) (s : Text) → length (truncate n s) ≤ n
unfolding truncate
length-truncate-le n s = ground (arith, length-rstrip_by-le is_edge (take n s), length-take {0} n s)

last-cons : (d c : ℕ) (s : Text) → s ≢ [] → last (d ∷ s) ≡ some c → last s ≡ some c
last-cons d c [] n h = absurd (n refl)
last-cons d c (e ∷ s) n h = h

abbrev Edges : Text → Type 0
Edges s =
    ((c : ℕ) → first s ≡ some c → (c ≢ b'.') × (c ≢ b' '))
    × ((c : ℕ) → last s ≡ some c → is_edge c ≡ false)

untitled-All : All IsAllowed (codes "untitled")
unfolding is_unsafe
untitled-All = (refl, (refl, (refl, (refl, (refl, (refl, (refl, (refl, tt))))))))

or_untitled-IsSafe : (s : Text) → All IsAllowed s → Edges s → IsSafe (or_untitled s)
unfolding is_unsafe is_edge
or_untitled-IsSafe [] h k = record {
  nonempty = λ e. cc;
  allowed = untitled-All;
  starts = λ c e. ground arith;
  ends = λ c e. ground arith;
}
or_untitled-IsSafe (c ∷ s) h k = record {
  nonempty = λ e. cc;
  allowed = h;
  starts = k.0;
  ends = k.1;
}

avoid_reserved-All : (s : Text) → All IsAllowed s → All IsAllowed (avoid_reserved s)
unfolding is_unsafe
avoid_reserved-All s h = elim (Bool-cases (is_reserved s)) [
  | inl e ↦ rw e (refl, h)
  | inr e ↦ rw e h
]

avoid_reserved-Edges : (s : Text) → s ≢ [] → Edges s → Edges (avoid_reserved s)
avoid_reserved-Edges s n k = elim (Bool-cases (is_reserved s)) [
  | inl e ↦ rw e (λ c h. ground arith, λ c h. k.1 c (last-cons b'_' c s n h))
  | inr e ↦ rw e k
]

truncate-Edges : (n : ℕ) (s : Text) → Edges s → Edges (truncate n s)
truncate-Edges n s k = (λ c h. k.0 c (first-truncate n s c h), last-truncate n s k.1)

finish-IsSafe : (n : ℕ) (s : Text) → All IsAllowed s → Edges s → IsSafe (finish n s)
unfolding finish is_unsafe
finish-IsSafe n [] h k = or_untitled-IsSafe [] h k
finish-IsSafe n (c ∷ s) h k =
    or_untitled-IsSafe (truncate n (avoid_reserved (c ∷ s)))
      (truncate-All n _ (avoid_reserved-All (c ∷ s) h))
      (truncate-Edges n _ (avoid_reserved-Edges (c ∷ s) (λ e. cc) k))

edge_not : (c : ℕ) → is_edge c ≡ false → (c ≢ b'.') × (c ≢ b' ')
unfolding is_edge
edge_not c h = ground arith

clean-Edges : (nfc : Text → Text) (name : Text) → Edges (clean nfc name)
unfolding clean
clean-Edges nfc name = (
  λ c h. edge_not c (first-strip_by is_edge (collapse nfc name) c h),
  last-strip_by is_edge (collapse nfc name),
)

-- Whatever the name, the limit and the normalisation, `safe_filename` gives a text that is not
-- empty, holds no unsafe character, does not begin with a dot or a space, and does not end in a
-- dot, a space or an underscore.
pub safe_filename-IsSafe :
    (nfc : Text → Text) (max_length : ℕ) (name : Text) → IsSafe (safe_filename nfc max_length name)
unfolding safe_filename
safe_filename-IsSafe nfc n [] = or_untitled-IsSafe [] tt (λ c h. cc, λ c h. cc)
safe_filename-IsSafe nfc n (c ∷ s) =
    finish-IsSafe n (clean nfc (c ∷ s)) (clean-All nfc (c ∷ s)) (clean-Edges nfc (c ∷ s))

length-or_untitled : (n : ℕ) (s : Text) → 8 ≤ n → length s ≤ n → length (or_untitled s) ≤ n
length-or_untitled n [] h k = h
length-or_untitled n (c ∷ s) h k = k

length-finish : (n : ℕ) (s : Text) → 8 ≤ n → length (finish n s) ≤ n
unfolding finish
length-finish n [] h = h
length-finish n (c ∷ s) h = length-or_untitled n _ h (length-truncate-le n (avoid_reserved (c ∷ s)))

-- A limit of at least eight characters, the length of "untitled", is kept by `safe_filename`.
pub length-safe_filename-le :
    (nfc : Text → Text) (max_length : ℕ) (name : Text)
    → 8 ≤ max_length
    → length (safe_filename nfc max_length name) ≤ max_length
unfolding safe_filename
length-safe_filename-le nfc n [] h = h
length-safe_filename-le nfc n (c ∷ s) h = length-finish n (clean nfc (c ∷ s)) h
