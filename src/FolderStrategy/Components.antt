-- ===== src/FolderStrategy/Components.antt =====
-- Which texts are one component of a path (app/services/folder_strategy.py, app/core/paths.py).
use mangasama.Base.{
  ℕ, ◌≡◌, refl, ◌≢◌, ap, sym, ◌∙◌, true, false, ◌&&◌, Option, none, some, [], ◌∷◌, ◌++◌, arith, inl,
  inr,
}
use mangasama.Base.{◌==◌, nat_eq, contains, All, All-append, All-imp, Bool-cases, ltb}
use mangasama.Text.{
  Text, codes, text_eq, is_empty, is_space, starts_with, strip, join, after, before,
}
use mangasama.Text.Laws.{strip_by-All}
use mangasama.Text.Number.{Integer, py_int, format_03d}
use mangasama.Text.Number.RoundTrip.{IsDigit, show_nat-All, zfill-All}
use mangasama.Paths.{
  is_unsafe, safe_filename, chapter_filename, volume_folder_name, pad, pad_number, with_title,
  with_language,
}
use mangasama.Paths.Safe.{IsSafe, safe_filename-IsSafe}
use mangasama.FolderStrategy.PurePaths.{PurePath, prepend, split_slashes, is_part, parts_of, ◌/◌}

abbrev pub NoSlash : Text → Type 0
NoSlash s = All (λ c. (c == b'/') ≡ false) s

pub contains-NoSlash : (s : Text) → contains s b'/' ≡ false → NoSlash s
contains-NoSlash [] h = tt
contains-NoSlash (c ∷ s) h = ground (arith, h, contains-NoSlash s)

-- A component of a path: it has no slash and begins with another character than a dot.
pub record IsName (s : Text) : Type 0 where
  pub head : ℕ
  pub tail : Text
  pub shape : s ≡ head ∷ tail
  pub no_dot : (head == b'.') ≡ false
  pub no_slash : NoSlash s

split_slashes-NoSlash : (s : Text) → NoSlash s → split_slashes s ≡ s ∷ []
unfolding split_slashes
split_slashes-NoSlash [] h = refl
split_slashes-NoSlash (c ∷ s) h = rw h.0 (ap (prepend c) (split_slashes-NoSlash s h.1))

is_part-cons : (c : ℕ) (s : Text) → (c == b'.') ≡ false → is_part (c ∷ s) ≡ true
unfolding is_part
is_part-cons c s h = ground (arith, h)

parts_of-IsName : (s : Text) → IsName s → parts_of s ≡ s ∷ []
unfolding parts_of
parts_of-IsName s n =
    let part : is_part s ≡ true = ap is_part n.shape ∙ is_part-cons n.head n.tail n.no_dot in
    rw (split_slashes-NoSlash s n.no_slash) (rw part refl)

starts_with-NoSlash : (s : Text) → NoSlash s → starts_with s (codes "/") ≡ false
unfolding starts_with
starts_with-NoSlash [] h = refl
starts_with-NoSlash (c ∷ s) h = rw h.0 refl

-- A name is one further part.
pub join-IsName :
    (p : PurePath) (s : Text) → IsName s → p / s ≡ record p { parts = p.parts ++ (s ∷ []) }
unfolding ◌/◌
join-IsName p s n = rw (starts_with-NoSlash s n.no_slash) (rw (parts_of-IsName s n) refl)

-- A name does not lead upwards.
pub IsName-not_up : (s : Text) → IsName s → s ≢ codes ".."
IsName-not_up s n e =
    let same : n.head ∷ n.tail ≡ codes ".." = sym n.shape ∙ e in ground (arith, n.no_dot, same)

pub IsName-append : (s t : Text) → IsName s → NoSlash t → IsName (s ++ t)
IsName-append s t n h = record {
  head = n.head;
  tail = n.tail ++ t;
  shape = ap (λ u. u ++ t) n.shape;
  no_dot = n.no_dot;
  no_slash = All-append _ s t n.no_slash h;
}

unsafe-slash : (c : ℕ) → is_unsafe c ≡ false → (c == b'/') ≡ false
unfolding is_unsafe
unsafe-slash c h = ground (arith, h)

IsSafe-IsName : (s : Text) → IsSafe s → IsName s
IsSafe-IsName [] h = absurd (h.nonempty refl)
IsSafe-IsName (c ∷ s) h = record {
  head = c;
  tail = s;
  shape = refl;
  no_dot = ground (arith, (h.starts c refl).0);
  no_slash = All-imp (λ d. is_unsafe d ≡ false) _ (c ∷ s) unsafe-slash h.allowed;
}

pub safe_filename-IsName : (nfc : Text → Text) (n : ℕ) (s : Text) → IsName (safe_filename nfc n s)
safe_filename-IsName nfc n s = IsSafe-IsName _ (safe_filename-IsSafe nfc n s)

digit-slash : (c : ℕ) → IsDigit c → (c == b'/') ≡ false
digit-slash c h = ground (arith, h)

digits-NoSlash : (s : Text) → All IsDigit s → NoSlash s
digits-NoSlash s h = All-imp IsDigit _ s digit-slash h

format_03d-NoSlash : (n : Integer) → NoSlash (format_03d n)
unfolding format_03d nat_eq
format_03d-NoSlash n = elim (Bool-cases (n.negative && ltb 0 n.magnitude)) [
  | inl e ↦ rw e (refl, digits-NoSlash _ (zfill-All 2 _ (show_nat-All n.magnitude)))
  | inr e ↦ rw e (digits-NoSlash _ (zfill-All 3 _ (show_nat-All n.magnitude)))
]

after-NoSlash : (c : ℕ) (s : Text) → NoSlash s → NoSlash (after c s)
unfolding after
after-NoSlash c [] h = tt
after-NoSlash c (d ∷ s) h = elim (Bool-cases (d == c)) [
  | inl e ↦ rw e h.1
  | inr e ↦ rw e (after-NoSlash c s h.1)
]

-- A number without a slash is padded to one without a slash.
pub pad_number-NoSlash : (s : Text) → NoSlash s → NoSlash (pad_number s)
unfolding pad_number nat_eq
pad_number-NoSlash s h = elim (Bool-cases (contains s b'.')) [
  | inl e ↦ rw e (decimal (py_int (before b'.' s)))
  | inr e ↦ rw e (whole (py_int s))
]
  where
    decimal :
        (o : Option Integer)
        → NoSlash (elim o [ none ↦ s | some n ↦ format_03d n ++ (b'.' ∷ after b'.' s) ])
    decimal none = h
    decimal (some n) =
        All-append _ (format_03d n) (b'.' ∷ after b'.' s) (format_03d-NoSlash n)
          (refl, after-NoSlash b'.' s h)

    whole : (o : Option Integer) → NoSlash (elim o [ none ↦ s | some n ↦ format_03d n ])
    whole none = h
    whole (some n) = format_03d-NoSlash n

pub strip-NoSlash : (s : Text) → NoSlash s → NoSlash (strip s)
unfolding strip
strip-NoSlash s h = strip_by-All is_space (λ c. (c == b'/') ≡ false) s h

pad-NoSlash : (s : Text) → NoSlash s → NoSlash (pad s)
unfolding pad nat_eq
pad-NoSlash s h = elim (Bool-cases (is_empty (strip s))) [
  | inl e ↦ rw e (refl, (refl, (refl, tt)))
  | inr e ↦ rw e (pad_number-NoSlash (strip s) (strip-NoSlash s h))
]

volume_text : IsName (codes "Volume ")
unfolding nat_eq
volume_text = record {
  head = b'V';
  tail = codes "olume ";
  shape = refl;
  no_dot = refl;
  no_slash = (refl, (refl, (refl, (refl, (refl, (refl, (refl, tt)))))));
}

pub volume_folder_name-IsName : (s : Text) → NoSlash s → IsName (volume_folder_name s)
unfolding volume_folder_name nat_eq
volume_folder_name-IsName s h = elim (Bool-cases (is_empty s)) [
  | inl e ↦
      rw e (IsName-append (codes "Volume ") (codes "000") volume_text (refl, (refl, (refl, tt))))
  | inr e ↦ rw e (IsName-append (codes "Volume ") (pad s) volume_text (pad-NoSlash s h))
]

with_title-NoSlash :
    (nfc : Text → Text) (s c : Text) (title : Option Text)
    → IsName s
    → NoSlash c
    → IsName (join (codes " - ") (with_title nfc s c title))
unfolding with_title join nat_eq
with_title-NoSlash nfc s c none n h = IsName-append s _ n (refl, (refl, (refl, h)))
with_title-NoSlash nfc s c (some t) n h = elim (Bool-cases (is_empty t)) [
  | inl e ↦ rw e (IsName-append s _ n (refl, (refl, (refl, h))))
  | inr e ↦ rw e (
      IsName-append s _ n (
        refl,
        (
          refl,
          (
            refl,
            All-append _ c _ h (refl, (refl, (refl, (safe_filename-IsName nfc 200 t).no_slash))),
          ),
        ),
      ))
]

-- `language or ""`, `volume or ""`
abbrev pub or_nothing : Option Text → Text
or_nothing none = []
or_nothing (some s) = s

with_language-IsName :
    (s : Text) (language : Option Text)
    → IsName s
    → NoSlash (or_nothing language)
    → IsName (with_language s language)
unfolding with_language nat_eq
with_language-IsName s none n h = n
with_language-IsName s (some l) n h = elim (Bool-cases (is_empty l)) [
  | inl e ↦ rw e n
  | inr e ↦ rw e (IsName-append s _ n (refl, (refl, All-append _ l _ h (refl, tt))))
]

pub chapter_filename-IsName :
    (nfc : Text → Text) (series number : Text) (title language : Option Text)
    → NoSlash number
    → NoSlash (or_nothing language)
    → IsName (chapter_filename nfc series number title language)
unfolding chapter_filename nat_eq
chapter_filename-IsName nfc series number title language h k =
    IsName-append _ (codes ".cbz")
      (with_language-IsName _ language
        (with_title-NoSlash nfc _ _ title (safe_filename-IsName nfc 200 series)
          (refl, (refl, pad-NoSlash number h)))
        k)
      (refl, (refl, (refl, (refl, tt))))
