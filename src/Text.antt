-- ===== src/Text.antt =====
-- Python's `str`, where the program walks it: a list of code points, with the methods that the
-- program calls. Letter case is that of ASCII and Latin-1; other letters stay as they are.
-- A text that the program only compares as a whole is a native `String` elsewhere.
pub mod Laws
pub mod Number
use Prim.Native.Char.{code}
use mathlib.Core.Logic.{dite}
use mangasama.Base.{
  ℕ, ◌+◌, ◌-◌, String, ◌≡◌, refl, ap, Bool, true, false, ◌&&◌, ◌||◌, Option, none, some, List, [],
  ◌∷◌, ◌++◌, map,
}
use mangasama.Base.{Eq, ◌==◌, nat_eq, if◌then◌else◌, ltb, leb}

abbrev pub Text : Type 0
Text = List ℕ

-- A quoted text. `String` has its own `[]` and `∷`.
abbrev pub codes : String → Text
codes String.[] = []
codes (String.◌∷◌ c s) = code c ∷ codes s

head_or : ℕ → Text → ℕ
head_or d [] = d
head_or d (c ∷ s) = c

tail_or : Text → Text → Text
tail_or d [] = d
tail_or d (c ∷ s) = s

IsCons : Text → Type 0
IsCons [] = ⊥
IsCons (c ∷ s) = Unit

module _ ⦃e : Eq ℕ⦄ where
  text_dec : Discrete Text
  unfolding head_or tail_or IsCons
  text_dec [] [] = yes refl
  text_dec [] (b ∷ t) = no (λ p. cc)
  text_dec (a ∷ s) [] = no (λ p. cc)
  text_dec (a ∷ s) (b ∷ t) =
      let rest = text_dec s t in
      dite (e.dec a b)
        (λ p. dite rest (λ q. yes (λ i. p i ∷ q i)) (λ n. no (λ r. n (ap (tail_or []) r))))
        (λ n. no (λ r. n (ap (head_or a) r)))

instance unfoldable pub text_eq : Eq Text
unfolding text_dec nat_eq
text_eq = record { dec = text_dec }

-- `str.isspace` of one character, and `\s` of `re`.
unfoldable pub is_space : ℕ → Bool
is_space c =
    (leb 9 c && leb c 13)
    || (leb 28 c && leb c 32)
    || ltb 132 c && ltb c 134
    || ltb 159 c && ltb c 161
    || ltb 5759 c && ltb c 5761
    || leb 8192 c && leb c 8202
    || leb 8232 c && leb c 8233
    || ltb 8238 c && ltb c 8240
    || ltb 8286 c && ltb c 8288
    || ltb 12287 c && ltb c 12289

unfoldable pub is_digit : ℕ → Bool
is_digit c = leb b'0' c && leb c b'9'

unfoldable pub lower_char : ℕ → ℕ
lower_char c =
    if leb b'A' c && leb c b'Z'
    then c + 32
    else if leb 192 c && leb c 214 || leb 216 c && leb c 222
    then c + 32
    else c

unfoldable pub upper_char : ℕ → ℕ
upper_char c =
    if leb b'a' c && leb c b'z'
    then c - 32
    else if leb 224 c && leb c 246 || leb 248 c && leb c 254
    then c - 32
    else c

-- `s.lower()`, `s.upper()`
unfoldable pub lower : Text → Text
unfolding lower_char
lower s = map lower_char s

unfoldable pub upper : Text → Text
unfolding upper_char
upper s = map upper_char s

abbrev pub is_empty : Text → Bool
is_empty [] = true
is_empty (c ∷ s) = false

-- `s.lstrip(chars)`, `s.rstrip(chars)` and `s.strip(chars)`, for the characters that `p` names.
module _ (p : ℕ → Bool) where
  unfoldable pub lstrip_by : Text → Text
  lstrip_by [] = []
  lstrip_by (c ∷ s) = let rest = lstrip_by s in if p c then rest else c ∷ s

  unfoldable pub rstrip_by : Text → Text
  rstrip_by [] = []
  rstrip_by (c ∷ s) = let rest = rstrip_by s in if p c && is_empty rest then [] else c ∷ rest

  unfoldable pub strip_by : Text → Text
  unfolding lstrip_by rstrip_by
  strip_by s = rstrip_by (lstrip_by s)

-- `s.strip()`
unfoldable pub strip : Text → Text
unfolding strip_by
strip s = strip_by is_space s

-- The part in front of the first `c`, and what follows it: `s.partition(c)`, and whether `c` is in.
unfoldable pub before : ℕ → Text → Text
before c [] = []
before c (d ∷ s) = let rest = before c s in if d == c then [] else d ∷ rest

unfoldable pub after : ℕ → Text → Text
after c [] = []
after c (d ∷ s) = let rest = after c s in if d == c then s else rest

unfoldable pub starts_with : Text → Text → Bool
starts_with s [] = true
starts_with [] (d ∷ t) = false
starts_with (c ∷ s) (d ∷ t) = let rest = starts_with s t in if c == d then rest else false

-- `sep.join(parts)`
unfoldable pub join : Text → List Text → Text
join sep [] = []
join sep (s ∷ []) = s
join sep (s ∷ t ∷ rest) = s ++ (sep ++ join sep (t ∷ rest))
