-- ===== src/Cookies.antt =====
-- app/scrapers/cookies.py: the cookies of a source, in a file with the moment at which they were
-- saved. The file is a parsed dictionary; times count seconds.
use mangasama.Base.{
  ℕ, ◌+◌, ◌*◌, ◌≤◌, ◌<◌, ◌≡◌, refl, ap, sym, ◌∙◌, String, Bool, true, false, not, Option, none,
  some, List, [], ◌∷◌, arith, inl, inr,
}
use mangasama.Base.{if◌then◌else◌, ◌==◌, ltb, filterb, Bool-cases}
use mangasama.Base.Dict.{Dict, lookup, insert, lookup-insert}
use mangasama.Errors.{Result, ok, ◌>>=◌}
use mangasama.Text.{Text, codes, text_eq, starts_with}

-- What stands in the file: the text of a cookie, or a number.
pub data Stored : Type 0 where
  text : Text → Stored
  stamp : ℕ → Stored

-- `none` if there is no file, `some none` if it cannot be read or parsed.
abbrev pub CookieFile : Type 0
CookieFile = Option (Option (Dict Text Stored))

abbrev pub default_ttl_seconds : ℕ
default_ttl_seconds = 30 * 24 * 3600

-- `payload = dict(cookies)`
unfoldable pub payload_of : Dict Text Text → Dict Text Stored
payload_of [] = []
payload_of ((k, v) ∷ cookies) = (k, Stored.text v) ∷ payload_of cookies

unfoldable pub save : ℕ → Text → Dict Text Text → CookieFile
save now source cookies = some (
    some (
      insert (codes "_source") (Stored.text source)
        (insert (codes "_saved_at") (Stored.stamp now) (payload_of cookies))))

abbrev pub clear : CookieFile → CookieFile
clear file = none

-- `float(data.get("_saved_at", 0))`, where `parse` reads a text.
abbrev pub saved_at : (Text → Result ℕ) → Option Stored → Result ℕ
saved_at parse none = ok 0
saved_at parse (some (Stored.stamp t)) = ok t
saved_at parse (some (Stored.text s)) = parse s

unfoldable pub without_metadata : Dict Text Stored → Dict Text Stored
without_metadata d = filterb (λ x. not (starts_with x.0 (codes "_"))) d

abbrev pub fresh : ℕ → ℕ → Dict Text Stored → ℕ → Dict Text Stored
fresh ttl now d saved = if ltb (saved + ttl) now then [] else without_metadata d

unfoldable pub load : (Text → Result ℕ) → ℕ → ℕ → CookieFile → Result (Dict Text Stored)
load parse ttl now none = ok []
load parse ttl now (some none) = ok []
load parse ttl now (some (some d)) =
    saved_at parse (lookup (codes "_saved_at") d) >>= λ saved. ok (fresh ttl now d saved)

abbrev pub stored_of : Option Text → Option Stored
stored_of none = none
stored_of (some v) = some (Stored.text v)

lookup-payload_of :
    (k : Text) (cookies : Dict Text Text)
    → lookup k (payload_of cookies) ≡ stored_of (lookup k cookies)
unfolding payload_of lookup
lookup-payload_of k [] = refl
lookup-payload_of k ((j, v) ∷ cookies) = ground (arith, lookup-payload_of k cookies)

lookup-without_metadata :
    (k : Text) (d : Dict Text Stored)
    → starts_with k (codes "_") ≡ false
    → lookup k (without_metadata d) ≡ lookup k d
unfolding without_metadata lookup
lookup-without_metadata k [] h = refl
lookup-without_metadata k ((j, v) ∷ d) h = elim (Bool-cases (k == j)) [
  | inl e ↦
      let same : k ≡ j = ground arith in
      ground (arith, e, h, ap (λ s. starts_with s (codes "_")) same, lookup-without_metadata k d h)
  | inr e ↦ ground (arith, e, lookup-without_metadata k d h)
]

under_metadata :
    (k name : Text) (v : Stored) (d : Dict Text Stored)
    → starts_with k (codes "_") ≡ false
    → starts_with name (codes "_") ≡ true
    → lookup k (insert name v d) ≡ lookup k d
under_metadata k name v d h m = elim (Bool-cases (k == name)) [
  | inl e ↦
      let same : k ≡ name = ground arith in
      let contradiction = sym h ∙ ap (λ s. starts_with s (codes "_")) same ∙ m in cc
  | inr e ↦ ground (arith, e, lookup-insert k name v d)
]

metadata_source : starts_with (codes "_source") (codes "_") ≡ true
unfolding starts_with mangasama.Base.nat_eq
metadata_source = refl

metadata_saved_at : starts_with (codes "_saved_at") (codes "_") ≡ true
unfolding starts_with mangasama.Base.nat_eq
metadata_saved_at = refl

saved_moment :
    (now : ℕ) (source : Text) (d : Dict Text Stored)
    → lookup (codes "_saved_at") (
        insert
          (codes "_source")
          (Stored.text source)
          (insert (codes "_saved_at") (Stored.stamp now) d))
      ≡ some (Stored.stamp now)
unfolding text_eq mangasama.Base.nat_eq
saved_moment now source d =
    lookup-insert (codes "_saved_at") (codes "_source") (Stored.text source)
      (insert (codes "_saved_at") (Stored.stamp now) d)
    ∙ lookup-insert (codes "_saved_at") (codes "_saved_at") (Stored.stamp now) d

-- Loading cookies that were saved gives, as long as the time to live has not passed, each cookie
-- whose name does not begin with an underscore, with its text, and gives nothing afterwards.
pub load-save :
    (parse : Text → Result ℕ) (ttl saved now : ℕ) (source : Text) (cookies : Dict Text Text)
    → (d : Dict Text Stored) × (load parse ttl now (save saved source cookies) ≡ ok d)
      × (now ≤ saved + ttl
          → (k : Text) → starts_with k (codes "_") ≡ false
          → lookup k d ≡ stored_of (lookup k cookies))
      × (saved + ttl < now → d ≡ [])
unfolding load save
load-save parse ttl saved now source cookies =
    let kept = insert (codes "_saved_at") (Stored.stamp saved) (payload_of cookies) in
    let whole = insert (codes "_source") (Stored.text source) kept in
    (
      fresh ttl now whole saved,
      rw (saved_moment saved source (payload_of cookies)) refl,
      λ still k h. ground (
        arith,
        still,
        lookup-without_metadata k whole h,
        under_metadata k (codes "_source") (Stored.text source) kept h metadata_source,
        under_metadata k (codes "_saved_at") (Stored.stamp saved) (payload_of cookies) h
            metadata_saved_at,
        lookup-payload_of k cookies,
      ),
      λ late. ground (arith, late),
    )
