-- ===== src/Settings/Redact.antt =====
-- The URL of the database as the service of settings shows it (app/services/settings_api.py).
use mangasama.Base.{ℕ, ◌≡◌, refl, ap, sym, ◌∙◌, Option, none, some, [], ◌∷◌, ◌++◌}
use mangasama.Base.{if◌then◌else◌, nat_eq}
use mathlib.Core.Option
use mangasama.Text.{Text, codes, starts_with}

abbrev pub separator : Text
separator = codes "://"

-- `url.partition("://")`: what stands before the separator, `none` if there is no separator.
unfoldable pub before_separator : Text → Option Text
before_separator [] = none
before_separator (c ∷ s) =
    if starts_with (c ∷ s) separator then some [] else Option.map (λ t. c ∷ t) (before_separator s)

unfoldable pub shown : Option Text → Text
shown none = codes "***"
shown (some scheme) = scheme ++ codes ":///***"

unfoldable pub redact_db_url : Text → Text
redact_db_url url = shown (before_separator url)

-- Whether a separator begins before the end of a text that closes with one is seen in that text.
starts_with-cut :
    (c : ℕ) (s a : Text)
    → starts_with (c ∷ s ++ separator ++ a) separator ≡ starts_with (c ∷ s ++ separator) separator
unfolding starts_with
starts_with-cut c [] a = refl
starts_with-cut c (d ∷ []) a = refl
starts_with-cut c (d ∷ e ∷ s) a = refl

before_separator-cut :
    (s a : Text) → before_separator (s ++ separator ++ a) ≡ before_separator (s ++ separator)
unfolding before_separator starts_with nat_eq
before_separator-cut [] a = refl
before_separator-cut (c ∷ s) a = rw (before_separator-cut s a, starts_with-cut c s a) refl

-- Two URLs of a database that agree up to the end of a "://" are shown alike, so that nothing
-- after the scheme is shown.
pub redact_db_url_hides :
    (scheme a b : Text)
    → redact_db_url (scheme ++ separator ++ a) ≡ redact_db_url (scheme ++ separator ++ b)
unfolding redact_db_url
redact_db_url_hides scheme a b =
    ap shown (before_separator-cut scheme a ∙ sym (before_separator-cut scheme b))
