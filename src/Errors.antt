-- ===== src/Errors.antt =====
-- app/core/exceptions.py and app/api/exception_handlers.py: the classes of exceptions that the
-- program raises, with Python's own where the program raises or catches them, and the JSON answer
-- for each. The texts of messages are not modelled; the attributes of an exception are.
pub mod Handler
use mathlib.Core.Bool.{◌||◌}
use mangasama.Base.{
  ◌≡◌, refl, ℕ, zero, suc, String, Bool, true, false, Option, none, some, List, [], ◌∷◌,
}
use mangasama.Base.{Eq, ◌==◌}

pub data ErrorClass : Type 0 where
  exception : ErrorClass
  manga_sama_error : ErrorClass
  scraper_error : ErrorClass
  source_unavailable : ErrorClass
  blocked_by_cloudflare : ErrorClass
  chapter_not_found : ErrorClass
  series_not_found : ErrorClass
  rate_limited : ErrorClass
  package_error : ErrorClass
  invalid_comic_info : ErrorClass
  download_queue_full : ErrorClass
  config_error : ErrorClass
  unknown_scraper : ErrorClass
  library_not_found : ErrorClass
  series_not_found_db : ErrorClass
  chapter_not_found_db : ErrorClass
  job_not_found : ErrorClass
  cover_not_found : ErrorClass
  key_error : ErrorClass
  value_error : ErrorClass
  runtime_error : ErrorClass
  os_error : ErrorClass
  setup_error : ErrorClass
  setup_state_error : ErrorClass
  http_status_error : ErrorClass
  image_conversion_error : ErrorClass
  index_error : ErrorClass
  type_error : ErrorClass
  multiple_results_found : ErrorClass
  integrity_error : ErrorClass

ErrorClass-discrete : Discrete ErrorClass
ErrorClass-discrete = hlevel

instance unfoldable pub class_eq : Eq ErrorClass
unfolding ErrorClass-discrete
class_eq = record { dec = ErrorClass-discrete }

-- The classes that a `class` line names in its brackets.
unfoldable pub bases : ErrorClass → List ErrorClass
bases exception = []
bases manga_sama_error = exception ∷ []
bases scraper_error = manga_sama_error ∷ []
bases source_unavailable = scraper_error ∷ []
bases blocked_by_cloudflare = scraper_error ∷ []
bases chapter_not_found = scraper_error ∷ []
bases series_not_found = scraper_error ∷ []
bases rate_limited = scraper_error ∷ []
bases package_error = manga_sama_error ∷ []
bases invalid_comic_info = package_error ∷ []
bases download_queue_full = manga_sama_error ∷ []
bases config_error = manga_sama_error ∷ []
bases unknown_scraper = config_error ∷ key_error ∷ []
bases library_not_found = manga_sama_error ∷ key_error ∷ []
bases series_not_found_db = manga_sama_error ∷ key_error ∷ []
bases chapter_not_found_db = manga_sama_error ∷ key_error ∷ []
bases job_not_found = manga_sama_error ∷ key_error ∷ []
bases cover_not_found = manga_sama_error ∷ key_error ∷ []
bases key_error = exception ∷ []
bases value_error = exception ∷ []
bases runtime_error = exception ∷ []
bases os_error = exception ∷ []
bases setup_error = value_error ∷ []
bases setup_state_error = runtime_error ∷ []
bases http_status_error = exception ∷ []
bases image_conversion_error = exception ∷ []
bases index_error = exception ∷ []
bases type_error = exception ∷ []
bases multiple_results_found = exception ∷ []
bases integrity_error = exception ∷ []

any_of : (ErrorClass → Bool) → List ErrorClass → Bool
any_of p [] = false
any_of p (c ∷ cs) = p c || any_of p cs

-- The class itself or one above it, at most `depth` levels up.
unfoldable pub descends : ℕ → ErrorClass → ErrorClass → Bool
unfolding bases any_of class_eq
descends zero c d = c == d
descends (suc depth) c d = c == d || any_of (λ b. descends depth b d) (bases c)

-- `isinstance(exc, d)` for an exception of class `c`. No class stands more than 4 levels deep.
unfoldable pub is_instance : ErrorClass → ErrorClass → Bool
unfolding descends
is_instance c d = descends 4 c d

-- A raised exception with the attributes that the program sets (`none` where a class has none).
-- `retry_after` counts milliseconds.
pub record Raised : Type 0 where
  pub cls : ErrorClass
  pub source : Option String
  pub status_code : Option ℕ
  pub retry_after : Option ℕ

abbrev pub raised : ErrorClass → Raised
raised c = record { cls = c; source = none; status_code = none; retry_after = none }

-- What a call that may raise gives back.
pub data Result {ℓ} (A : Type ℓ) : Type ℓ where
  ok : A → Result A
  err : Raised → Result A

infixl 5 ◌>>=◌
abbrev pub ◌>>=◌ {ℓ κ} : {A : Type ℓ} {B : Type κ} → Result A → (A → Result B) → Result B
err e >>= k = err e
ok x >>= k = k x

-- A chain that gives a value has a first part that gives one.
pub >>=-eq-ok {ℓ κ} :
    {A : Type ℓ} {B : Type κ} (r : Result A) (k : A → Result B) {y : B}
    → (r >>= k) ≡ ok y
    → (x : A) × (r ≡ ok x) × (k x ≡ ok y)
>>=-eq-ok (err e) k h = cc
>>=-eq-ok (ok x) k h = (x, refl, h)

pub ok-injective {ℓ} : {A : Type ℓ} (a b : A) → ok a ≡ ok b → a ≡ b
ok-injective a b h = cc
