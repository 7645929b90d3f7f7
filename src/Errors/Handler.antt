-- ===== src/Errors/Handler.antt =====
-- app/api/exception_handlers.py: the ladder of `isinstance` tests, and which handler is installed
-- for which class.
use mangasama.Base.{
  ℕ, ◌/◌, ◌≡◌, refl, ◌≢◌, ◌∙◌, sym, String, Bool, true, false, Option, none, some, List, [], ◌∷◌,
  ◌||◌, arith,
}
use mangasama.Base.{◌==◌, nat_eq, if◌then◌else◌, ltb}
use mangasama.Errors.{
  ErrorClass, exception, manga_sama_error, scraper_error, source_unavailable, blocked_by_cloudflare,
  chapter_not_found, series_not_found, rate_limited, package_error, invalid_comic_info,
  download_queue_full, config_error, unknown_scraper, library_not_found, series_not_found_db,
  chapter_not_found_db, job_not_found, cover_not_found, key_error, value_error, runtime_error,
  os_error, setup_error, setup_state_error, http_status_error, image_conversion_error, index_error,
  type_error, multiple_results_found, integrity_error, is_instance, Raised,
}

-- The status, the `type` of the body, and the `Retry-After` header in seconds.
pub record Answer : Type 0 where
  pub status : ℕ
  pub kind : String
  pub retry_after : Option ℕ

abbrev answer : ℕ → String → Answer
answer status kind = record { status = status; kind = kind; retry_after = none }

-- `str(int(retry_after)) if retry_after else None`
abbrev retry_header : Option ℕ → Option ℕ
retry_header none = none
retry_header (some ms) = if ltb 0 ms then some (ms / 1000) else none

unfoldable pub domain_exception_handler : Raised → Answer
unfolding is_instance
domain_exception_handler exc =
    let is : ErrorClass → Bool = is_instance exc.cls in
    if is library_not_found
    then answer 404 "library_not_found"
    else if is series_not_found_db || is series_not_found
    then answer 404 "series_not_found"
    else if is chapter_not_found_db || is chapter_not_found
    then answer 404 "chapter_not_found"
    else if is job_not_found
    then answer 404 "job_not_found"
    else if is cover_not_found
    then answer 404 "cover_not_found"
    else if is download_queue_full
    then record { status = 503; kind = "download_queue_full"; retry_after = some 30 }
    else if is rate_limited
    then record { status = 429; kind = "rate_limited"; retry_after = retry_header exc.retry_after }
    else if is blocked_by_cloudflare
    then answer 502 "blocked_by_cloudflare"
    else if is source_unavailable
    then answer 502 "source_unavailable"
    else if is config_error
    then answer 400 "config_error"
    else if is value_error
    then answer 400 "invalid_value"
    else if is manga_sama_error
    then answer 500 "internal_error"
    else answer 500 "unhandled"

-- `_unhandled_handler`
abbrev unhandled_handler : Answer
unhandled_handler = answer 500 "internal_error"

-- The handlers that `install_exception_handlers` registers, by the class of the exception.
unfoldable pub handle : Raised → Answer
unfolding domain_exception_handler
handle exc =
    if is_instance exc.cls manga_sama_error || is_instance exc.cls value_error
    then domain_exception_handler exc
    else unhandled_handler

abbrev plain : ErrorClass → Raised
plain c = record { cls = c; source = none; status_code = none; retry_after = none }

abbrev all_classes : List ErrorClass
all_classes =
    exception ∷ manga_sama_error ∷ scraper_error ∷ source_unavailable ∷ blocked_by_cloudflare
    ∷ chapter_not_found ∷ series_not_found ∷ rate_limited ∷ package_error ∷ invalid_comic_info
    ∷ download_queue_full ∷ config_error ∷ unknown_scraper ∷ library_not_found ∷ series_not_found_db
    ∷ chapter_not_found_db ∷ job_not_found ∷ cover_not_found ∷ key_error ∷ value_error
    ∷ runtime_error ∷ os_error ∷ setup_error ∷ setup_state_error ∷ http_status_error
    ∷ image_conversion_error ∷ index_error ∷ type_error ∷ multiple_results_found ∷ integrity_error
    ∷ []

-- A test of every class.
every : (ErrorClass → Bool) → List ErrorClass → Bool
every p [] = true
every p (c ∷ cs) = if p c then every p cs else false

every_at : (p : ErrorClass → Bool) → every p all_classes ≡ true → (c : ErrorClass) → p c ≡ true
unfolding every
every_at p h exception = ground arith
every_at p h _ = ground arith

agree : Bool → ℕ → ℕ → Bool
agree i a b = if i then b == 500 || a == b else true

agree_sound : (i : Bool) (a b : ℕ) → agree i a b ≡ true → i ≡ true → b ≢ 500 → a ≡ b
unfolding agree
agree_sound i a b s h n = ground arith

substitutes : ErrorClass → ErrorClass → Bool
substitutes c d = agree (is_instance c d) (handle (plain c)).status (handle (plain d)).status

substitutes_table : every (λ c. every (substitutes c) all_classes) all_classes ≡ true
unfolding every substitutes agree handle nat_eq
substitutes_table = refl

status-plain :
    (c : ErrorClass) (s : Option String) (n r : Option ℕ)
    → (handle (record { cls = c; source = s; status_code = n; retry_after = r })).status
      ≡ (handle (plain c)).status
unfolding handle
status-plain exception s n r = refl
status-plain _ s n r = refl

substitutes_sound : (c d : ErrorClass) → substitutes c d ≡ true
substitutes_sound c d =
    every_at (substitutes c) (every_at (λ b. every (substitutes b) all_classes) substitutes_table c)
      d

substitutes-eq :
    (c d : ErrorClass)
    → substitutes c d ≡ true
    → is_instance c d ≡ true
    → (handle (plain d)).status ≢ 500
    → (handle (plain c)).status ≡ (handle (plain d)).status
unfolding substitutes
substitutes-eq c d s h n = agree_sound _ _ _ s h n

-- An exception of a subclass is answered with the status of its base class, whatever the
-- attributes of the two, unless the base class is one that is answered with 500.
pub status-handle_subclass :
    (e f : Raised)
    → is_instance e.cls f.cls ≡ true
    → (handle f).status ≢ 500
    → (handle e).status ≡ (handle f).status
status-handle_subclass e f h n =
    let p = status-plain e.cls e.source e.status_code e.retry_after in
    let q = status-plain f.cls f.source f.status_code f.retry_after in
    p ∙ substitutes-eq e.cls f.cls (substitutes_sound e.cls f.cls) h (λ z. n (q ∙ z)) ∙ sym q

-- The status and the type of the answer to an exception of each class, as the classes are told
-- apart: a class below another is answered like that one, unless it has an answer of its own.
abbrev pub expected_answer : ErrorClass → ℕ × String
expected_answer library_not_found = (404, "library_not_found")
expected_answer series_not_found_db = (404, "series_not_found")
expected_answer series_not_found = (404, "series_not_found")
expected_answer chapter_not_found_db = (404, "chapter_not_found")
expected_answer chapter_not_found = (404, "chapter_not_found")
expected_answer job_not_found = (404, "job_not_found")
expected_answer cover_not_found = (404, "cover_not_found")
expected_answer download_queue_full = (503, "download_queue_full")
expected_answer rate_limited = (429, "rate_limited")
expected_answer blocked_by_cloudflare = (502, "blocked_by_cloudflare")
expected_answer source_unavailable = (502, "source_unavailable")
expected_answer config_error = (400, "config_error")
expected_answer unknown_scraper = (400, "config_error")
expected_answer value_error = (400, "invalid_value")
expected_answer setup_error = (400, "invalid_value")
expected_answer _ = (500, "internal_error")

-- Every exception, whatever its attributes, has the status and the type that its class calls for,
-- also where a base class has a branch of its own: 404 for what is not found, 503 for a full
-- queue, 429 for a rate limit, 502 for a source that is down or blocked, 400 for a wrong
-- configuration or value, an unknown scraper and a setup error included, and 500 for all else.
pub handle_expected :
    (e : Raised)
    → ((handle e).status ≡ (expected_answer e.cls).0)
      × ((handle e).kind ≡ (expected_answer e.cls).1)
unfolding handle
handle_expected e = by_class e.cls e.source e.status_code e.retry_after
  where
    by_class :
        (c : ErrorClass) (s : Option String) (n r : Option ℕ)
        → let a = handle (record { cls = c; source = s; status_code = n; retry_after = r }) in
          (a.status ≡ (expected_answer c).0) × (a.kind ≡ (expected_answer c).1)
    by_class exception s n r = (refl, refl)
    by_class _ s n r = (refl, refl)
