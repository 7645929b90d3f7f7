-- ===== src/Tests/Services.antt =====
-- The runtime settings, the cleanup, the search, the health of the domains, the cookies and the rate
-- limiter.
use mangasama.Base.{
  ℕ, ◌+◌, ◌-◌, ◌≤◌, ◌<◌, ◌≡◌, refl, ap, sym, String, Bool, true, false, not, Option, none, some,
  List, [], ◌∷◌, ◌++◌, ◌==◌, arith, inl, inr,
}
use mangasama.Base.{length, filterb, is_some, get_or, nat_eq, string_eq, if◌then◌else◌}
use mangasama.Base.Dict.{Dict, lookup}
use mangasama.Text.{Text, codes, text_eq, starts_with}
use mangasama.Errors.{Result, ok, err, raised, value_error}
use mangasama.Models.{ProviderJob, Database, empty_database}
use mangasama.Settings.{
  Value, SettingsFile, only_managed, write_runtime_settings, read_runtime_settings,
  apply_runtime_settings, run_cleanup, patch_settings,
}
use mangasama.Settings.Managed.{apply_runtime_settings-write, apply_runtime_settings-unmanaged}
use mangasama.Settings.Redact.{separator, redact_db_url, redact_db_url_hides}
use mangasama.Settings.Health.{run_cleanup_complete}
use mangasama.Search.{
  SearchRequest, Hit, SearchResponse, multi_source_search, multi_source_search_isolated,
}
use mangasama.HealthCheck.{Sweep, check_all_domains}
use mangasama.Cookies.{Stored, load, save, stored_of, load-save}
use mangasama.Limiter.{Key, RateLimiter, new_limiter, prepare, take_token, take_slot, release}
use mangasama.Limiter.Slots.{count, start, prepares, enters, take_slot_bounded, take_slot_full}
use mangasama.Limiter.Budgets.{view, acquire_others_kept}
use mangasama.Sources.{Policy}
use mangasama.Tests.{policy, library, database}

abbrev any_value : String → Value → Bool
any_value key v = true

abbrev own_settings : Dict String Value
own_settings = ("log_level", Value.text "INFO") ∷ ("db_url", Value.text "sqlite://") ∷ []

abbrev saved_settings : Dict String Value
saved_settings = ("log_level", Value.text "DEBUG") ∷ ("db_url", Value.text "other://") ∷ []

-- The URL of the database is not managed, so it is not written.
apply_runtime_settings-write_run :
    lookup "db_url"
      (apply_runtime_settings any_value (some (some (only_managed saved_settings))) own_settings)
    ≡ some (Value.text "sqlite://")
unfolding lookup string_eq write_runtime_settings mangasama.Settings.is_managed
apply_runtime_settings-write_run =
    apply_runtime_settings-write any_value true saved_settings own_settings "db_url"
      (refl, (refl, tt)) refl

-- A file that was written by hand, with another URL of the database.
apply_runtime_settings-unmanaged_example :
    (lookup "db_url" (apply_runtime_settings any_value (some (some saved_settings)) own_settings)
      ≡ some (Value.text "sqlite://"))
    × (lookup "db_url" (read_runtime_settings (some (some (only_managed saved_settings)))) ≡ none)
unfolding mangasama.Settings.is_managed string_eq write_runtime_settings lookup
apply_runtime_settings-unmanaged_example =
    apply_runtime_settings-unmanaged any_value (some (some saved_settings)) own_settings
      saved_settings {written = some (some (only_managed saved_settings))} "db_url" refl refl

refused_patch :
    patch_settings (("db_url", some (Value.text "other://")) ∷ []) own_settings
    ≡ err (raised value_error)
unfolding patch_settings mangasama.Base.Dict.keys string_eq
refused_patch = refl

abbrev job : ℕ → Option ℕ → ProviderJob
job id finished_at = record {
  id = id;
  job_type = "download";
  provider = none;
  status = "done";
  started_at = some 1;
  finished_at = finished_at;
  failed = false;
  progress = 100;
}

abbrev some_jobs : Database
some_jobs = record empty_database { jobs = job 1 (some 10) ∷ job 2 none ∷ job 3 (some 90000) ∷ [] }

run_cleanup_complete_run :
    ((run_cleanup 90000 1 some_jobs).0 + length (run_cleanup 90000 1 some_jobs).1.jobs ≡ 3)
    × ((run_cleanup 90000 1 (run_cleanup 90000 1 some_jobs).1).0 ≡ 0)
    × (filterb (λ j. not (is_some j.finished_at)) (run_cleanup 90000 1 some_jobs).1.jobs
        ≡ job 2 none ∷ [])
run_cleanup_complete_run = run_cleanup_complete 90000 1 some_jobs

cleaned : (run_cleanup 90000 1 some_jobs).0 ≡ 1
unfolding run_cleanup mangasama.Settings.is_expired
cleaned = refl

abbrev search_request : SearchRequest
search_request = record {
  library_id = 1;
  query = codes "one";
  providers = some ("mangaworld" ∷ "mangadex" ∷ []);
  languages = [];
  limit_per_provider = 10;
}

abbrev two_sources : Policy
two_sources = record policy {
  sources =
      (
        "mangaworld",
        record { enabled = true; primary = some "a.example"; alternates = "b.example" ∷ [] },
      )
      ∷ ("mangadex", record { enabled = false; primary = some "c.example"; alternates = [] })
      ∷ [];
}

abbrev one_hit : Hit
one_hit = record {
  external_id = "1";
  url = none;
  title = codes "One Piece";
  alt_titles = [];
  year = none;
  cover_url = none;
  type = none;
  score = 0;
  available_languages = codes "it" ∷ [];
}

-- What a source answers if it is down, and if it is not.
abbrev answer_if_down : Bool → Text → ℕ → Option Text → Result (List Hit)
answer_if_down true query limit language = err (raised value_error)
answer_if_down false query limit language = ok (one_hit ∷ [])

abbrev finds : String → Text → ℕ → Option Text → Result (List Hit)
finds name = answer_if_down false

abbrev fails_at : String → String → Text → ℕ → Option Text → Result (List Hit)
fails_at bad name = answer_if_down (name == bad)

-- mangaworld is down in the second search.
multi_source_search_isolated_example :
    (r : SearchResponse) × (r' : SearchResponse) × (multi_source_search two_sources finds
        search_request database
      ≡ ok r)
    × (multi_source_search two_sources (fails_at "mangaworld") search_request database ≡ ok r')
    × (filterb (λ c. not (c.provider == "mangaworld")) r.candidates
        ≡ filterb (λ c. not (c.provider == "mangaworld")) r'.candidates)
unfolding mangasama.Models.Query.one_or_none nat_eq
multi_source_search_isolated_example =
    multi_source_search_isolated two_sources finds (fails_at "mangaworld") "mangaworld"
      search_request database library (λ name h. ap answer_if_down (sym h)) refl

-- One of the two domains of the enabled source is down; the other source is not asked.
abbrev ping : String → String → Option ℕ
ping source domain = if domain == "a.example" then some 503 else some 429

swept : (check_all_domains ping 5 two_sources []).healthy ≡ 1
unfolding check_all_domains mangasama.HealthCheck.check_sources mangasama.Sources.is_source_enabled
    lookup string_eq mangasama.Sources.gate mangasama.HealthCheck.check_domains
    mangasama.Domains.all_domains_for mangasama.HealthCheck.is_up nat_eq
swept = refl

abbrev no_number : Text → Result ℕ
no_number s = err (raised value_error)

abbrev one_cookie : Dict Text Text
one_cookie = (codes "cf", codes "x") ∷ []

load-save_example :
    (d : Dict Text Stored) × (load no_number 100 50 (save 10 (codes "bato") one_cookie) ≡ ok d)
    × (50 ≤ 110
        → (k : Text) → starts_with k (codes "_") ≡ false
        → lookup k d ≡ stored_of (lookup k one_cookie))
    × (110 < 50 → d ≡ [])
load-save_example = load-save no_number 100 10 50 (codes "bato") one_cookie

-- A bucket that counts the tokens left.
abbrev rate_bucket : ℕ → ℕ → ℕ
rate_bucket rpm period = rpm

abbrev take_one : ℕ → ℕ → Option ℕ
take_one now tokens = if tokens == 0 then none else some (tokens - 1)

abbrev mangadex_key : Key
mangadex_key = ("mangadex", "api.mangadex.org")

abbrev bato_key : Key
bato_key = ("bato", "bato.to")

abbrev prepared : RateLimiter ℕ
prepared = prepare rate_bucket mangadex_key none (new_limiter 30 1)

abbrev or_prepared : Option (RateLimiter ℕ) → RateLimiter ℕ
or_prepared none = prepared
or_prepared (some r) = r

abbrev busy : RateLimiter ℕ
busy = or_prepared (take_slot mangadex_key prepared)

take_slot_bounded_example : count mangadex_key (mangadex_key ∷ []) ≤ busy.default_concurrency
unfolding take_slot lookup prepare mangasama.Limiter.semaphore mangasama.Limiter.bucket
    mangasama.Base.Dict.insert mangasama.Base.pair_eq string_eq nat_eq mangasama.Limiter.positive_or
take_slot_bounded_example =
    take_slot_bounded rate_bucket take_one {r = busy} {held = mangadex_key ∷ []} mangadex_key
      (enters mangadex_key (prepares mangadex_key none (start 30 1)) refl)

-- The one slot is taken, so another call waits.
must_wait : take_slot mangadex_key busy ≡ none
unfolding take_slot lookup prepare mangasama.Limiter.semaphore mangasama.Limiter.bucket
    mangasama.Base.Dict.insert mangasama.Base.pair_eq string_eq nat_eq mangasama.Limiter.positive_or
must_wait =
    take_slot_full rate_bucket take_one {r = busy} {held = mangadex_key ∷ []} mangadex_key
      (enters mangadex_key (prepares mangadex_key none (start 30 1)) refl) refl

acquire_others_kept_example :
    (view bato_key (prepare rate_bucket mangadex_key (some 10) busy) ≡ view bato_key busy)
    × (view bato_key (get_or (take_token take_one 0 mangadex_key busy) busy) ≡ view bato_key busy)
    × (view bato_key (get_or (take_slot mangadex_key busy) busy) ≡ view bato_key busy)
    × (view bato_key (release mangadex_key busy) ≡ view bato_key busy)
unfolding mangasama.Base.pair_eq string_eq
acquire_others_kept_example =
    acquire_others_kept rate_bucket take_one mangadex_key bato_key (some 10) 0 busy refl

abbrev sqlite : Text
sqlite = codes "sqlite+aiosqlite"

shown_url :
    redact_db_url (sqlite ++ separator ++ codes "//data/mangasama.db") ≡ sqlite ++ codes ":///***"
unfolding redact_db_url mangasama.Settings.Redact.before_separator starts_with nat_eq
    mangasama.Settings.Redact.shown
shown_url = refl

redact_db_url_hides_example :
    redact_db_url (sqlite ++ separator ++ codes "//data/mangasama.db")
    ≡ redact_db_url (sqlite ++ separator ++ codes "//other.db")
redact_db_url_hides_example =
    redact_db_url_hides sqlite (codes "//data/mangasama.db") (codes "//other.db")
