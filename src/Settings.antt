-- ===== src/Settings.antt =====
-- The runtime settings of app/core/setup_state.py and app/settings.py, app/services/settings_api.py
-- and the cleanup of app/scheduler/jobs.py. What a setting accepts is a parameter; the YAML file is a
-- dictionary, `none` where there is no file, it cannot be read or it holds no mapping.
pub mod Managed
pub mod Health
pub mod Redact
use mangasama.Base.{
  ℕ, ◌+◌, ◌*◌, String, Bool, true, false, not, ◌&&◌, ◌||◌, Option, none, some, List, [], ◌∷◌, ◌++◌,
  map,
}
use mangasama.Base.{
  if◌then◌else◌, ◌==◌, nat_eq, string_eq, ltb, length, filterb, contains, is_some, get_or,
}
use mangasama.Base.Dict.{Dict, lookup, insert, keys, values}
use mangasama.Errors.{Result, ok, err, raised, setup_state_error, value_error}
use mangasama.Models.{DomainHealth, ProviderJob, Database}
use mangasama.Models.Query.{update_where}

abbrev pub managed_settings : List String
managed_settings =
    "log_level" ∷ "backup_enabled" ∷ "backup_retention_days" ∷ "default_rate_limit_rpm"
    ∷ "scraper_mangapark_enabled" ∷ "scraper_bato_enabled" ∷ "scraper_mangakakalot_enabled"
    ∷ "scheduler_follow_interval_min" ∷ "scheduler_domain_health_min"
    ∷ "scheduler_job_retention_days" ∷ "cloudflare_solver" ∷ "flaresolverr_url"
    ∷ "google_books_enabled" ∷ "mangaeden_enabled" ∷ []

-- A value of a setting, as YAML reads and writes it.
pub data Value : Type 0 where
  bool : Bool → Value
  number : ℕ → Value
  text : String → Value

abbrev pub default_runtime_settings : Dict String Value
default_runtime_settings =
    ("log_level", Value.text "INFO")
    ∷ ("backup_enabled", Value.bool false)
    ∷ ("backup_retention_days", Value.number 7)
    ∷ ("default_rate_limit_rpm", Value.number 30)
    ∷ ("scraper_mangapark_enabled", Value.bool false)
    ∷ ("scraper_bato_enabled", Value.bool true)
    ∷ ("scraper_mangakakalot_enabled", Value.bool true)
    ∷ ("scheduler_follow_interval_min", Value.number 15)
    ∷ ("scheduler_domain_health_min", Value.number 15)
    ∷ ("scheduler_job_retention_days", Value.number 30)
    ∷ ("cloudflare_solver", Value.text "")
    ∷ ("flaresolverr_url", Value.text "http://flaresolverr:8191/v1")
    ∷ ("google_books_enabled", Value.bool false)
    ∷ ("mangaeden_enabled", Value.bool false)
    ∷ []

unfoldable pub is_managed : String → Bool
is_managed key = contains managed_settings key

-- `{k: v for k, v in settings.items() if k in MANAGED_SETTINGS}`
unfoldable pub only_managed : Dict String Value → Dict String Value
only_managed settings = filterb (λ x. is_managed x.0) settings

-- The file of settings: `none` if there is none, `some none` if it holds no mapping that can be read.
abbrev pub SettingsFile : Type 0
SettingsFile = Option (Option (Dict String Value))

unfoldable pub read_runtime_settings : SettingsFile → Dict String Value
read_runtime_settings none = []
read_runtime_settings (some none) = []
read_runtime_settings (some (some d)) = d

unfoldable pub write_runtime_settings : Bool → Dict String Value → Result SettingsFile
write_runtime_settings writable settings =
    if writable then ok (some (some (only_managed settings))) else err (raised setup_state_error)

-- `d.update(e)`
unfoldable pub update_all : Dict String Value → Dict String Value → Dict String Value
update_all [] d = d
update_all ((k, v) ∷ e) d = update_all e (insert k v d)

unfoldable pub merged_defaults : Dict String Value → Dict String Value
merged_defaults overrides = update_all (only_managed overrides) default_runtime_settings

abbrev pub seed : Bool → Dict String Value → SettingsFile → Result SettingsFile
seed writable merged none = write_runtime_settings writable merged
seed writable merged (some file) = ok (some file)

unfoldable pub init_runtime_settings :
    Bool → Dict String Value → SettingsFile → Result (Dict String Value × SettingsFile)
init_runtime_settings writable overrides file =
    let merged = merged_defaults overrides in
    elim (seed writable merged file) [ err e ↦ err e | ok file' ↦ ok (merged, file') ]

-- `setattr` for the managed keys that the settings have; a value that the settings refuse is
-- passed over.
unfoldable pub apply_one :
    (String → Value → Bool) → String → Value → Dict String Value → Dict String Value
apply_one accepts k v settings =
    if is_managed k && is_some (lookup k settings) && accepts k v
    then insert k v settings
    else settings

unfoldable pub apply_all :
    (String → Value → Bool) → Dict String Value → Dict String Value → Dict String Value
apply_all accepts [] settings = settings
apply_all accepts ((k, v) ∷ values) settings =
    apply_all accepts values (apply_one accepts k v settings)

unfoldable pub apply_runtime_settings :
    (String → Value → Bool) → SettingsFile → Dict String Value → Dict String Value
apply_runtime_settings accepts file settings =
    apply_all accepts (read_runtime_settings file) settings

-- `patch_settings` (app/services/settings_api.py); an absent value is `none`.
abbrev pub patchable : List String
patchable = "log_level" ∷ "default_rate_limit_rpm" ∷ []

unfoldable pub set_all : Dict String (Option Value) → Dict String Value → Dict String Value
set_all [] settings = settings
set_all ((k, none) ∷ patch) settings = set_all patch settings
set_all ((k, some v) ∷ patch) settings =
    set_all patch (if is_some (lookup k settings) then insert k v settings else settings)

abbrev pub unless_bad : List String → Result (Dict String Value) → Result (Dict String Value)
unless_bad [] result = result
unless_bad (k ∷ bad) result = err (raised value_error)

unfoldable pub patch_settings :
    Dict String (Option Value) → Dict String Value → Result (Dict String Value)
patch_settings patch settings =
    unless_bad (filterb (λ k. not (contains patchable k)) (keys patch))
      (ok (set_all patch settings))

-- The health of a provider, by the row of a domain; a provider without rows counts as healthy.
pub record ProviderHealth : Type 0 where
  pub provider : String
  pub healthy : Bool
  pub last_ok : Option ℕ
  pub last_fail : Option ℕ
  pub fail_count : ℕ
  pub last_status_code : Option ℕ

abbrev pub health_of : DomainHealth → ProviderHealth
health_of r = record {
  provider = r.source;
  healthy = r.healthy;
  last_ok = r.last_ok;
  last_fail = r.last_fail;
  fail_count = r.fail_count;
  last_status_code = r.last_status_code;
}

abbrev pub never_seen : String → ProviderHealth
never_seen name = record {
  provider = name;
  healthy = true;
  last_ok = none;
  last_fail = none;
  fail_count = 0;
  last_status_code = none;
}

unfoldable pub by_source :
    List DomainHealth → Dict String ProviderHealth → Dict String ProviderHealth
by_source [] d = d
by_source (r ∷ rows) d = by_source rows (insert r.source (health_of r) d)

unfoldable pub with_known : List String → Dict String ProviderHealth → Dict String ProviderHealth
with_known [] d = d
with_known (name ∷ names) d =
    with_known names (if is_some (lookup name d) then d else insert name (never_seen name) d)

unfoldable pub get_provider_health : List String → Database → List ProviderHealth
get_provider_health known db = values (with_known known (by_source db.domain_health []))

abbrev pub as_healthy : DomainHealth → DomainHealth
as_healthy r = record r { healthy = true; fail_count = 0 }

unfoldable pub reset_provider_health : String → Database → ℕ × Database
reset_provider_health source db = (
  length (filterb (λ r. r.source == source) db.domain_health),
  record db { domain_health = update_where (λ r. r.source == source) as_healthy db.domain_health },
)

-- `_run_cleanup` (app/scheduler/jobs.py); 86400 seconds a day.
unfoldable pub is_expired : ℕ → ℕ → ProviderJob → Bool
is_expired now days j = elim j.finished_at [ none ↦ false | some t ↦ ltb (t + days * 86400) now ]

unfoldable pub run_cleanup : ℕ → ℕ → Database → ℕ × Database
run_cleanup now days db = (
  length (filterb (is_expired now days) db.jobs),
  record db { jobs = filterb (λ j. not (is_expired now days j)) db.jobs },
)
