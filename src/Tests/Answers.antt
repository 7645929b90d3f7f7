-- ===== src/Tests/Answers.antt =====
-- The answers to errors, and the registry of scrapers.
use mangasama.Base.{◌≡◌, refl, true, false, [], ◌∷◌, All, find_first, ◌==◌, string_eq, arith}
use mangasama.Errors.{
  raised, series_not_found, unknown_scraper, config_error, is_instance, class_eq,
}
use mangasama.Errors.Handler.{handle, status-handle_subclass, handle_expected}
use mangasama.Sources.{Scraper, get, has, is_source_enabled, enabled_scraper_names}
use mangasama.Sources.Registry.{found_or, get-load, enabled_scraper_names-All}
use mangasama.Tests.{mangaworld, policy}

not_found : (handle (raised series_not_found)).status ≡ 404
unfolding handle
not_found = refl

status-handle_subclass_run :
    (handle (raised unknown_scraper)).status ≡ (handle (raised config_error)).status
unfolding handle is_instance class_eq
status-handle_subclass_run =
    status-handle_subclass (raised unknown_scraper) (raised config_error) refl
      (λ e. absurd (omega (arith, e)))

handle_expected_example :
    ((handle (raised unknown_scraper)).status ≡ 400)
    × ((handle (raised unknown_scraper)).kind ≡ "config_error")
handle_expected_example = handle_expected (raised unknown_scraper)

abbrev other : Scraper
other = record mangaworld { base_url = "https://other" }

get-load_run :
    (get "mangaworld"
      (record { instances = []; loaded = false; found = mangaworld ∷ other ∷ [] })).0
    ≡ found_or (find_first (λ s. "mangaworld" == s.name) (mangaworld ∷ other ∷ []))
get-load_run = get-load "mangaworld" (mangaworld ∷ other ∷ []) (λ e. cc)

enabled_scraper_names-All_run :
    All
      (λ n. ((has n policy.registry).0 ≡ true) × (is_source_enabled policy n ≡ true))
      (enabled_scraper_names policy)
enabled_scraper_names-All_run = enabled_scraper_names-All policy
