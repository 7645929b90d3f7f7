-- ===== src/SeriesService/Adding.antt =====
-- `add_series_from_provider` (app/services/series.py). What the scraper answers is a parameter.
use mangasama.Base.{ℕ, String, Bool, false, not, ◌&&◌, Option, none, some, List, [], ◌∷◌, ◌++◌}
use mangasama.Base.{if◌then◌else◌, ◌==◌, nat_eq, string_eq}
use mangasama.Errors.{
  Result, ok, err, raised, ◌>>=◌, is_instance, library_not_found, config_error, value_error,
  series_not_found, series_not_found_db, key_error,
}
use mangasama.Text.{Text, is_empty, strip}
use mangasama.Models.{Library, Series, SeriesExternalId, Database}
use mangasama.Models.Query.{one_or_none, update_where, fresh}
use mangasama.Sources
use mangasama.Sources.{ScraperRegistry}
use mangasama.Libraries.{is_library}
use mangasama.SeriesService.{sort_title}

-- app/scrapers/base.py
pub record ScrapedSeries : Type 0 where
  pub url : String
  pub title : Text
  pub alt_titles : List Text
  pub summary : Option Text
  pub year : Option ℕ
  pub status : Option String

abbrev pub known_library : Option Library → Result Library
known_library none = err (raised library_not_found)
known_library (some l) = ok l

-- `except KeyError`, around the lookup of the scraper.
abbrev pub known_provider {ℓ} : {A : Type ℓ} → Result A → Result (Unit {0})
known_provider (ok scraper) = ok tt
known_provider (err e) = if is_instance e.cls key_error then err (raised config_error) else err e

-- `except SeriesNotFoundScraper`
abbrev pub on_source : Result ScrapedSeries → Result ScrapedSeries
on_source (ok scraped) = ok scraped
on_source (err e) =
    if is_instance e.cls series_not_found then err (raised series_not_found_db) else err e

abbrev pub titled : Text → Result (Unit {0})
titled title = if is_empty title then err (raised value_error) else ok tt

abbrev or_none : Text → Option Text
or_none t = if is_empty t then none else some t

unfoldable pub new_series : Library → Text → ScrapedSeries → Text → Database → Series
new_series l title scraped language db = record {
  id = fresh (λ s. s.id) db.series;
  library_id = l.id;
  title = title;
  sort_title = some (sort_title title);
  alt_titles = scraped.alt_titles;
  status = scraped.status;
  summary = scraped.summary;
  year = scraped.year;
  language = or_none language;
  cover_path = none;
  source_priority = l.providers;
  followed = false;
  followed_at = none;
  last_checked_at = none;
  deleted = false;
  genres = [];
  tags = [];
  authors = [];
}

-- The series that is there already, or a new row.
abbrev pub reuse_or_add : Option Series → Series → Database → Series × Database
reuse_or_add (some s) new db = (s, db)
reuse_or_add none new db = (new, record db { series = db.series ++ (new ∷ []) })

-- The external id is mapped to another series.
unfoldable pub maps_elsewhere : String → String → ℕ → SeriesExternalId → Bool
maps_elsewhere provider external_id sid e =
    e.provider == provider && e.external_id == external_id && not (e.series_id == sid)

unfoldable pub maps_here : String → ℕ → SeriesExternalId → Bool
maps_here provider sid e = e.series_id == sid && e.provider == provider

unfoldable pub set_mapping : ℕ → String → String → SeriesExternalId → SeriesExternalId
set_mapping now external_id url e = record e {
  external_id = external_id;
  url = some url;
  fetched_at = some now;
}

unfoldable pub new_mapping : ℕ → ℕ → String → String → String → SeriesExternalId
new_mapping now sid provider external_id url = record {
  series_id = sid;
  provider = provider;
  external_id = external_id;
  url = some url;
  fetched_at = some now;
}

-- The rows of external ids, where the series has a mapping of the provider or not.
abbrev pub map_here :
    Option SeriesExternalId
    → ℕ
    → ℕ
    → String
    → String
    → String
    → List SeriesExternalId
    → List SeriesExternalId
map_here none now sid provider external_id url rows =
    rows ++ (new_mapping now sid provider external_id url ∷ [])
map_here (some e) now sid provider external_id url rows =
    update_where (maps_here provider sid) (set_mapping now external_id url) rows

abbrev pub unless_elsewhere :
    Option SeriesExternalId
    → Result (List SeriesExternalId)
    → List SeriesExternalId
    → Result (List SeriesExternalId)
unless_elsewhere (some e) mapped rows = ok rows
unless_elsewhere none mapped rows = mapped

unfoldable pub map_external_id :
    ℕ → ℕ → String → String → String → List SeriesExternalId → Result (List SeriesExternalId)
map_external_id now sid provider external_id url rows = do
  elsewhere ← one_or_none (maps_elsewhere provider external_id sid) rows
  unless_elsewhere elsewhere
      (one_or_none (maps_here provider sid) rows >>= λ here.
        ok (map_here here now sid provider external_id url rows))
      rows

-- `Series.title.ilike(title)` in the library, deleted series included.
unfoldable pub same_title : (Text → Text → Bool) → ℕ → Text → Series → Bool
same_title ilike library_id title s = s.library_id == library_id && ilike s.title title

-- The series and its external id are stored.
unfoldable pub store_series :
    ℕ
    → String
    → String
    → Text
    → Library
    → ScrapedSeries
    → Option Series
    → Database
    → Result (Series × Database)
store_series now provider external_id language l scraped existing db = do
  let title = strip scraped.title
  let added = reuse_or_add existing (new_series l title scraped language db) db
  rows ← map_external_id now added.0.id provider external_id scraped.url added.1.external_ids
  ok (added.0, record added.1 { external_ids = rows })

module _ (ilike : Text → Text → Bool) (registry : ScraperRegistry)
    (scrape : String → String → Result ScrapedSeries) where
  unfoldable pub add_series_from_provider :
      ℕ → ℕ → String → String → Text → Database → Result (Series × Database)
  add_series_from_provider now library_id provider external_id language db = do
    found ← one_or_none (is_library false library_id) db.libraries
    l ← known_library found
    known ← known_provider (Sources.get provider registry).0
    scraped ← on_source (scrape provider external_id)
    named ← titled (strip scraped.title)
    existing ← one_or_none (same_title ilike library_id (strip scraped.title)) db.series
    store_series now provider external_id language l scraped existing db
