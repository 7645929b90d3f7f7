-- ===== src/SeriesService/Refresh.antt =====
-- `refresh_metadata` (app/services/series.py). What the metadata providers answer, and the cache of
-- covers, are parameters.
use mangasama.Base.{
  ℕ, String, Bool, true, false, ◌&&◌, ◌||◌, Option, none, some, List, [], ◌∷◌, map,
}
use mangasama.Base.{
  if◌then◌else◌, ◌==◌, nat_eq, string_eq, pair_eq, contains, filterb, is_some, get_or,
}
use mangasama.Base.Dict.{Dict, lookup}
use mangasama.Errors.{Result, ok, err, raised, ◌>>=◌, key_error}
use mangasama.Text.{Text, text_eq, is_empty, strip}
use mangasama.Models.{Series, Database}
use mangasama.Follow.{by_provider}
use mangasama.Merger.{MetadataAuthor, MetadataRecord, MergedMetadata, nothing_merged}
use mangasama.Merger.Scalars.{given}
use mangasama.Merger.Merge.{merge}
use mangasama.SeriesService.{
  sort_title, get_series, save_series, or_old_option, SeriesRead, to_series_read,
}

-- The names of `_build_metadata_providers`.
unfoldable pub build_metadata_providers : Bool → Option (List String) → List String
build_metadata_providers google_books_enabled none = "anilist" ∷ "mangadex" ∷ []
build_metadata_providers google_books_enabled (some names) =
    filterb
      (λ n. n == "anilist" || n == "mangadex" || (google_books_enabled && n == "google_books"))
      names

abbrev pub unless_empty {ℓ} : {A : Type ℓ} → List A → List A → List A
unless_empty [] old = old
unless_empty (x ∷ xs) old = x ∷ xs

abbrev pub text_given : Option Text → Option Text → Option Text
text_given none old = old
text_given (some t) old = if is_empty t then old else some t

-- `_apply_merged_to_series`
unfoldable pub apply_merged_to_series : MergedMetadata → Series → Series
apply_merged_to_series merged s = record s {
  title = unless_empty merged.title s.title;
  sort_title = if is_empty merged.title then s.sort_title else some (sort_title merged.title);
  alt_titles = unless_empty merged.alt_titles s.alt_titles;
  summary = text_given merged.summary s.summary;
  year = or_old_option merged.year s.year;
  status = or_old_option (given merged.status) s.status;
}

-- The values that `_replace_collection` stores: stripped, none empty and none twice.
unfoldable pub clean_values : List Text → List Text → List Text
clean_values seen [] = []
clean_values seen (v ∷ vs) =
    let t = strip v in
    if is_empty t || contains seen t then clean_values seen vs else t ∷ clean_values (t ∷ seen) vs

-- The pairs that `_replace_authors` stores.
unfoldable pub clean_authors : List (Text × Text) → List MetadataAuthor → List (Text × Text)
clean_authors seen [] = []
clean_authors seen (a ∷ authors) =
    let role = strip a.role in
    let name = strip a.name in
    if is_empty role || is_empty name || contains seen (role, name)
    then clean_authors seen authors
    else (role, name) ∷ clean_authors ((role, name) ∷ seen) authors

-- The merge written onto the series.
unfoldable pub refreshed : MergedMetadata → Series → Series
refreshed merged s = record (apply_merged_to_series merged s) {
  genres = clean_values [] merged.genres;
  tags = clean_values [] merged.tags;
  authors = clean_authors [] merged.authors;
}

-- `[r for r in results if r is not None]`, where a failure has become `None`.
unfoldable pub succeeded : List (Result MetadataRecord) → List MetadataRecord
succeeded [] = []
succeeded (err e ∷ rs) = succeeded rs
succeeded (ok r ∷ rs) = r ∷ succeeded rs

abbrev pub found_id : Option String → Result String
found_id none = err (raised key_error)
found_id (some ext) = ok ext

-- A cover that was fetched goes into the row; a failure leaves the row as it is.
abbrev pub with_cover : Result String → Series → Series × Bool
with_cover (err e) s = (s, false)
with_cover (ok path) s = (record s { cover_path = some path }, true)

pub record RefreshResult : Type 0 where
  pub series : SeriesRead
  pub merged : MergedMetadata
  pub cover_cached : Bool
  pub sources_used : List String

module _ (get_record : String → String → Result MetadataRecord)
    (fetch_and_cache : String → String → String → Result String) where
  unfoldable pub fetch_records : Dict String String → List String → List MetadataRecord
  fetch_records ids providers =
      let targets = filterb (λ p. is_some (lookup p ids)) providers in
      succeeded (map (λ p. get_record p (get_or (lookup p ids) "")) targets)

  abbrev pub cover_step :
      Bool → Option String → MetadataRecord → Dict String String → Series → Series × Bool
  cover_step false url top ids s = (s, false)
  cover_step true none top ids s = (s, false)
  cover_step true (some url) top ids s =
      with_cover
        (found_id (lookup top.provider ids) >>= λ ext. fetch_and_cache top.provider ext url) s

  abbrev pub write_merged :
      ℕ
      → Bool
      → List MetadataRecord
      → Dict String String
      → Series
      → Database
      → RefreshResult × Database
  write_merged id download_cover [] ids s db = (
    record {
      series = to_series_read db s;
      merged = nothing_merged;
      cover_cached = false;
      sources_used = [];
    },
    db,
  )
  write_merged id download_cover (top ∷ others) ids s db =
      let merged = merge (top ∷ others) none in
      let covered =
        cover_step download_cover (given merged.cover_url) top ids (refreshed merged s) in
      let db' = save_series id (λ old. covered.0) db in
      (
        record {
          series = to_series_read db' covered.0;
          merged = merged;
          cover_cached = covered.1;
          sources_used = map (λ r. r.provider) (top ∷ others);
        },
        db',
      )

  unfoldable pub refresh_metadata :
      Bool → ℕ → Option (List String) → Bool → Database → Result (RefreshResult × Database)
  refresh_metadata google_books_enabled id providers download_cover db = do
    s ← get_series id db
    let ids = by_provider db.external_ids s.id
    let records = fetch_records ids (build_metadata_providers google_books_enabled providers)
    ok (write_merged id download_cover records ids s db)
