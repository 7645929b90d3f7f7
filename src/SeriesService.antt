-- ===== src/SeriesService.antt =====
-- app/services/series.py, over the tables of Models. How the database compares titles (`ilike`), and
-- the JSON text of a list of titles, are parameters. A series that a session has loaded and changed
-- is the row with its key.
pub mod Adding
pub mod Refresh
pub mod Rows
pub mod Pages
pub mod Mapped
pub mod Added
pub mod Refreshed
use mangasama.Base.{
  ℕ, ◌+◌, String, Bool, true, false, not, ◌&&◌, ◌||◌, Option, none, some, List, [], ◌∷◌, ◌++◌, map,
}
use mangasama.Base.{
  if◌then◌else◌, ◌==◌, nat_eq, string_eq, ltb, leb, length, take, drop, filterb, get_or,
}
use mangasama.Base.Sort
use mangasama.Errors.{Result, ok, err, raised, ◌>>=◌, series_not_found_db}
use mangasama.Text.{Text, codes, lower, is_empty, starts_with}
use mangasama.Models.{Series, SeriesExternalId, Database}
use mangasama.Models.Query.{one_or_none, update_where}
use mangasama.Languages.{text_leb, ScrapedChapter}
use mangasama.Sources.{Policy}
use mangasama.Follow
use mangasama.Follow.{World, Floats}

-- The first of the articles that the title begins with is cut off.
unfoldable pub strip_article : Text → List Text → Text
strip_article title [] = title
strip_article title (prefix ∷ prefixes) =
    let rest = strip_article title prefixes in
    if starts_with (lower title) prefix then drop (length prefix) title else rest

-- `_sort_title`
unfoldable pub sort_title : Text → Text
sort_title title = strip_article title (codes "the " ∷ codes "a " ∷ codes "an " ∷ [])

abbrev pub is_series : ℕ → Series → Bool
is_series id s = s.id == id && not s.deleted

abbrev pub found_series : Option Series → Result Series
found_series none = err (raised series_not_found_db)
found_series (some s) = ok s

unfoldable pub get_series : ℕ → Database → Result Series
get_series id db = one_or_none (is_series id) db.series >>= found_series

-- What a session writes back of a loaded series.
unfoldable pub save_series : ℕ → (Series → Series) → Database → Database
save_series id f db = record db { series = update_where (is_series id) f db.series }

pub record SeriesUpdate : Type 0 where
  pub title : Option Text
  pub sort_title : Option Text
  pub alt_titles : Option (List Text)
  pub status : Option String
  pub summary : Option Text
  pub year : Option ℕ
  pub language : Option Text
  pub cover_path : Option String
  pub source_priority : Option (List String)
  pub followed : Option Bool

-- `if value is not None: field = value`
abbrev pub or_old {ℓ} : {A : Type ℓ} → Option A → A → A
or_old none old = old
or_old (some new) old = new

abbrev pub or_old_option {ℓ} : {A : Type ℓ} → Option A → Option A → Option A
or_old_option none old = old
or_old_option (some new) old = some new

abbrev pub retitled : Option Text → Option Text → Option Text
retitled none old = old
retitled (some title) old = some (sort_title title)

abbrev pub followed_since : ℕ → Option Bool → Option ℕ → Option ℕ
followed_since now none old = old
followed_since now (some true) old = some now
followed_since now (some false) old = old

unfoldable pub patched : ℕ → SeriesUpdate → Series → Series
patched now patch s = record s {
  title = or_old patch.title s.title;
  sort_title = or_old_option patch.sort_title (retitled patch.title s.sort_title);
  alt_titles = or_old patch.alt_titles s.alt_titles;
  status = or_old_option patch.status s.status;
  summary = or_old_option patch.summary s.summary;
  year = or_old_option patch.year s.year;
  language = or_old_option patch.language s.language;
  cover_path = or_old_option patch.cover_path s.cover_path;
  source_priority = or_old patch.source_priority s.source_priority;
  followed = or_old patch.followed s.followed;
  followed_at = followed_since now patch.followed s.followed_at;
}

unfoldable pub update_series : ℕ → ℕ → SeriesUpdate → Database → Result (Series × Database)
update_series now id patch db = do
  s ← get_series id db
  ok (patched now patch s, save_series id (patched now patch) db)

abbrev pub with_deleted : Series → Series
with_deleted s = record s { deleted = true }

unfoldable pub soft_delete_series : ℕ → Database → Result (Series × Database)
soft_delete_series id db = do
  s ← get_series id db
  ok (with_deleted s, save_series id with_deleted db)

abbrev pub with_followed : ℕ → Bool → Series → Series
with_followed now followed s = record s {
  followed = followed;
  followed_at = if followed then some now else none;
}

unfoldable pub set_followed : ℕ → ℕ → Bool → Database → Result (Series × Database)
set_followed now id followed db = do
  s ← get_series id db
  ok (with_followed now followed s, save_series id (with_followed now followed) db)

-- A condition of a query that an absent argument leaves out.
abbrev pub if_given {ℓ} : {A : Type ℓ} → Option A → (A → Bool) → Bool
if_given none p = true
if_given (some a) p = p a

-- `ORDER BY sort_title ASC NULLS LAST, id ASC`
abbrev pub null_last_leb : Option Text → Option Text → ℕ → ℕ → Bool
null_last_leb none none i j = leb i j
null_last_leb none (some t) i j = false
null_last_leb (some s) none i j = true
null_last_leb (some s) (some t) i j = text_leb s t && (not (text_leb t s) || leb i j)

unfoldable pub series_leb : Series → Series → Bool
series_leb a b = null_last_leb a.sort_title b.sort_title a.id b.id

unfoldable pub matches_query : (Text → Text → Bool) → (List Text → Text) → Text → Series → Bool
matches_query ilike dumps q s =
    let like = codes "%" ++ (lower q ++ codes "%") in
    is_empty q || ilike s.title like || ilike (dumps s.alt_titles) like

-- The series that a query keeps, before it is cut into pages.
unfoldable pub query_rows :
    (Text → Text → Bool)
    → (List Text → Text)
    → Option ℕ
    → Option Bool
    → Option Text
    → Database
    → List Series
query_rows ilike dumps library_id followed q db = Sort.sort series_leb (
    filterb
      (λ s.
        not s.deleted
        && if_given library_id (λ id. s.library_id == id)
        && if_given followed (λ f. (f && s.followed) || (not f && not s.followed))
        && matches_query ilike dumps (get_or q []) s)
      db.series)

unfoldable pub list_series :
    (Text → Text → Bool)
    → (List Text → Text)
    → Option ℕ
    → Option Bool
    → Option Text
    → ℕ
    → ℕ
    → Database
    → List Series
list_series ilike dumps library_id followed q limit offset db =
    take limit (drop offset (query_rows ilike dumps library_id followed q db))

pub record SeriesRead : Type 0 where
  pub row : Series
  pub external_ids : List SeriesExternalId
  pub volume_count : ℕ

unfoldable pub to_series_read : Database → Series → SeriesRead
to_series_read db s = record {
  row = s;
  external_ids = filterb (λ e. e.series_id == s.id) db.external_ids;
  volume_count = length (filterb (λ v. v.series_id == s.id) db.volumes);
}

-- `backfill_chapters`: an unknown series is refused before the download engine is called.
unfoldable pub backfill_chapters :
    Policy
    → (String → String → Result (List ScrapedChapter))
    → Floats
    → ℕ
    → Option ℕ
    → Option (List Text)
    → World
    → Result ℕ × World
backfill_chapters p get_chapters F id count language_priority w = elim (get_series id w.db) [
  | err e ↦ (err e, w)
  | ok s ↦ Follow.backfill_series p get_chapters F id count language_priority w
]
