-- ===== src/Libraries.antt =====
-- app/services/library.py, over the tables of Models. Whether a folder can be made and written is the
-- parameter `writable`; the unique name of a library, which the table asks for, is the test
-- `unique_names` where the session flushes.
pub mod Rows
use mangasama.Base.{
  ℕ, ◌+◌, String, Bool, true, false, not, ◌&&◌, ◌||◌, Option, none, some, List, [], ◌∷◌, ◌++◌, map,
}
use mangasama.Base.{
  if◌then◌else◌, ◌==◌, nat_eq, string_eq, leb, length, filterb, contains, is_some, get_or, anyb,
}
use mangasama.Base.Sort
use mangasama.Errors.{Result, ok, err, raised, ◌>>=◌, value_error, library_not_found}
use mangasama.Text.{Text}
use mangasama.Models.{Library, Series, Volume, Chapter, Database}
use mangasama.Models.Query.{one_or_none, update_where, fresh}
use mangasama.Sources.{Policy, is_scraper_available}

pub record LibraryCreate : Type 0 where
  pub name : String
  pub type : String
  pub root_path : Text
  pub folder_strategy : String
  pub cover_strategy : String
  pub providers : List String
  pub italian_priority : Bool
  pub follow_interval_hours : ℕ
  pub jpg_quality : ℕ

pub record LibraryUpdate : Type 0 where
  pub name : Option String
  pub type : Option String
  pub root_path : Option Text
  pub folder_strategy : Option String
  pub cover_strategy : Option String
  pub providers : Option (List String)
  pub italian_priority : Option Bool
  pub follow_interval_hours : Option ℕ
  pub jpg_quality : Option ℕ

abbrev pub none_unknown : List String → Result (Unit {0})
none_unknown [] = ok tt
none_unknown (name ∷ names) = err (raised value_error)

-- `_validate_providers`
unfoldable pub validate_providers : Policy → List String → Result (Unit {0})
validate_providers p providers =
    none_unknown (filterb (λ name. not (is_scraper_available p name)) providers)

abbrev pub is_library : Bool → ℕ → Library → Bool
is_library include_deleted id l = l.id == id && (include_deleted || not l.deleted)

unfoldable pub list_libraries : Bool → Database → List Library
list_libraries include_deleted db =
    Sort.sort (λ a b. leb a.id b.id) (filterb (λ l. include_deleted || not l.deleted) db.libraries)

abbrev pub found_library : Option Library → Result Library
found_library none = err (raised library_not_found)
found_library (some l) = ok l

unfoldable pub get_library : Bool → ℕ → Database → Result Library
get_library include_deleted id db =
    one_or_none (is_library include_deleted id) db.libraries >>= found_library

pub record LibraryStats : Type 0 where
  pub series_count : ℕ
  pub chapter_count : ℕ
  pub downloaded_chapter_count : ℕ
  pub total_cbz_bytes : ℕ

-- The join of chapters, volumes and series of a library.
unfoldable pub in_library : Database → ℕ → Chapter → Bool
in_library db id ch =
    anyb
      (λ v.
        v.id == ch.volume_id
        && anyb (λ s. s.id == v.series_id && s.library_id == id && not s.deleted) db.series)
      db.volumes

unfoldable pub total_bytes : List Chapter → ℕ
total_bytes [] = 0
total_bytes (ch ∷ chs) = get_or ch.cbz_size 0 + total_bytes chs

unfoldable pub stats_of : Database → ℕ → LibraryStats
stats_of db id =
    let chapters = filterb (in_library db id) db.chapters in
    record {
      series_count = length (filterb (λ s. s.library_id == id && not s.deleted) db.series);
      chapter_count = length chapters;
      downloaded_chapter_count = length (filterb (λ ch. is_some ch.downloaded_at) chapters);
      total_cbz_bytes = total_bytes chapters;
    }

unfoldable pub library_stats : ℕ → Database → Result LibraryStats
library_stats id db = do l ← get_library false id db; ok (stats_of db id)

-- `_ensure_root_path`
abbrev pub ensure_root_path : (Text → Bool) → Text → Result (Unit {0})
ensure_root_path writable path = if writable path then ok tt else err (raised value_error)

unfoldable pub unique_names : List Library → Bool
unique_names [] = true
unique_names (l ∷ ls) = not (contains (map (λ m. m.name) ls) l.name) && unique_names ls

-- `session.flush()`, whose `IntegrityError` becomes a `ValueError`
abbrev pub flush_libraries : List Library → Database → Result Database
flush_libraries rows db =
    if unique_names rows then ok (record db { libraries = rows }) else err (raised value_error)

abbrev pub new_library : LibraryCreate → Database → Library
new_library payload db = record {
  id = fresh (λ l. l.id) db.libraries;
  name = payload.name;
  type = payload.type;
  root_path = payload.root_path;
  folder_strategy = payload.folder_strategy;
  cover_strategy = payload.cover_strategy;
  providers = payload.providers;
  italian_priority = payload.italian_priority;
  follow_interval_hours = payload.follow_interval_hours;
  jpg_quality = payload.jpg_quality;
  deleted = false;
}

-- Only the fields that were sent.
unfoldable pub patched : LibraryUpdate → Library → Library
patched patch l = record l {
  name = get_or patch.name l.name;
  type = get_or patch.type l.type;
  root_path = get_or patch.root_path l.root_path;
  folder_strategy = get_or patch.folder_strategy l.folder_strategy;
  cover_strategy = get_or patch.cover_strategy l.cover_strategy;
  providers = get_or patch.providers l.providers;
  italian_priority = get_or patch.italian_priority l.italian_priority;
  follow_interval_hours = get_or patch.follow_interval_hours l.follow_interval_hours;
  jpg_quality = get_or patch.jpg_quality l.jpg_quality;
}

abbrev pub if_sent {ℓ} : {A : Type ℓ} → (A → Result (Unit {0})) → Option A → Result (Unit {0})
if_sent f none = ok tt
if_sent f (some a) = f a

module _ (p : Policy) (writable : Text → Bool) where
  unfoldable pub create_library : LibraryCreate → Database → Result (Library × Database)
  create_library payload db = do
    valid ← validate_providers p payload.providers
    folder ← ensure_root_path writable payload.root_path
    db' ← flush_libraries (db.libraries ++ (new_library payload db ∷ [])) db
    ok (new_library payload db, db')

  unfoldable pub update_library : ℕ → LibraryUpdate → Database → Result (Library × Database)
  update_library id patch db = do
    l ← get_library false id db
    valid ← if_sent (validate_providers p) patch.providers
    folder ← if_sent (ensure_root_path writable) patch.root_path
    db' ← flush_libraries (update_where (is_library false id) (patched patch) db.libraries) db
    ok (patched patch l, db')

unfoldable pub soft_delete_library : ℕ → Database → Result (Library × Database)
soft_delete_library id db = do
  l ← get_library false id db
  ok (
    record l { deleted = true },
    record db {
      libraries =
          update_where (is_library false id) (λ m. record m { deleted = true }) db.libraries;
    },
  )
