-- ===== src/ChapterService.antt =====
-- app/services/chapter.py, over the tables of Models. The disk is a parameter: which files there are,
-- and which of them can be removed. Removing a file is the value that names it.
pub mod Files
use mangasama.Base.{
  ℕ, zero, suc, String, Bool, true, false, not, ◌&&◌, ◌||◌, Option, none, some, List, [], ◌∷◌, ◌++◌,
}
use mangasama.Base.{
  if◌then◌else◌, ◌==◌, nat_eq, ltb, leb, take, drop, filterb, get_or, is_some, find_first,
}
use mangasama.Base.Sort
use mangasama.Errors.{
  Result, ok, err, raised, ◌>>=◌, chapter_not_found_db, download_queue_full, exception,
}
use mangasama.Text.{Text, codes, text_eq, is_empty, starts_with}
use mangasama.Models.{Chapter, Volume, Database}
use mangasama.Models.Query.{one_or_none}
use mangasama.Languages.{ScrapedChapter}
use mangasama.Follow.{World, in_series}
use mangasama.Queue.{DownloadTask, DownloadQueue, enqueue}

-- `_italian_first_order`
unfoldable pub italian_first_order : Text → ℕ
italian_first_order language =
    if language == codes "it" then 0 else if language == codes "en" then 1 else 2

unfoldable pub italian_leb : Chapter → Chapter → Bool
italian_leb a b =
    let m = italian_first_order a.language in
    let n = italian_first_order b.language in ltb m n || m == n && leb a.sort b.sort

abbrev pub if_given {ℓ} : {A : Type ℓ} → Option A → (A → Bool) → Bool
if_given none p = true
if_given (some a) p = p a

unfoldable pub chosen : Option ℕ → Option Text → Option Bool → Database → List Chapter
chosen series_id language downloaded db =
    filterb
      (λ ch.
        if_given series_id (λ sid. in_series db sid ch)
        && if_given language (λ l. ch.language == l)
        && if_given downloaded
            (λ d. if d then is_some ch.file_path else not (is_some ch.file_path)))
      db.chapters

unfoldable pub list_chapters :
    Option ℕ → Option Text → Option Bool → ℕ → ℕ → Database → List Chapter
list_chapters series_id language downloaded limit offset db =
    take limit (drop offset (Sort.sort italian_leb (chosen series_id language downloaded db)))

abbrev pub found_chapter : Option Chapter → Result Chapter
found_chapter none = err (raised chapter_not_found_db)
found_chapter (some ch) = ok ch

unfoldable pub get_chapter : ℕ → Database → Result Chapter
get_chapter id db = one_or_none (λ ch. ch.id == id) db.chapters >>= found_chapter

-- The path of the file, under the data directory unless it is absolute.
unfoldable pub absolute : Text → Text → Text
absolute data_dir path = if starts_with path (codes "/") then path else data_dir ++ (b'/' ∷ path)

-- The file name that the row gives, if it is not empty.
unfoldable pub file_of : Text → Chapter → Option Text
file_of data_dir ch =
    let path = get_or ch.file_path [] in
    if is_empty path then none else some (absolute data_dir path)

abbrev pub existing_file : (Text → Bool) → Option Text → Result Text
existing_file exists none = err (raised chapter_not_found_db)
existing_file exists (some p) = if exists p then ok p else err (raised chapter_not_found_db)

-- The absolute path. The name of the file is its last part.
unfoldable pub download_chapter_file : (Text → Bool) → Text → ℕ → Database → Result Text
download_chapter_file exists data_dir id db = do
  ch ← get_chapter id db
  existing_file exists (file_of data_dir ch)

-- The file that is removed: one that there is and that the system lets go.
abbrev pub unlinked : (Text → Bool) → (Text → Bool) → Option Text → Option Text
unlinked exists removable none = none
unlinked exists removable (some p) = if exists p && removable p then some p else none

unfoldable pub delete_chapter :
    (Text → Bool) → (Text → Bool) → Text → ℕ → Database → Result (Option Text × Database)
delete_chapter exists removable data_dir id db = do
  ch ← get_chapter id db
  ok (
    unlinked exists removable (file_of data_dir ch),
    record db { chapters = filterb (λ c. not (c.id == id)) db.chapters },
  )

-- The chapter as a source would list it.
unfoldable pub as_scraped : Chapter → Volume → ScrapedChapter
as_scraped ch v = record {
  source = ch.source_provider;
  external_id = ch.source_id;
  url = get_or ch.source_url "";
  number = ch.number;
  title = ch.title;
  language = ch.language;
  volume_number = some v.number;
  scanlation_group = none;
}

-- `ch.volume`, which a foreign key says is there.
abbrev pub found_volume : Option Volume → Result Volume
found_volume none = err (raised exception)
found_volume (some v) = ok v

unfoldable pub redownload_chapter : ℕ → World → Result (ℕ × World)
redownload_chapter id w = do
  ch ← get_chapter id w.db
  found ← one_or_none (λ v. v.id == ch.volume_id) w.db.volumes
  v ← found_volume found
  queue ←
      enqueue
        (record {
          series_id = v.series_id;
          provider = ch.source_provider;
          chapter = as_scraped ch v;
          language = ch.language;
          overwrite = true;
        })
        w.queue
  ok (1, record w { queue = queue })
