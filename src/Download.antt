-- ===== src/Download.antt =====
-- `download_chapter` and `_get_or_create_volume` of app/services/downloader.py. An error gives no
-- database: the session is rolled back.
pub mod Again
use mangasama.Base.{
  ℕ, suc, ◌+◌, String, Bool, true, false, not, ◌&&◌, ◌||◌, Option, none, some, List, [], ◌∷◌, ◌++◌,
  map,
}
use mangasama.Base.{
  if◌then◌else◌, ◌==◌, nat_eq, string_eq, option_eq, leb, length, contains, is_some, get_or,
}
use mangasama.Base.Dict.{Dict, lookup, insert}
use mangasama.Base.Sort
use mangasama.Errors.{Result, Raised, ok, err, raised, ◌>>=◌, value_error, integrity_error}
use mangasama.Text.{Text, codes, text_eq, strip, lower, is_empty}
use mangasama.Models.{Library, Series, Volume, Page, Chapter, ProviderJob, Database}
use mangasama.Models.Query.{one_or_none, update_where, fresh}
use mangasama.Languages.{ScrapedChapter}
use mangasama.Sources
use mangasama.Sources.{ScraperRegistry}
use mangasama.Queue.{DownloadTask}
use mangasama.ComicInfo.{ComicInfo, ComicPageInfo, story_arc_number}
use mangasama.Cbz.{PageBlob, CbzResult, Codecs, pad_width, page_name, build}
use mangasama.FolderStrategy.{SeriesVolumeChapter, resolve_path}
use mangasama.FolderStrategy.PurePaths.{show_path}
use mangasama.Follow.{Floats, to_sort, library_of}
use mangasama.Package.{
  Outside, ScrapedPage, or_none, build_comic_info, fetch_blobs, by_index, new_pages, distinct_pages,
}

abbrev or_one_text : Text → Text
or_one_text s = if is_empty s then codes "1" else s

-- `(number or "1").strip() or "1"`
unfoldable pub volume_number_of : Option Text → Text
volume_number_of none = codes "1"
volume_number_of (some n) = or_one_text (strip n)

abbrev pub is_volume : ℕ → Text → Text → Volume → Bool
is_volume sid num language v = v.series_id == sid && v.number == num && v.language == some language

abbrev pub use_volume : Floats → ℕ → Text → Text → Database → Option Volume → Volume × Database
use_volume F sid num language db (some v) = (v, db)
use_volume F sid num language db none =
    let v : Volume = record {
      id = fresh (λ v. v.id) db.volumes;
      series_id = sid;
      number = num;
      sort = to_sort F (some num);
      language = some language;
    } in
    (v, record db { volumes = db.volumes ++ (v ∷ []) })

-- `_get_or_create_volume`
unfoldable pub get_or_create_volume :
    Floats → ℕ → Option Text → Text → Database → Result (Volume × Database)
get_or_create_volume F sid number language db = do
  found ← one_or_none (is_volume sid (volume_number_of number) language) db.volumes
  ok (use_volume F sid (volume_number_of number) language db found)

-- The unique key of a chapter.
abbrev pub is_chapter : String → ScrapedChapter → Chapter → Bool
is_chapter provider scraped ch =
    ch.source_provider == provider
    && ch.source_id == scraped.external_id
    && ch.language == scraped.language

abbrev pub has_file : (Text → Bool) → Option Text → Bool
has_file exists none = false
has_file exists (some path) = not (is_empty path) && exists path

-- The attributes that are set on a chapter, new or old.
unfoldable pub fill : Floats → ℕ → ScrapedChapter → ℕ → List Page → CbzResult → Chapter → Chapter
fill F now scraped volume_id pages result ch = record ch {
  volume_id = volume_id;
  number = scraped.number;
  sort = to_sort F (some scraped.number);
  title = scraped.title;
  source_url = or_none scraped.url;
  pages_count = some result.page_count;
  file_path = some result.path;
  cbz_size = some result.size_bytes;
  cbz_sha256 = some result.sha256;
  downloaded_at = some now;
  pages = pages;
}

abbrev pub blank_chapter : ℕ → String → ScrapedChapter → Chapter
blank_chapter id provider scraped = record {
  id = id;
  volume_id = 0;
  number = [];
  sort = 0;
  title = none;
  source_url = none;
  source_provider = provider;
  source_id = scraped.external_id;
  language = scraped.language;
  pages_count = none;
  file_path = none;
  cbz_size = none;
  cbz_sha256 = none;
  downloaded_at = none;
  pages = [];
}

-- A new row, or the old one with its attributes set.
abbrev pub store :
    (Chapter → Chapter) → String → ScrapedChapter → Option Chapter → Database → Chapter × Database
store f provider scraped none db =
    let ch = f (blank_chapter (fresh (λ c. c.id) db.chapters) provider scraped) in
    (ch, record db { chapters = db.chapters ++ (ch ∷ []) })
store f provider scraped (some old) db =
    (f old, record db { chapters = update_where (is_chapter provider scraped) f db.chapters })

-- A chapter whose file is there is left alone, unless it is to be overwritten.
abbrev pub is_kept : (Text → Bool) → Bool → Option Chapter → Bool
is_kept exists overwrite none = false
is_kept exists overwrite (some ch) = has_file exists ch.file_path && not overwrite

abbrev pub context : Series → ScrapedChapter → SeriesVolumeChapter
context s scraped = record {
  series_title = s.title;
  chapter_number = scraped.number;
  chapter_title = scraped.title;
  language = some scraped.language;
  volume_number = scraped.volume_number;
}

-- The end of `download_chapter`: the volume, the chapter and the pages are written.
abbrev pub write_chapter :
    (Chapter → Chapter)
    → String
    → ScrapedChapter
    → Option Chapter
    → Database
    → Bool
    → Result (Option Chapter × Database)
write_chapter f provider scraped existing db false = err (raised integrity_error)
write_chapter f provider scraped existing db true =
    let stored = store f provider scraped existing db in ok (some stored.0, stored.1)

module _ (O : Outside) (now : ℕ) (s : Series) (scraped : ScrapedChapter) (provider : String)
    (l : Library) where
  -- The steps 4 to 7 of `download_chapter`: the rows of the pages, and the archive.
  unfoldable pub pack : List ScrapedPage → Result (List Page × CbzResult)
  pack scraped_pages = do
    fetched ← fetch_blobs O provider scraped_pages
    let blobs = Sort.sort by_index fetched
    path ← resolve_path O.nfc l.folder_strategy l.root_path (context s scraped)
    result ← build O.codecs blobs (build_comic_info s scraped l blobs) (show_path path.path)
    ok (new_pages O.codecs scraped_pages blobs, result)

  -- Step 8.
  unfoldable pub persist :
      Option Chapter → Database → List Page × CbzResult → Result (Option Chapter × Database)
  persist existing db (pages, result) = do
    found ← get_or_create_volume O.floats s.id scraped.volume_number scraped.language db
    write_chapter (fill O.floats now scraped found.0.id pages result) provider scraped existing
        found.1 (distinct_pages pages)

  unfoldable pub pack_and_store :
      Option Chapter → List ScrapedPage → Database → Result (Option Chapter × Database)
  pack_and_store existing [] db = ok (none, db)
  pack_and_store existing (sp ∷ scraped_pages) db = do
    packed ← pack (sp ∷ scraped_pages)
    persist existing db packed

  abbrev pub keep_or_fetch : Bool → Option Chapter → Database → Result (Option Chapter × Database)
  keep_or_fetch true existing db = ok (existing, db)
  keep_or_fetch false existing db = do
    scraped_pages ← O.get_pages provider scraped.external_id
    pack_and_store existing scraped_pages db

  unfoldable pub download_chapter : Bool → Database → Result (Option Chapter × Database)
  download_chapter overwrite db = do
    existing ← one_or_none (is_chapter provider scraped) db.chapters
    keep_or_fetch (is_kept O.exists overwrite existing) existing db
