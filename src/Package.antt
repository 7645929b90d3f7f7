-- ===== src/Package.antt =====
-- The parts of `download_chapter` (app/services/downloader.py) that read no table: the fetched pages,
-- their rows, and the ComicInfo of a chapter. What the sources and the network answer, which files
-- exist, and the codecs of the archive are the parameters in `Outside`. The domain of a page, which
-- only names a rate limit, is left out.
use mangasama.Base.{ℕ, String, Bool, true, not, ◌&&◌, Option, none, some, List, [], ◌∷◌, ◌++◌, map}
use mangasama.Base.{
  if◌then◌else◌, ◌==◌, nat_eq, string_eq, option_eq, leb, length, contains, get_or,
}
use mangasama.Base.Dict.{Dict, lookup, insert}
use mangasama.Errors.{Result, ok, ◌>>=◌}
use mangasama.Text.{Text, codes, text_eq, lower}
use mangasama.Models.{Library, Series, Page}
use mangasama.Languages.{ScrapedChapter}
use mangasama.ComicInfo.{ComicInfo, story_arc_number}
use mangasama.Cbz.{PageBlob, Codecs, pad_width, page_name}
use mangasama.Follow.{Floats}

pub record ScrapedPage : Type 0 where
  pub index : ℕ
  pub url : String
  pub width : Option ℕ
  pub height : Option ℕ

pub record Outside : Type 0 where
  pub get_pages : String → String → Result (List ScrapedPage)
  pub get_bytes : String → String → Result String
  pub exists : Text → Bool
  pub codecs : Codecs
  pub nfc : Text → Text
  pub floats : Floats

-- `x or None`
abbrev pub or_none : String → Option String
or_none s = if s == "" then none else some s

-- `authors.setdefault(role.lower(), []).append(name)`
unfoldable pub group_authors : Dict Text (List Text) → List (Text × Text) → Dict Text (List Text)
group_authors d [] = d
group_authors d ((role, name) ∷ more) =
    let old = get_or (lookup (lower role) d) [] in
    group_authors (insert (lower role) (old ++ (name ∷ [])) d) more

abbrev text_or_empty : Option Text → Text
text_or_empty none = []
text_or_empty (some t) = t

-- `_build_comic_info`, and the pages that `download_chapter` adds. The text
-- of the address comes as code points.
unfoldable pub build_comic_info : Series → ScrapedChapter → Library → List PageBlob → ComicInfo
build_comic_info s scraped l blobs = record {
  title = text_or_empty scraped.title;
  series = s.title;
  number = scraped.number;
  volume = scraped.volume_number;
  summary = s.summary;
  language_iso = scraped.language;
  page_count = 0;
  web = elim (or_none scraped.url) [ none ↦ none | some t ↦ some (codes t) ];
  publisher = none;
  manga = true;
  right_to_left = not (l.type == "manhua");
  authors = group_authors [] s.authors;
  genres = s.genres;
  tags = s.tags;
  translator = elim scraped.scanlation_group [ none ↦ none | some t ↦ some (codes t) ];
  story_arc = some s.title;
  story_arc_number = some (story_arc_number scraped.volume_number scraped.number);
  pages = map (λ b. record { index = b.index; width = b.width; height = b.height }) blobs;
}

-- The bytes of each page, fetched in turn.
unfoldable pub fetch_blobs : Outside → String → List ScrapedPage → Result (List PageBlob)
fetch_blobs O provider [] = ok []
fetch_blobs O provider (sp ∷ pages) = do
  raw ← O.get_bytes provider sp.url
  rest ← fetch_blobs O provider pages
  ok (record { bytes = raw; index = sp.index; width = sp.width; height = sp.height } ∷ rest)

abbrev pub by_index : PageBlob → PageBlob → Bool
by_index a b = leb a.index b.index

-- `{sp.index: sp.url for sp in scraped_pages}`
unfoldable pub url_by_index : Dict ℕ String → List ScrapedPage → Dict ℕ String
url_by_index d [] = d
url_by_index d (sp ∷ pages) = url_by_index (insert sp.index sp.url d) pages

unfoldable pub raw_by_index : Dict ℕ String → List PageBlob → Dict ℕ String
raw_by_index d [] = d
raw_by_index d (b ∷ blobs) = raw_by_index (insert b.index b.bytes d) blobs

-- The rows of the pages.
unfoldable pub new_pages : Codecs → List ScrapedPage → List PageBlob → List Page
new_pages C scraped_pages blobs =
    map
      (λ b. record {
        index = b.index;
        filename = page_name (pad_width (length blobs)) b.index;
        source_url = lookup b.index (url_by_index [] scraped_pages);
        width = b.width;
        height = b.height;
        sha256 = some (C.sha256_bytes (get_or (lookup b.index (raw_by_index [] blobs)) b.bytes));
      })
      blobs

-- The constraint `uq_chapter_page`.
unfoldable pub distinct_pages : List Page → Bool
distinct_pages [] = true
distinct_pages (p ∷ pages) =
    not (contains (map (λ q. q.index) pages) p.index) && distinct_pages pages
