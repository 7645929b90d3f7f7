-- ===== src/Tests/Downloads.antt =====
-- A download, the job of a task, and the archive.
use mangasama.Base.{
  ℕ, ◌+◌, ◌≤◌, ◌<◌, ◌≡◌, refl, ◌≢◌, ◌++◌, inl, inr, String, Bool, true, false, Option, none, some,
  List, [], ◌∷◌, map, length, All, arith,
}
use mangasama.Base.Dict.{insert, lookup}
use mangasama.Errors.{ok}
use mangasama.Text.{Text, codes, text_eq}
use mangasama.Models.{Chapter, DomainHealth, Database, ProviderJob}
use mangasama.Queue.{DownloadTask}
use mangasama.Follow.{Floats, task_for}
use mangasama.ComicInfo.{ComicInfo, build_xml}
use mangasama.ComicInfo.Roles.{build_xml_unknown_role}
use mangasama.Cbz.{PageBlob, Codecs, Entry, archive, page_name, pad_width}
use mangasama.Cbz.Names.{archive-names, page_name_distinct}
use mangasama.Package.{Outside, ScrapedPage, build_comic_info}
use mangasama.Download.{download_chapter, has_file}
use mangasama.Download.Again.{Stored, download_chapter-Stored, download_chapter_again}
use mangasama.Worker.{create_job, perform_task, run_task}
use mangasama.Worker.Jobs.{JobEnded, run_task-JobEnded}
use mangasama.Tests.{same_text, ch2_en, library, series, registry, database}

abbrev codecs : Codecs
codecs = record {
  convert_to_jpg = λ bytes. ok bytes;
  render = λ document. "xml";
  zip = λ entries. "zip";
  sha256_bytes = λ bytes. "hash";
  size = λ bytes. 3;
}

abbrev outside : Outside
outside = record {
  get_pages = λ name id. ok (
      record { index = 1; url = "u1"; width = none; height = none }
      ∷ record { index = 0; url = "u0"; width = none; height = none }
      ∷ []);
  get_bytes = λ name url. ok url;
  exists = λ path. true;
  codecs = codecs;
  nfc = same_text;
  floats = record { parse = λ s. none; zero_code = 0 };
}

abbrev stored_chapter : Chapter
stored_chapter = record {
  id = 10;
  volume_id = 4;
  number = codes "2";
  sort = 0;
  title = none;
  source_url = none;
  source_provider = "mangaworld";
  source_id = "c";
  language = codes "en";
  pages_count = some 2;
  file_path = some (codes "/data/manga/One Piece/Volume 001/One Piece - ch002 (en).cbz");
  cbz_size = some 3;
  cbz_sha256 = some "hash";
  downloaded_at = some 100;
  pages =
      record {
        index = 0;
        filename = codes "page001.jpg";
        source_url = some "u0";
        width = none;
        height = none;
        sha256 = some "hash";
      }
      ∷ record {
        index = 1;
        filename = codes "page002.jpg";
        source_url = some "u1";
        width = none;
        height = none;
        sha256 = some "hash";
      }
      ∷ [];
}

abbrev after : Database
after = record database {
  volumes =
      database.volumes
      ++ (record {
        id = 4;
        series_id = 7;
        number = codes "1";
        sort = 0;
        language = some (codes "en");
      }
          ∷ []);
  chapters = database.chapters ++ (stored_chapter ∷ []);
}

downloaded :
    download_chapter outside 100 series ch2_en "mangaworld" library false database
    ≡ ok (some stored_chapter, after)
unfolding download_chapter mangasama.Models.Query.one_or_none mangasama.Base.string_eq
    mangasama.Download.pack_and_store mangasama.Download.pack mangasama.Package.fetch_blobs
    mangasama.FolderStrategy.resolve_path mangasama.FolderStrategy.PurePaths.show_path
    mangasama.FolderStrategy.PurePaths.◌/◌ mangasama.FolderStrategy.PurePaths.parse_path
    mangasama.FolderStrategy.PurePaths.parts_of mangasama.FolderStrategy.PurePaths.split_slashes
    mangasama.FolderStrategy.PurePaths.is_part mangasama.FolderStrategy.PurePaths.anchor_of
    mangasama.Text.starts_with lookup mangasama.Cbz.build mangasama.Base.Sort.sort
    mangasama.Base.Sort.insert archive mangasama.Cbz.page_entries mangasama.Download.persist
    mangasama.Download.get_or_create_volume mangasama.Base.nat_eq text_eq
    mangasama.Download.volume_number_of mangasama.Base.option_eq mangasama.Package.new_pages
    mangasama.Package.distinct_pages mangasama.Package.url_by_index mangasama.Package.raw_by_index
    mangasama.Cbz.page_name mangasama.Cbz.pad_width mangasama.Text.Number.show_nat
    mangasama.Text.Number.zfill mangasama.Download.fill mangasama.Models.Query.fresh
    mangasama.Follow.to_sort mangasama.FolderStrategy.strategy_series_volume_chapter
    mangasama.FolderStrategy.series_folder mangasama.Paths.safe_filename
    mangasama.Paths.chapter_filename mangasama.Paths.volume_folder_name mangasama.Paths.with_title
    mangasama.Paths.with_language mangasama.Paths.pad mangasama.Paths.pad_number mangasama.Text.join
    mangasama.Text.Number.py_int mangasama.Text.Number.format_03d insert mangasama.Text.strip
    mangasama.Text.is_digit mangasama.Text.strip_by mangasama.Text.before mangasama.Text.after
downloaded = refl

download_chapter-Stored_example : Stored "mangaworld" ch2_en (some stored_chapter) after
download_chapter-Stored_example =
    download_chapter-Stored outside 100 series ch2_en "mangaworld" library false database downloaded

download_chapter_again_example :
    download_chapter outside 200 series ch2_en "mangaworld" library false after
    ≡ ok (some stored_chapter, after)
download_chapter_again_example =
    download_chapter_again outside outside 100 200 series series ch2_en "mangaworld" library library
      false database downloaded refl

abbrev task : DownloadTask
task = task_for 7 "mangaworld" ch2_en

run_task-JobEnded_example :
    JobEnded
      (create_job 100 task database).0
      100
      (create_job 100 task database).1
      (perform_task outside registry 100 task (create_job 100 task database).1)
      (run_task outside registry 100 task database).0
run_task-JobEnded_example = run_task-JobEnded outside registry 100 task database

abbrev blob : ℕ → PageBlob
blob i = record { bytes = "b"; index = i; width = none; height = none }

abbrev comic : ComicInfo
comic = build_comic_info series ch2_en library (blob 0 ∷ blob 1 ∷ [])

abbrev packed : List Entry
packed =
    record { name = codes "ComicInfo.xml"; stored = false; content = "xml" }
    ∷ record { name = codes "page001.jpg"; stored = true; content = "b" }
    ∷ record { name = codes "page002.jpg"; stored = true; content = "b" }
    ∷ []

archive-names_run :
    map (λ e. e.name) packed
    ≡ codes "ComicInfo.xml" ∷ map (λ p. page_name (pad_width 2) p.index) (blob 0 ∷ blob 1 ∷ [])
unfolding archive mangasama.Cbz.page_entries page_name mangasama.Text.Number.zfill pad_width
    mangasama.Text.Number.show_nat
archive-names_run = archive-names codecs (blob 0 ∷ blob 1 ∷ []) comic packed refl

page_name_distinct_run : page_name (pad_width 1200) 4 ≢ page_name (pad_width 1200) 40
page_name_distinct_run = page_name_distinct 1200 4 40 (λ e. absurd (omega (arith, e)))

build_xml_unknown_role_run :
    build_xml
      (record comic { authors = insert (codes "cover_artist") (codes "A" ∷ []) comic.authors })
    ≡ build_xml comic
unfolding text_eq
build_xml_unknown_role_run =
    build_xml_unknown_role comic (codes "cover_artist") (codes "A" ∷ []) refl
