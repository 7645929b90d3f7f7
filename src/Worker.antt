-- ===== src/Worker.antt =====
-- The task of a worker (`_run_task`, `_create_job`, `_set_job` and `_publish` of
-- app/services/downloader.py). What the work had not committed when it failed is rolled back.
pub mod Jobs
use mangasama.Base.{
  ℕ, suc, ◌+◌, String, Bool, true, false, not, ◌&&◌, ◌||◌, Option, none, some, List, [], ◌∷◌, ◌++◌,
  map,
}
use mangasama.Base.{
  if◌then◌else◌, ◌==◌, nat_eq, string_eq, option_eq, leb, length, contains, is_some, get_or,
}
use mangasama.Base.Dict.{Dict, lookup, insert}
use mangasama.Errors.{Result, Raised, ok, err, raised, ◌>>=◌, value_error, integrity_error}
use mangasama.Text.{Text, codes, text_eq, strip, lower, is_empty}
use mangasama.Models.{Library, Series, Volume, Page, Chapter, ProviderJob, Database}
use mangasama.Models.Query.{one_or_none, update_where, fresh}
use mangasama.Languages.{ScrapedChapter}
use mangasama.Sources
use mangasama.Sources.{ScraperRegistry}
use mangasama.Queue.{DownloadTask}
use mangasama.ComicInfo.{ComicInfo, ComicPageInfo, story_arc_number}
use mangasama.Cbz.{PageBlob, CbzResult, Codecs, pad_width, page_name, build}
use mangasama.FolderStrategy.{SeriesVolumeChapter, resolve_path}
use mangasama.Follow.{Floats, to_sort, library_of}
use mangasama.Package.{Outside}
use mangasama.Download.{download_chapter}

abbrev pub of_series : Option Series → Result Series
of_series none = err (raised value_error)
of_series (some s) = ok s

-- The `try` of `_run_task`.
unfoldable pub perform_task :
    Outside → ScraperRegistry → ℕ → DownloadTask → Database → Result (Option Chapter × Database)
perform_task O registry now task db = do
  row ← one_or_none (λ s. s.id == task.series_id) db.series
  s ← of_series row
  scraper ← (Sources.get task.provider registry).0
  l ← library_of db s
  download_chapter O now s task.chapter scraper.name l task.overwrite db

-- The job row that `_create_job` commits before the work.
unfoldable pub create_job : ℕ → DownloadTask → Database → ℕ × Database
create_job now task db =
    let id = fresh (λ j. j.id) db.jobs in
    (
      id,
      record db {
        jobs =
            db.jobs
            ++ (record {
              id = id;
              job_type = "download";
              provider = some task.provider;
              status = "running";
              started_at = some now;
              finished_at = none;
              failed = false;
              progress = 0;
            }
                ∷ []);
      },
    )

unfoldable pub set_job : ℕ → ℕ → String → ℕ → Bool → Database → Database
set_job now job_id status progress failed db = record db {
  jobs =
      update_where (λ j. j.id == job_id)
        (λ j. record j {
          status = status;
          progress = progress;
          failed = failed;
          finished_at = some now;
        })
        db.jobs;
}

-- What is published on the event bus: the job, its status and its progress.
pub record JobEvent : Type 0 where
  pub id : ℕ
  pub status : String
  pub progress : ℕ

abbrev pub published : ℕ → Bool → List JobEvent
published id failed =
    record { id = id; status = "running"; progress = 0 }
    ∷ (if failed
        then record { id = id; status = "error"; progress = 0 }
        else record { id = id; status = "done"; progress = 100 })
    ∷ []

-- A failure is recorded on the job; what the work had not committed is rolled back.
abbrev pub finish_task :
    ℕ → ℕ → Database → Result (Option Chapter × Database) → Database × List JobEvent
finish_task now job_id db (ok (ch, db')) =
    (set_job now job_id "done" 100 false db', published job_id false)
finish_task now job_id db (err e) = (set_job now job_id "error" 0 true db, published job_id true)

-- `_run_task`
unfoldable pub run_task :
    Outside → ScraperRegistry → ℕ → DownloadTask → Database → Database × List JobEvent
run_task O registry now task db =
    let (job_id, started) = create_job now task db in
    finish_task now job_id started (perform_task O registry now task started)
