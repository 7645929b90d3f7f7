-- ===== src/Worker/Jobs.antt =====
-- The job row of a task (`_run_task` of app/services/downloader.py).
use mangasama.Base.{
  ℕ, ◌≡◌, refl, ap, ◌∙◌, sym, String, Bool, true, false, Option, none, some, List, [], ◌∷◌, arith,
}
use mangasama.Base.{◌==◌, nat_eq}
use mangasama.Errors.{Result, ok, err, >>=-eq-ok, ok-injective}
use mathlib.Core.Path.{subst}
use mangasama.Text.{Text}
use mangasama.Models.{Library, Series, Volume, Page, Chapter, ProviderJob, Database}
use mangasama.Models.Query.{
  one_or_none, fresh, one_or_none-append, one_or_none-update, one_or_none-fresh,
}
use mangasama.Languages.{ScrapedChapter}
use mangasama.Sources
use mangasama.Sources.{ScraperRegistry}
use mangasama.Queue.{DownloadTask}
use mangasama.Cbz.{CbzResult}
use mangasama.Follow.{Floats, library_of}
use mangasama.Package.{Outside, ScrapedPage, distinct_pages}
use mangasama.Download.{
  is_volume, use_volume, get_or_create_volume, volume_number_of, is_chapter, fill, store, is_kept,
  write_chapter, pack, persist, pack_and_store, keep_or_fetch, download_chapter,
}
use mangasama.Worker.{of_series, perform_task, create_job, set_job, finish_task, run_task}

-- The work on a task leaves the jobs as they are.
abbrev SameJobs : Database → Option Chapter × Database → Type 0
SameJobs db x = x.1.jobs ≡ db.jobs

use_volume-jobs :
    (F : Floats) (sid : ℕ) (num language : Text) (db : Database) (o : Option Volume)
    → (use_volume F sid num language db o).1.jobs ≡ db.jobs
use_volume-jobs F sid num language db none = refl
use_volume-jobs F sid num language db (some v) = refl

get_or_create_volume-jobs :
    (F : Floats) (sid : ℕ) (number : Option Text) (language : Text) (db : Database)
    {x : Volume × Database}
    → get_or_create_volume F sid number language db ≡ ok x
    → x.1.jobs ≡ db.jobs
unfolding get_or_create_volume
get_or_create_volume-jobs F sid number language db {x} h =
    let (o, _, e) =
      >>=-eq-ok (one_or_none (is_volume sid (volume_number_of number) language) db.volumes) _ h in
    ap (λ (y : Volume × Database). y.1.jobs) (sym (ok-injective _ x e))
    ∙ use_volume-jobs F sid (volume_number_of number) language db o

store-jobs :
    (f : Chapter → Chapter) (provider : String) (scraped : ScrapedChapter)
    (existing : Option Chapter) (db : Database)
    → (store f provider scraped existing db).1.jobs ≡ db.jobs
store-jobs f provider scraped none db = refl
store-jobs f provider scraped (some old) db = refl

write_chapter-SameJobs :
    (f : Chapter → Chapter) (provider : String) (scraped : ScrapedChapter)
    (existing : Option Chapter) (db : Database) (b : Bool) {x : Option Chapter × Database}
    → write_chapter f provider scraped existing db b ≡ ok x
    → SameJobs db x
write_chapter-SameJobs f provider scraped existing db false h = cc
write_chapter-SameJobs f provider scraped existing db true {x} h =
    subst (SameJobs db) (ok-injective _ x h) (store-jobs f provider scraped existing db)

module _ (O : Outside) (now : ℕ) (s : Series) (scraped : ScrapedChapter) (provider : String)
    (l : Library) where
  persist-SameJobs :
      (existing : Option Chapter) (db : Database) (packed : List Page × CbzResult)
      {x : Option Chapter × Database}
      → persist O now s scraped provider l existing db packed ≡ ok x
      → SameJobs db x
  unfolding persist
  persist-SameJobs existing db (pages, result) e =
      let (found, v, e₁) =
        >>=-eq-ok (get_or_create_volume O.floats s.id scraped.volume_number scraped.language db) _
          e in
      write_chapter-SameJobs (fill O.floats now scraped found.0.id pages result) provider scraped
        existing found.1 (distinct_pages pages) e₁
      ∙ get_or_create_volume-jobs O.floats s.id scraped.volume_number scraped.language db v

  pack_and_store-SameJobs :
      (existing : Option Chapter) (listed : List ScrapedPage) (db : Database)
      {x : Option Chapter × Database}
      → pack_and_store O now s scraped provider l existing listed db ≡ ok x
      → SameJobs db x
  unfolding pack_and_store
  pack_and_store-SameJobs existing [] db {x} e = subst (SameJobs db) (ok-injective _ x e) refl
  pack_and_store-SameJobs existing (sp ∷ listed) db e =
      let (packed, _, e₁) = >>=-eq-ok (pack O now s scraped provider l (sp ∷ listed)) _ e in
      persist-SameJobs existing db packed e₁

  keep_or_fetch-SameJobs :
      (b : Bool) (existing : Option Chapter) (db : Database) {x : Option Chapter × Database}
      → keep_or_fetch O now s scraped provider l b existing db ≡ ok x
      → SameJobs db x
  keep_or_fetch-SameJobs true existing db {x} e = subst (SameJobs db) (ok-injective _ x e) refl
  keep_or_fetch-SameJobs false existing db e =
      let (listed, _, e₁) = >>=-eq-ok (O.get_pages provider scraped.external_id) _ e in
      pack_and_store-SameJobs existing listed db e₁

  download_chapter-SameJobs :
      (overwrite : Bool) (db : Database) {x : Option Chapter × Database}
      → download_chapter O now s scraped provider l overwrite db ≡ ok x
      → SameJobs db x
  unfolding download_chapter
  download_chapter-SameJobs overwrite db e =
      let (existing, _, e₁) =
        >>=-eq-ok (one_or_none (is_chapter provider scraped) db.chapters) _ e in
      keep_or_fetch-SameJobs (is_kept O.exists overwrite existing) existing db e₁

perform_task-SameJobs :
    (O : Outside) (registry : ScraperRegistry) (now : ℕ) (task : DownloadTask) (db : Database)
    {x : Option Chapter × Database}
    → perform_task O registry now task db ≡ ok x
    → SameJobs db x
unfolding perform_task
perform_task-SameJobs O registry now task db h =
    let (row, _, h₁) = >>=-eq-ok (one_or_none (λ s. s.id == task.series_id) db.series) _ h in
    let (s, _, h₂) = >>=-eq-ok (of_series row) _ h₁ in
    let (scraper, _, h₃) = >>=-eq-ok (Sources.get task.provider registry).0 _ h₂ in
    let (l, _, h₄) = >>=-eq-ok (library_of db s) _ h₃ in
    download_chapter-SameJobs O now s task.chapter scraper.name l task.overwrite db h₄

-- How a task has ended: `done` with the database of the work, or `error` with the tables as they were.
abbrev pub Ended : Database → Result (Option Chapter × Database) → ProviderJob → Database → Type 0
Ended db (ok x) j after =
    (j.status ≡ "done")
    × (j.progress ≡ 100)
    × (j.failed ≡ false)
    × (after.chapters ≡ x.1.chapters)
    × (after.volumes ≡ x.1.volumes)
Ended db (err e) j after =
    (j.status ≡ "error")
    × (j.progress ≡ 0)
    × (j.failed ≡ true)
    × (after.chapters ≡ db.chapters)
    × (after.volumes ≡ db.volumes)

-- The one row of the job that `create_job` made, once the task has ended.
abbrev pub JobEnded : ℕ → ℕ → Database → Result (Option Chapter × Database) → Database → Type 0
JobEnded job_id now db work after =
    (j : ProviderJob) × (one_or_none (λ j. j.id == job_id) after.jobs ≡ ok (some j))
    × (j.finished_at ≡ some now)
    × Ended db work j after

finish_task-JobEnded :
    (now job_id : ℕ) (db : Database) (j : ProviderJob) (work : Result (Option Chapter × Database))
    → one_or_none (λ j. j.id == job_id) db.jobs ≡ ok (some j)
    → ((x : Option Chapter × Database) → work ≡ ok x → SameJobs db x)
    → JobEnded job_id now db work (finish_task now job_id db work).0
unfolding set_job
finish_task-JobEnded now job_id db j (ok x) found same = (
  _,
  one_or_none-update (λ j. j.id == job_id) _ x.1.jobs j (λ y h. h)
      (ap (one_or_none (λ j. j.id == job_id)) (same x refl) ∙ found),
  refl,
  (refl, refl, refl, refl, refl),
)
finish_task-JobEnded now job_id db j (err e) found same = (
  _,
  one_or_none-update (λ j. j.id == job_id) _ db.jobs j (λ y h. h) found,
  refl,
  (refl, refl, refl, refl, refl),
)

-- However the work on a task goes, its job row is there once and finished: it is "done" with 100 %
-- if the work succeeded, and "error" with the chapters and volumes as they were if anything was
-- raised.
pub run_task-JobEnded :
    (O : Outside) (registry : ScraperRegistry) (now : ℕ) (task : DownloadTask) (db : Database)
    → JobEnded
        (create_job now task db).0
        now
        (create_job now task db).1
        (perform_task O registry now task (create_job now task db).1)
        (run_task O registry now task db).0
unfolding run_task create_job
run_task-JobEnded O registry now task db =
    let started = (create_job now task db).1 in
    finish_task-JobEnded now (create_job now task db).0 started _
      (perform_task O registry now task started)
      (one_or_none-append (λ j. j.id == fresh (λ j. j.id) db.jobs) db.jobs _ (ground arith)
        (one_or_none-fresh (λ j. j.id) db.jobs))
      (λ x h. perform_task-SameJobs O registry now task started h)
