-- ===== src/ChapterService/Files.antt =====
-- The chapters that are listed, deleted and downloaded again (app/services/chapter.py).
use mangasama.Base.{
  ℕ, ◌≡◌, refl, ap, ◌∙◌, sym, Bool, true, false, not, Option, List, [], ◌∷◌, ◌++◌, arith,
}
use mangasama.Base.{◌==◌, nat_eq, filterb}
use mathlib.Core.Path.{subst}
use mangasama.Errors.{ok, err, raised, chapter_not_found_db, >>=-eq-ok, ok-injective}
use mangasama.Text.{Text, text_eq}
use mangasama.Models.{Chapter, Database}
use mangasama.Models.Query.{one_or_none}
use mangasama.Follow.{World}
use mangasama.Queue.{DownloadTask, enqueue, IsBounded, enqueue-IsBounded}
use mangasama.ChapterService.{
  get_chapter, download_chapter_file, delete_chapter, as_scraped, found_volume, redownload_chapter,
}

no_rows :
    (id : ℕ) (rows : List Chapter)
    → filterb (λ c. c.id == id) (filterb (λ c. not (c.id == id)) rows) ≡ []
no_rows id [] = refl
no_rows id (c ∷ rows) = ground (arith, no_rows id rows)

other_rows :
    (id j : ℕ) (rows : List Chapter)
    → (id == j) ≡ false
    → filterb (λ c. c.id == j) (filterb (λ c. not (c.id == id)) rows)
      ≡ filterb (λ c. c.id == j) rows
other_rows id j [] h = refl
other_rows id j (c ∷ rows) h = ground (arith, other_rows id j rows h)

-- After a chapter is deleted it is not found, its file is not given any more even where it is
-- still there, and every other chapter is found as before.
pub get_chapter-delete :
    (exists removable : Text → Bool) (data_dir : Text) (id : ℕ) (db : Database) {file : Option Text}
    {db' : Database}
    → delete_chapter exists removable data_dir id db ≡ ok (file, db')
    → (get_chapter id db' ≡ err (raised chapter_not_found_db))
      × (download_chapter_file exists data_dir id db' ≡ err (raised chapter_not_found_db))
      × ((j : ℕ) → (id == j) ≡ false → get_chapter j db' ≡ get_chapter j db)
unfolding delete_chapter download_chapter_file get_chapter one_or_none
get_chapter-delete exists removable data_dir id db {file} {db'} h =
    let (ch, got, h₁) = >>=-eq-ok (get_chapter id db) _ h in
    subst {A = Option Text × Database}
      (λ x.
        (get_chapter id x.1 ≡ err (raised chapter_not_found_db))
        × (download_chapter_file exists data_dir id x.1 ≡ err (raised chapter_not_found_db))
        × ((j : ℕ) → (id == j) ≡ false → get_chapter j x.1 ≡ get_chapter j db))
      (ok-injective _ (file, db') h₁)
      (
        rw (no_rows id db.chapters) refl,
        rw (no_rows id db.chapters) refl,
        λ j differ. rw (other_rows id j db.chapters differ) refl,
      )

-- A chapter that is downloaded again stands last in the queue, behind the tasks that were there, as
-- a task to overwrite with the key of its row; a queue within its size stays within it.
pub redownload_chapter-last :
    (id : ℕ) (w : World) {n : ℕ} {w' : World}
    → IsBounded w.queue
    → redownload_chapter id w ≡ ok (n, w')
    → (ch : Chapter) × (task : DownloadTask) × (get_chapter id w.db ≡ ok ch)
      × (w'.queue.tasks ≡ w.queue.tasks ++ (task ∷ []))
      × (task.chapter.external_id ≡ ch.source_id)
      × (task.language ≡ ch.language)
      × (task.overwrite ≡ true)
      × IsBounded w'.queue
      × (w'.db ≡ w.db)
unfolding redownload_chapter as_scraped
redownload_chapter-last id w {n} {w'} bounded h =
    let (ch, got, h₁) = >>=-eq-ok (get_chapter id w.db) _ h in
    let (found, e, h₂) = >>=-eq-ok (one_or_none (λ v. v.id == ch.volume_id) w.db.volumes) _ h₁ in
    let (v, e', h₃) = >>=-eq-ok (found_volume found) _ h₂ in
    let task : DownloadTask = record {
      series_id = v.series_id;
      provider = ch.source_provider;
      chapter = as_scraped ch v;
      language = ch.language;
      overwrite = true;
    } in
    let (queue, e'', h₄) = >>=-eq-ok (enqueue task w.queue) _ h₃ in
    let (b, tasks, _) = enqueue-IsBounded task w.queue bounded e'' in
    let same : ◌≡◌ {A = ℕ × World} (1, record w { queue = queue }) (n, w') =
      ok-injective _ (n, w') h₄ in
    (
      ch,
      task,
      got,
      sym (ap (λ x. x.1.queue.tasks) same) ∙ tasks,
      refl,
      refl,
      refl,
      subst {A = ℕ × World} (λ x. IsBounded x.1.queue) same b,
      sym (ap (λ x. x.1.db) same),
    )
