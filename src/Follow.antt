-- ===== src/Follow.antt =====
-- app/services/follow.py: a series' chapters are listed Italian-first, one for each number, and the
-- ones that the database lacks are put on the download queue. What a source answers is the parameter
-- `get_chapters`; floats, which sort the numbers, are given by codes in the order of the floats.
pub mod Dedup
pub mod Check
pub mod Provider
pub mod Missing
pub mod Sweep
use mangasama.Base.{
  ℕ, ◌+◌, ◌*◌, String, Bool, true, false, not, ◌&&◌, ◌||◌, Option, none, some, List, [], ◌∷◌, ◌++◌,
  map,
}
use mangasama.Base.{
  ◌==◌, nat_eq, string_eq, pair_eq, contains, if◌then◌else◌, ltb, leb, length, take, filterb, anyb,
  find_first, is_some,
}
use mangasama.Base.Dict.{Dict, lookup, insert}
use mangasama.Base.Sort
use mangasama.Errors.{
  ErrorClass, Raised, Result, ok, err, raised, ◌>>=◌, series_not_found_db, config_error, exception,
}
use mangasama.Text.{Text, codes, text_eq, strip, is_empty, is_digit}
use mangasama.Models.{Library, Series, SeriesExternalId, Volume, Chapter, FollowLog, Database}
use mangasama.Models.Query.{one_or_none, update_where}
use mangasama.Languages.{ScrapedChapter, select_chapters}
use mangasama.Sources
use mangasama.Sources.{Policy, is_scraper_available}
use mangasama.Queue.{DownloadTask, DownloadQueue, enqueue}

-- `float(s)`, as a code; `none` is the `ValueError`.
pub record Floats : Type 0 where
  pub parse : Text → Option ℕ
  pub zero_code : ℕ

-- `_to_sort` of app/services/downloader.py
unfoldable pub to_sort : Floats → Option Text → ℕ
to_sort F none = F.zero_code
to_sort F (some num) =
    let s = strip num in
    let digits = filterb (λ c. is_digit c || c == b'.') s in
    if is_empty s then F.zero_code else elim (F.parse s) [
      | some v ↦ v
      | none ↦
          if is_empty digits
          then F.zero_code
          else elim (F.parse digits) [ some v ↦ v | none ↦ F.zero_code ]
    ]

-- What the process holds: the tables and the queue.
pub record World : Type 0 where
  pub db : Database
  pub queue : DownloadQueue

unfoldable pub load_series : ℕ → Database → Result Series
load_series series_id db = do
  found ← one_or_none (λ s. s.id == series_id && not s.deleted) db.series
  elim found [ none ↦ err (raised series_not_found_db) | some s ↦ ok s ]

-- `series.library`. A foreign key says that it is there.
unfoldable pub library_of : Database → Series → Result Library
library_of db s = do
  found ← one_or_none (λ l. l.id == s.library_id) db.libraries
  elim found [ none ↦ err (raised exception) | some l ↦ ok l ]

-- `{eid.provider: eid.external_id for eid in series.external_ids}`
unfoldable pub by_provider_from :
    Dict String String → List SeriesExternalId → ℕ → Dict String String
by_provider_from d [] sid = d
by_provider_from d (e ∷ es) sid =
    by_provider_from (if e.series_id == sid then insert e.provider e.external_id d else d) es sid

unfoldable pub by_provider : List SeriesExternalId → ℕ → Dict String String
by_provider es sid = by_provider_from [] es sid

abbrev pub or_list : List String → List String → List String
or_list [] ys = ys
or_list (x ∷ xs) ys = x ∷ xs

-- `list(series.source_priority) or list(series.library.providers)`
abbrev pub provider_order : Series → Library → List String
provider_order s l = or_list s.source_priority l.providers

abbrev pub usable : Policy → Dict String String → String → Bool
usable p ids name = is_some (lookup name ids) && is_scraper_available p name

-- One turn of the loop of `_pick_provider`, by the name's external id and its availability.
abbrev pub choose :
    String → Option String → Bool → Result (String × String) → Result (String × String)
choose name none available rest = rest
choose name (some ext) true rest = ok (name, ext)
choose name (some ext) false rest = rest

unfoldable pub first_usable : Policy → Dict String String → List String → Result (String × String)
first_usable p ids [] = err (raised config_error)
first_usable p ids (name ∷ names) =
    choose name (lookup name ids) (is_scraper_available p name) (first_usable p ids names)

unfoldable pub pick_provider :
    Policy → Series → Library → Dict String String → Result (String × String)
pick_provider p s l ids = first_usable p ids (provider_order s l)

-- The join of `chapters` and `volumes`: `{(source_id, language)}` of the series and provider.
unfoldable pub in_series : Database → ℕ → Chapter → Bool
in_series db sid ch = anyb (λ v. v.id == ch.volume_id && v.series_id == sid) db.volumes

unfoldable pub existing_keys : Database → ℕ → String → List (String × Text)
existing_keys db sid provider =
    map (λ ch. (ch.source_id, ch.language))
      (filterb (λ ch. in_series db sid ch && ch.source_provider == provider) db.chapters)

-- The loop over `seen_numbers`.
unfoldable pub dedup : List Text → List ScrapedChapter → List ScrapedChapter
dedup seen [] = []
dedup seen (c ∷ cs) =
    let known = contains seen c.number in
    let rest = dedup (if known then seen else c.number ∷ seen) cs in
    if known then rest else c ∷ rest

abbrev pub it_en : List Text
it_en = codes "it" ∷ codes "en" ∷ []

unfoldable pub list_selected :
    Library → List ScrapedChapter → Option (List Text) → List ScrapedChapter
list_selected l chapters language_priority =
    dedup []
      (select_chapters chapters language_priority (if l.italian_priority then some it_en else none))

abbrev pub task_for : ℕ → String → ScrapedChapter → DownloadTask
task_for sid provider ch = record {
  series_id = sid;
  provider = provider;
  chapter = ch;
  language = ch.language;
  overwrite = false;
}

abbrev pub is_missing : List (String × Text) → ScrapedChapter → Bool
is_missing existing ch = not (contains existing (ch.external_id, ch.language))

-- The state of the loop that enqueues: the queue, the count so far, and what was raised.
pub record Enqueued : Type 0 where
  pub queue : DownloadQueue
  pub count : ℕ
  pub error : Option Raised

unfoldable pub enqueue_all : ℕ → String → List ScrapedChapter → DownloadQueue → ℕ → Enqueued
enqueue_all sid provider [] q n = record { queue = q; count = n; error = none }
enqueue_all sid provider (ch ∷ chs) q n = elim (enqueue (task_for sid provider ch) q) [
  | err e ↦ record { queue = q; count = n; error = some e }
  | ok q' ↦ enqueue_all sid provider chs q' (n + 1)
]

unfoldable pub run_check : Result (String × List ScrapedChapter) → ℕ → DownloadQueue → Enqueued
run_check (err e) sid q = record { queue = q; count = 0; error = some e }
run_check (ok (provider, missing)) sid q = enqueue_all sid provider missing q 0

abbrev pub check_status : Option Raised → String
check_status none = "ok"
check_status (some e) = "error"

-- `series.last_checked_at = _utcnow()`
unfoldable pub mark_checked : ℕ → ℕ → List Series → List Series
mark_checked now sid rows =
    update_where (λ s. s.id == sid) (λ s. record s { last_checked_at = some now }) rows

-- The log row, and `series.last_checked_at = _utcnow()`.
unfoldable pub record_check : ℕ → ℕ → Enqueued → Database → Database
record_check now sid r db = record db {
  series = mark_checked now sid db.series;
  follow_log =
      db.follow_log
      ++ (record {
        series_id = sid;
        checked_at = now;
        new_chapters_count = r.count;
        status = check_status r.error;
        failed = is_some r.error;
      }
          ∷ []);
}

-- `sorted(..., reverse=True)` keeps the order of equal keys too.
unfoldable pub newest : Floats → Option ℕ → List ScrapedChapter → List ScrapedChapter
newest F none chs = chs
newest F (some n) chs =
    if ltb 0 n
    then take n (Sort.sort (λ a b. leb (to_sort F (some b.number)) (to_sort F (some a.number))) chs)
    else chs

abbrev scheduled : List ScrapedChapter → Enqueued → Result ℕ
scheduled missing r = elim r.error [ some e ↦ err e | none ↦ ok (length missing) ]

-- `library.follow_interval_hours or 24`
abbrev pub interval : Library → ℕ
interval l = if l.follow_interval_hours == 0 then 24 * 3600 else l.follow_interval_hours * 3600

abbrev pub is_due : ℕ → Series → Library → Bool
is_due now s l = elim s.last_checked_at [ none ↦ true | some last ↦ leb (last + interval l) now ]

-- A followed series that the join with its library gives, and that is past its interval.
unfoldable pub is_row_due : ℕ → List Library → Series → Bool
is_row_due now libs s =
    s.followed && not s.deleted && anyb (λ l. l.id == s.library_id && is_due now s l) libs

unfoldable pub due_ids : ℕ → Database → List ℕ
due_ids now db = map (λ s. s.id) (filterb (is_row_due now db.libraries) db.series)

-- What one turn of the sweep leaves: the count of the errors, and the world.
abbrev pub checked : Result (Enqueued × World) → World → ℕ → ℕ × World
checked (err e) w errors = (errors + 1, w)
checked (ok (r, w')) w errors = (errors, w')

module _ (p : Policy) (get_chapters : String → String → Result (List ScrapedChapter)) where
  -- The `try` of `check_series` up to the loop: the provider, and the chapters to enqueue.
  unfoldable pub list_missing :
      Database → Series → Option (List Text) → Result (String × List ScrapedChapter)
  list_missing db s language_priority = do
    l ← library_of db s
    found ← pick_provider p s l (by_provider db.external_ids s.id)
    scraper ← (Sources.get found.0 p.registry).0
    chapters ← get_chapters found.0 found.1
    ok (
      found.0,
      filterb (is_missing (existing_keys db s.id found.0))
          (list_selected l chapters language_priority),
    )

  -- The rest of `check_series` once the series is loaded: the counts for the caller, and the world.
  unfoldable pub check_loaded : ℕ → ℕ → World → Series → Enqueued × World
  check_loaded now sid w s =
      let r = run_check (list_missing w.db s none) sid w.queue in
      (r, record { db = record_check now sid r w.db; queue = r.queue })

  unfoldable pub check_series : ℕ → ℕ → World → Result (Enqueued × World)
  check_series now sid w = do s ← load_series sid w.db; ok (check_loaded now sid w s)

  -- What was put on the queue before an error stays there.
  unfoldable pub backfill_series :
      Floats → ℕ → Option ℕ → Option (List Text) → World → Result ℕ × World
  backfill_series F sid count language_priority w =
      let listed : Result (String × List ScrapedChapter) =
        load_series sid w.db >>= λ s. list_missing w.db s language_priority in
      elim listed [
        | err e ↦ (err e, w)
        | ok (provider, missing) ↦
            let chosen = newest F count missing in
            let r = enqueue_all sid provider chosen w.queue 0 in
            (scheduled chosen r, record w { queue = r.queue })
      ]

  -- A failure of one series does not stop the sweep.
  unfoldable pub sweep : ℕ → List ℕ → World → ℕ → ℕ × World
  sweep now [] w errors = (errors, w)
  sweep now (sid ∷ sids) w errors =
      let next = checked (check_series now sid w) w errors in sweep now sids next.1 next.0

  unfoldable pub check_due_series : ℕ → World → ℕ × World
  check_due_series now w = sweep now (due_ids now w.db) w 0
