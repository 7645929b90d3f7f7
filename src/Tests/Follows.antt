-- ===== src/Tests/Follows.antt =====
-- A check of a followed series, and the queue.
use mangasama.Base.{
  ◌≡◌, refl, String, Bool, true, false, Option, none, some, List, [], ◌∷◌, ◌++◌, map, find_first,
  inl, inr, arith, ◌==◌,
}
use mangasama.Errors.{ok}
use mangasama.Models.{Series, Library}
use mangasama.Queue.{DownloadTask, DownloadQueue, enqueue, IsBounded, enqueue-IsBounded}
use mangasama.Follow.{
  World, Enqueued, check_series, task_for, list_missing, load_series, usable, pick_provider,
  provider_order, check_loaded,
}
use mangasama.Follow.Provider.{WithId, to_option, pick_provider_first}
use mangasama.Follow.Check.{Logged, check_series_logs, check_series_complete}
use mangasama.Follow.{due_ids, check_due_series}
use mangasama.Follow.Sweep.{check_due_series_clears}
use mangasama.Tests.{ch2_en, library, series, policy, answers, world}

check_series_complete_example :
    (x : Enqueued × World) × (check_series policy answers 100 7 world ≡ ok x)
    × (x.0.error ≡ none)
    × (x.1.queue.tasks ≡ world.queue.tasks ++ map (task_for 7 "mangaworld") (ch2_en ∷ []))
unfolding load_series mangasama.Models.Query.one_or_none mangasama.Base.nat_eq list_missing
    mangasama.Follow.library_of pick_provider mangasama.Follow.first_usable
    mangasama.Base.Dict.lookup mangasama.Follow.by_provider mangasama.Follow.by_provider_from
    mangasama.Base.Dict.insert mangasama.Base.string_eq mangasama.Sources.is_scraper_available
    mangasama.Sources.has mangasama.Sources.is_source_enabled mangasama.Sources.gate
    mangasama.Sources.get mangasama.Base.pair_eq mangasama.Base.Sort.insert mangasama.Base.Sort.sort
    mangasama.Follow.dedup mangasama.Follow.existing_keys mangasama.Follow.in_series
    mangasama.Follow.list_selected mangasama.Languages.index_of mangasama.Languages.language_rank
    mangasama.Languages.priority_for mangasama.Languages.select_chapters
    mangasama.Languages.text_leb mangasama.Text.is_space mangasama.Text.lower
    mangasama.Text.lower_char mangasama.Text.lstrip_by mangasama.Text.rstrip_by mangasama.Text.strip
    mangasama.Text.strip_by mangasama.Text.text_eq
check_series_complete_example =
    check_series_complete policy answers 100 7 world series "mangaworld" (ch2_en ∷ []) refl refl
      (inr (omega arith))

abbrev after_check : Enqueued × World
after_check = check_loaded policy answers 100 7 world series

-- The one chapter that is missing is queued.
check_series_logs_example :
    (x : Enqueued × World) × (check_series policy answers 100 7 world ≡ ok x)
    × Logged 100 7 (list_missing policy answers world.db series none) world x
unfolding load_series mangasama.Models.Query.one_or_none mangasama.Base.nat_eq
check_series_logs_example = check_series_logs policy answers 100 7 world series refl

abbrev own_order : Series
own_order = record series { source_priority = "mangaworld" ∷ [] }

pick_provider_first_example :
    WithId
      (("mangaworld", "1234") ∷ [])
      (find_first (usable policy (("mangaworld", "1234") ∷ [])) ("mangaworld" ∷ []))
      (to_option (pick_provider policy own_order library (("mangaworld", "1234") ∷ [])))
pick_provider_first_example =
    pick_provider_first policy own_order library (("mangaworld", "1234") ∷ [])

abbrev two_slots : DownloadQueue
two_slots = record { tasks = task_for 7 "mangaworld" ch2_en ∷ []; maxsize = 2 }

abbrev filled : DownloadQueue
filled = record two_slots {
  tasks = task_for 7 "mangaworld" ch2_en ∷ task_for 8 "mangaworld" ch2_en ∷ [];
}

enqueue-IsBounded_run :
    IsBounded filled
    × (filled.tasks ≡ two_slots.tasks ++ (task_for 8 "mangaworld" ch2_en ∷ []))
    × (filled.maxsize ≡ two_slots.maxsize)
unfolding enqueue mangasama.Queue.is_full
enqueue-IsBounded_run =
    enqueue-IsBounded (task_for 8 "mangaworld" ch2_en) two_slots
      (record { within = inr (omega arith) }) refl

one_due : due_ids 100 world.db ≡ 7 ∷ []
unfolding due_ids mangasama.Follow.is_row_due mangasama.Base.nat_eq
one_due = refl

check_due_series_clears_example :
    ((check_due_series policy answers 100 world).0 ≡ 0)
    × (due_ids 100 (check_due_series policy answers 100 world).1.db ≡ [])
unfolding due_ids load_series mangasama.Follow.is_row_due mangasama.Base.nat_eq
    mangasama.Models.Query.one_or_none
check_due_series_clears_example =
    check_due_series_clears policy answers 100 world ((series, refl), tt)
