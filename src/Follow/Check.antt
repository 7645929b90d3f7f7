-- ===== src/Follow/Check.antt =====
-- What `check_series` and `backfill_series` put on the queue, and what the log says of it.
use mangasama.Base.{
  ℕ, suc, ◌+◌, ◌-◌, ◌≤◌, ◌<◌, ◌≡◌, refl, Bool, Option, ◌⊎◌, inl, inr, ◌∙◌, ap, sym, String, true,
  false, none, some, List, [], ◌∷◌, ◌++◌, map, arith,
}
use mathlib.Core.List.{append_assoc, append-nil}
use mangasama.Base.{
  nat_eq, is_some, if◌then◌else◌, ◌==◌, leb, not, ◌||◌, length-take, length, length-append,
  length-map, take, Bool-cases,
}
use mangasama.Errors.{Result, Raised, ok, err, raised, download_queue_full}
use mangasama.Models.{Series, FollowLog}
use mangasama.Languages.{ScrapedChapter}
use mangasama.Sources.{Policy}
use mangasama.Queue.{DownloadQueue, is_full, enqueue}
use mangasama.Follow.{
  World, Enqueued, task_for, enqueue_all, run_check, record_check, check_series, list_missing,
  load_series, check_loaded, check_status,
}

-- The first `r.count - n` chapters are queued, in order, behind what was there. Either these are all
-- of them and nothing was raised, or the queue is full and that was raised.
pub record Queued (sid : ℕ) (provider : String) (chs : List ScrapedChapter) (q : DownloadQueue)
    (n : ℕ) (r : Enqueued) : Type 0 where
  pub taken : ℕ
  pub fits : taken ≤ length chs
  pub counted : r.count ≡ n + taken
  pub queued : r.queue.tasks ≡ q.tasks ++ map (task_for sid provider) (take taken chs)
  pub size : r.queue.maxsize ≡ q.maxsize
  pub within : (q.maxsize ≡ 0) ⊎ ((taken ≡ 0) ⊎ (length q.tasks + taken ≤ q.maxsize))
  pub outcome :
      ((r.error ≡ none) × (taken ≡ length chs))
      ⊎ ((r.error ≡ some (raised download_queue_full))
          × (is_full r.queue ≡ true)
          × (taken < length chs))

module _ (sid : ℕ) (provider : String) (ch : ScrapedChapter) (chs : List ScrapedChapter)
    (q : DownloadQueue) (n : ℕ) where
  abbrev grown : DownloadQueue
  grown = record q { tasks = q.tasks ++ (task_for sid provider ch ∷ []) }

  enqueue_all_full :
      is_full q ≡ true
      → enqueue_all sid provider (ch ∷ chs) q n
        ≡ record { queue = q; count = n; error = some (raised download_queue_full) }
  unfolding enqueue_all enqueue
  enqueue_all_full h = rw (h, enqueue_all)

  enqueue_all_room :
      is_full q ≡ false
      → enqueue_all sid provider (ch ∷ chs) q n ≡ enqueue_all sid provider chs grown (n + 1)
  unfolding enqueue_all enqueue
  enqueue_all_room h = rw (h, enqueue_all)

room_within :
    (sid : ℕ) (provider : String) (ch : ScrapedChapter) (chs : List ScrapedChapter)
    (q : DownloadQueue) (n : ℕ)
    → is_full q ≡ false
    → (taken : ℕ)
    → (q.maxsize ≡ 0)
      ⊎ ((taken ≡ 0) ⊎ (length (q.tasks ++ (task_for sid provider ch ∷ [])) + taken ≤ q.maxsize))
    → (q.maxsize ≡ 0) ⊎ ((suc taken ≡ 0) ⊎ (length q.tasks + suc taken ≤ q.maxsize))
unfolding is_full
room_within sid provider ch chs q n room taken h =
    ground (arith, room, h, length-append q.tasks (task_for sid provider ch ∷ []))

enqueue_all-Queued :
    (sid : ℕ) (provider : String) (chs : List ScrapedChapter) (q : DownloadQueue) (n : ℕ)
    → Queued sid provider chs q n (enqueue_all sid provider chs q n)
unfolding enqueue_all
enqueue_all-Queued sid provider [] q n = record {
  taken = 0;
  fits = omega arith;
  counted = omega arith;
  queued = sym (append-nil q.tasks);
  size = refl;
  within = inr (inl refl);
  outcome = inl (refl, refl);
}
enqueue_all-Queued sid provider (ch ∷ chs) q n = elim (Bool-cases (is_full q)) [
  | inl full ↦ rw (enqueue_all_full sid provider ch chs q n full) (record {
    taken = 0;
    fits = omega arith;
    counted = omega arith;
    queued = sym (append-nil q.tasks);
    size = refl;
    within = inr (inl refl);
    outcome = inr (refl, full, omega arith);
  })
  | inr room ↦
      let ih = enqueue_all-Queued sid provider chs (grown sid provider ch chs q n) (n + 1) in
      let within = room_within sid provider ch chs q n room ih.taken ih.within in
      rw (enqueue_all_room sid provider ch chs q n room) (record {
        taken = suc ih.taken;
        fits = omega (arith, ih.fits);
        counted = omega (arith, ih.counted);
        queued = ih.queued ∙ append_assoc q.tasks _ _;
        size = ih.size;
        within = within;
        outcome = ground (arith, ih.outcome);
      })
]

take-length : (chs : List ScrapedChapter) → take (length chs) chs ≡ chs
take-length [] = refl
take-length (c ∷ chs) = ap (λ cs. c ∷ cs) (take-length chs)

module _ {sid : ℕ} {provider : String} {chs : List ScrapedChapter} {q : DownloadQueue} {n : ℕ}
    {r : Enqueued} (h : Queued sid provider chs q n r) where
  length-Queued : length r.queue.tasks + n ≡ length q.tasks + r.count
  length-Queued = omega (
    arith,
    ap length h.queued,
    length-append {0} q.tasks (map (task_for sid provider) (take h.taken chs)),
    length-map {0, 0} (task_for sid provider) (take h.taken chs),
    length-take {0} h.taken chs,
    h.fits,
    h.counted,
  )

  -- With room for every chapter, every chapter is queued.
  all_queued :
      (q.maxsize ≡ 0) ⊎ (length q.tasks + length chs ≤ q.maxsize)
      → (r.error ≡ none) × (h.taken ≡ length chs)
  unfolding is_full
  all_queued room = ground (arith, length-Queued, h.outcome, h.size, h.counted)

-- How many of `n` tasks the queue has room for.
abbrev pub fitting : DownloadQueue → ℕ → ℕ
fitting q n =
    if q.maxsize == 0 || leb (length q.tasks + n) q.maxsize then n else q.maxsize - length q.tasks

-- The row of the log, by what the sources gave and by the room in the queue: "ok" where every
-- missing chapter fits, and "error" where the sources failed or the queue ran full.
abbrev pub expected_log : ℕ → ℕ → Result (String × List ScrapedChapter) → DownloadQueue → FollowLog
expected_log now sid (err e) q = record {
  series_id = sid;
  checked_at = now;
  new_chapters_count = 0;
  status = "error";
  failed = true;
}
expected_log now sid (ok (provider, missing)) q =
    let all_fit = fitting q (length missing) == length missing in
    record {
      series_id = sid;
      checked_at = now;
      new_chapters_count = fitting q (length missing);
      status = if all_fit then "ok" else "error";
      failed = not all_fit;
    }

abbrev log_row : ℕ → ℕ → Enqueued → FollowLog
log_row now sid r = record {
  series_id = sid;
  checked_at = now;
  new_chapters_count = r.count;
  status = check_status r.error;
  failed = is_some r.error;
}

count-fitting :
    (sid : ℕ) (provider : String) (missing : List ScrapedChapter) (q : DownloadQueue)
    → let r = enqueue_all sid provider missing q 0 in
      (r.count ≡ fitting q (length missing))
      × (is_some r.error ≡ not (fitting q (length missing) == length missing))
unfolding is_full
count-fitting sid provider missing q =
    let h = enqueue_all-Queued sid provider missing q 0 in
    let n = length-Queued h in
    (
      ground (arith, n, h.outcome, h.size, h.counted, h.fits, h.within),
      ground (arith, n, h.outcome, h.size, h.counted, h.fits, h.within),
    )

check_status-eq :
    (o : Option Raised) (b : Bool)
    → is_some o ≡ not b
    → check_status o ≡ (if b then "ok" else "error")
check_status-eq none true h = refl
check_status-eq none false h = cc
check_status-eq (some e) true h = cc
check_status-eq (some e) false h = refl

log_row-expected :
    (now sid : ℕ) (listed : Result (String × List ScrapedChapter)) (q : DownloadQueue)
    → log_row now sid (run_check listed sid q) ≡ expected_log now sid listed q
unfolding run_check
log_row-expected now sid (err e) q = refl
log_row-expected now sid (ok (provider, missing)) q =
    let (c, f) = count-fitting sid provider missing q in
    let all_fit = fitting q (length missing) == length missing in
    rw (c, check_status-eq (enqueue_all sid provider missing q 0).error all_fit f, f) refl

run_check-length :
    (listed : Result (String × List ScrapedChapter)) (sid : ℕ) (q : DownloadQueue)
    → length (run_check listed sid q).queue.tasks ≡ length q.tasks + (run_check listed sid q).count
unfolding run_check
run_check-length (err e) sid q = omega arith
run_check-length (ok (provider, missing)) sid q =
    omega (arith, length-Queued (enqueue_all-Queued sid provider missing q 0))

-- One row is added to the log, which is the expected one and counts just the tasks by which the
-- queue has grown.
abbrev pub Logged :
    ℕ → ℕ → Result (String × List ScrapedChapter) → World → Enqueued × World → Type 0
Logged now sid listed w x =
    (x.1.db.follow_log ≡ w.db.follow_log ++ (expected_log now sid listed w.queue ∷ []))
    × (length x.1.queue.tasks
        ≡ length w.queue.tasks + (expected_log now sid listed w.queue).new_chapters_count)

module _ (p : Policy) (get_chapters : String → String → Result (List ScrapedChapter)) where
  check_loaded-Logged :
      (now sid : ℕ) (w : World) (s : Series)
      → Logged now sid
          (list_missing p get_chapters w.db s none)
          w
          (check_loaded p get_chapters now sid w s)
  unfolding check_loaded record_check
  check_loaded-Logged now sid w s =
      let listed = list_missing p get_chapters w.db s none in
      let same = log_row-expected now sid listed w.queue in
      (
        ap (λ x. w.db.follow_log ++ (x ∷ [])) same,
        run_check-length listed sid w.queue
            ∙ ap (λ (x : FollowLog). length w.queue.tasks + x.new_chapters_count) same,
      )

  -- Whenever the series exists, `check_series` goes through and adds one row to the log, which
  -- names the series. If its sources give the missing chapters, the row counts those that the
  -- queue has room for, and has the status "ok" if these are all of them and "error" if not; if
  -- the sources fail, it counts none and has the status "error". The queue has grown by as many
  -- tasks as the row counts.
  pub check_series_logs :
      (now sid : ℕ) (w : World) (s : Series)
      → load_series sid w.db ≡ ok s
      → (x : Enqueued × World) × (check_series p get_chapters now sid w ≡ ok x)
        × Logged now sid (list_missing p get_chapters w.db s none) w x
  unfolding check_series
  check_series_logs now sid w s loaded =
      (check_loaded p get_chapters now sid w s, rw loaded, check_loaded-Logged now sid w s)

  -- If the series exists, its sources answer and the queue has room, `check_series` queues every
  -- missing chapter, in the order of the list, behind what was there, and nothing is raised.
  pub check_series_complete :
      (now sid : ℕ) (w : World) (s : Series) (provider : String) (missing : List ScrapedChapter)
      → load_series sid w.db ≡ ok s
      → list_missing p get_chapters w.db s none ≡ ok (provider, missing)
      → (w.queue.maxsize ≡ 0) ⊎ (length w.queue.tasks + length missing ≤ w.queue.maxsize)
      → (x : Enqueued × World) × (check_series p get_chapters now sid w ≡ ok x)
        × (x.0.error ≡ none)
        × (x.1.queue.tasks ≡ w.queue.tasks ++ map (task_for sid provider) missing)
  unfolding check_series check_loaded run_check
  check_series_complete now sid w s provider missing loaded listed room =
      let queued = enqueue_all-Queued sid provider missing w.queue 0 in
      let all = all_queued queued room in
      (
        check_loaded p get_chapters now sid w s,
        rw loaded,
        rw listed all.0,
        rw listed (
            queued.queued
            ∙ rw all.1
                (ap (λ t. w.queue.tasks ++ map (task_for sid provider) t) (take-length missing))),
      )
