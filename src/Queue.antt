-- ===== src/Queue.antt =====
-- The bounded queue of app/services/downloader.py (`DownloadTask`, `DownloadQueue.enqueue`,
-- `pending`, and the `get` of a worker), over an `asyncio.Queue`: `put_nowait` raises when a positive
-- `maxsize` is reached.
use mangasama.Base.{
  ℕ, ◌+◌, ◌≤◌, ◌≡◌, ◌⊎◌, refl, String, Bool, ◌&&◌, Option, none, some, List, [], ◌∷◌, ◌++◌, arith,
}
use mangasama.Base.{if◌then◌else◌, ltb, leb, length}
use mangasama.Errors.{Result, ok, err, raised, download_queue_full}
use mangasama.Text.{Text}
use mangasama.Languages.{ScrapedChapter}

pub record DownloadTask : Type 0 where
  pub series_id : ℕ
  pub provider : String
  pub chapter : ScrapedChapter
  pub language : Text
  pub overwrite : Bool

pub record DownloadQueue : Type 0 where
  pub tasks : List DownloadTask
  pub maxsize : ℕ

unfoldable pub is_full : DownloadQueue → Bool
is_full q = ltb 0 q.maxsize && leb q.maxsize (length q.tasks)

unfoldable pub enqueue : DownloadTask → DownloadQueue → Result DownloadQueue
enqueue task q =
    if is_full q
    then err (raised download_queue_full)
    else ok (record q { tasks = q.tasks ++ (task ∷ []) })

unfoldable pub pending : DownloadQueue → ℕ
pending q = length q.tasks

first_task : List DownloadTask → DownloadQueue → Option (DownloadTask × DownloadQueue)
first_task [] q = none
first_task (t ∷ ts) q = some (t, record q { tasks = ts })

-- `await self._queue.get()`; `none` waits.
unfoldable pub dequeue : DownloadQueue → Option (DownloadTask × DownloadQueue)
unfolding first_task
dequeue q = first_task q.tasks q

-- The queue never holds more than its size, unless the size is 0, which means no limit.
pub record IsBounded (q : DownloadQueue) : Type 0 where
  pub within : (q.maxsize ≡ 0) ⊎ (length q.tasks ≤ q.maxsize)

length-snoc : (ts : List DownloadTask) (t : DownloadTask) → length (ts ++ (t ∷ [])) ≡ length ts + 1
length-snoc [] t = refl
length-snoc (u ∷ ts) t = omega (arith, length-snoc ts t)

-- A task that `enqueue` takes on stands last behind the tasks that were there, and a queue within
-- its size stays within it.
pub enqueue-IsBounded :
    (task : DownloadTask) (q : DownloadQueue) {r : DownloadQueue}
    → IsBounded q
    → enqueue task q ≡ ok r
    → IsBounded r × (r.tasks ≡ q.tasks ++ (task ∷ [])) × (r.maxsize ≡ q.maxsize)
unfolding enqueue is_full
enqueue-IsBounded task q {r} b h = ground (arith, length-snoc q.tasks task)
