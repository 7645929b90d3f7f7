-- ===== src/Events.antt =====
-- app/services/job_events.py and `job_event_stream` of app/api/jobs.py: the bus that passes the
-- events of jobs to any number of browsers. A subscriber is known by a number, given in the order of
-- subscription; its queue holds at most 100 events that wait. The type of an event is a parameter.
pub mod Backlog
pub mod Delivery
pub mod Order
use mangasama.Base.{ℕ, ◌+◌, ◌≡◌, Bool, not, Option, none, some, List, [], ◌∷◌, ◌++◌}
use mangasama.Base.{if◌then◌else◌, ◌==◌, nat_eq, ltb, length, filterb, get_or}
use mangasama.Base.Dict.{Dict, lookup}

abbrev pub max_subscriber_backlog : ℕ
max_subscriber_backlog = 100

module _ {ℓ} (A : Type ℓ) where
  pub record JobEventBus : Type ℓ where
    pub next_id : ℕ
    pub subscribers : Dict ℕ (List A)

  -- A line of the stream.
  pub data Frame : Type ℓ where
    connected : Frame
    event : A → Frame
    keepalive : Frame

module _ {ℓ} {A : Type ℓ} where
  abbrev pub empty_bus : JobEventBus A
  empty_bus = record { next_id = 0; subscribers = [] }

  -- `q.put_nowait(event)`, with the event dropped where the queue is full.
  unfoldable pub put : A → List A → List A
  put e q = if ltb (length q) max_subscriber_backlog then q ++ (e ∷ []) else q

  unfoldable pub put_all : A → Dict ℕ (List A) → Dict ℕ (List A)
  put_all e [] = []
  put_all e ((k, q) ∷ qs) = (k, put e q) ∷ put_all e qs

  unfoldable pub publish : A → JobEventBus A → JobEventBus A
  publish e b = record b { subscribers = put_all e b.subscribers }

  unfoldable pub subscribe : JobEventBus A → ℕ × JobEventBus A
  subscribe b = (
    b.next_id,
    record { next_id = b.next_id + 1; subscribers = b.subscribers ++ ((b.next_id, []) ∷ []) },
  )

  -- `self._subscribers.discard(q)`, on the way out of the context.
  unfoldable pub discard : ℕ → JobEventBus A → JobEventBus A
  discard k b = record b { subscribers = filterb (λ s. not (k == s.0)) b.subscribers }

  unfoldable pub subscriber_count : JobEventBus A → ℕ
  subscriber_count b = length b.subscribers

  -- `get_job_event_bus`, on the bus of the module, and `publish_job`.
  unfoldable pub get_job_event_bus : Option (JobEventBus A) → JobEventBus A
  get_job_event_bus bus = get_or bus empty_bus

  unfoldable pub publish_job : A → Option (JobEventBus A) → Option (JobEventBus A)
  publish_job e bus = some (publish e (get_job_event_bus bus))

  -- One turn of the loop of a stream: an event that waits, or the sign of life after the timeout.
  abbrev pub next_frame : List A → Frame A × List A
  next_frame [] = (Frame.keepalive, [])
  next_frame (e ∷ q) = (Frame.event e, q)

  unfoldable pub set_queue : ℕ → List A → Dict ℕ (List A) → Dict ℕ (List A)
  set_queue k q [] = []
  set_queue k q ((j, p) ∷ qs) = (j, if k == j then q else p) ∷ set_queue k q qs

  unfoldable pub queue_of : ℕ → JobEventBus A → List A
  queue_of k b = get_or (lookup k b.subscribers) []

  unfoldable pub turn : ℕ → JobEventBus A → Frame A × JobEventBus A
  turn k b =
      let (frame, q) = next_frame (queue_of k b) in
      (frame, record b { subscribers = set_queue k q b.subscribers })
