-- ===== src/Tests/Buses.antt =====
-- The bus of job events.
use mangasama.Base.{ℕ, ◌≡◌, refl, List, [], ◌∷◌, ◌++◌, some, none, arith}
use mangasama.Events.{
  JobEventBus, empty_bus, subscribe, publish, turn, queue_of, publish_job, subscriber_count,
  get_job_event_bus,
}
use mangasama.Events.Backlog.{Step, Reachable, IsValid, Reachable-IsValid}
use mangasama.Events.Delivery.{Action, run, delivered, published_events, delivered_complete}
use mangasama.Events.Order.{IsPartOf, delivered-IsPartOf}

-- A bus with one subscriber, for which one event waits.
abbrev one_waits : JobEventBus ℕ
one_waits = publish 7 (subscribe empty_bus).1

abbrev later : List (Action ℕ)
later =
    Action.publishes 8
    ∷ Action.connects
    ∷ Action.takes 0
    ∷ Action.publishes 9
    ∷ Action.leaves 1
    ∷ Action.takes 0
    ∷ []

sent_in_order : delivered 0 later one_waits ≡ 7 ∷ 8 ∷ []
unfolding publish subscribe turn queue_of publish_job subscriber_count get_job_event_bus run
    delivered mangasama.Events.put mangasama.Events.put_all mangasama.Events.discard
    mangasama.Events.set_queue mangasama.Events.Delivery.act mangasama.Events.Delivery.sent
    mangasama.Base.Dict.lookup mangasama.Base.nat_eq
sent_in_order = refl

unheard : publish_job {A = ℕ} 7 none ≡ some empty_bus
unfolding publish subscribe turn queue_of publish_job subscriber_count get_job_event_bus run
    delivered mangasama.Events.put mangasama.Events.put_all mangasama.Events.discard
    mangasama.Events.set_queue mangasama.Events.Delivery.act mangasama.Events.Delivery.sent
    mangasama.Base.Dict.lookup mangasama.Base.nat_eq
unheard = refl

count : subscriber_count one_waits ≡ 1
unfolding publish subscribe turn queue_of publish_job subscriber_count get_job_event_bus run
    delivered mangasama.Events.put mangasama.Events.put_all mangasama.Events.discard
    mangasama.Events.set_queue mangasama.Events.Delivery.act mangasama.Events.Delivery.sent
    mangasama.Base.Dict.lookup mangasama.Base.nat_eq
count = refl

Reachable-IsValid_example : IsValid (turn 0 one_waits).1
Reachable-IsValid_example = Reachable-IsValid (
    Reachable.after
      (Reachable.after (Reachable.after Reachable.start Step.connects) (Step.publishes 7))
      (Step.takes 0))

delivered_complete_example :
    delivered 0 later one_waits ++ queue_of 0 (run later one_waits) ≡ 7 ∷ 8 ∷ 9 ∷ []
unfolding publish subscribe turn queue_of publish_job subscriber_count get_job_event_bus run
    delivered mangasama.Events.put mangasama.Events.put_all mangasama.Events.discard
    mangasama.Events.set_queue mangasama.Events.Delivery.act mangasama.Events.Delivery.sent
    mangasama.Base.Dict.lookup mangasama.Base.nat_eq
delivered_complete_example =
    delivered_complete 0 later one_waits (7 ∷ []) refl (tt, (tt, (tt, (tt, (refl, (tt, tt))))))
      (omega arith)

delivered-part_run :
    IsPartOf (delivered 0 later one_waits ++ queue_of 0 (run later one_waits)) (7 ∷ 8 ∷ 9 ∷ [])
unfolding publish subscribe turn queue_of publish_job subscriber_count get_job_event_bus run
    delivered mangasama.Events.put mangasama.Events.put_all mangasama.Events.discard
    mangasama.Events.set_queue mangasama.Events.Delivery.act mangasama.Events.Delivery.sent
    mangasama.Base.Dict.lookup mangasama.Base.nat_eq
delivered-part_run =
    delivered-IsPartOf 0 later one_waits (7 ∷ []) refl (tt, (tt, (tt, (tt, (refl, (tt, tt))))))
