-- ===== src/Events/Delivery.antt =====
-- What a subscriber of the bus is sent (app/services/job_events.py).
use mangasama.Base.{
  ℕ, ◌+◌, ◌≤◌, ◌≡◌, refl, ap, sym, ◌∙◌, false, List, [], ◌∷◌, ◌++◌, arith, ◌==◌, nat_eq, length,
  get_or, if◌then◌else◌, some,
}
use mangasama.Base.{Bool-cases, inl, inr, length-append}
use mathlib.Core.Path.{subst}
use mathlib.Core.List.{append_assoc, append-nil}
use mangasama.Base.Dict.{lookup}
use mangasama.Events.{
  JobEventBus, Frame, put, publish, subscribe, discard, turn, queue_of, next_frame,
}
use mangasama.Events.Backlog.{lookup-put_all, lookup-set_queue, lookup-discard, lookup-append}

module _ {ℓ} (A : Type ℓ) where
  -- A call of the program on the bus.
  pub data Action : Type ℓ where
    publishes : A → Action
    connects : Action
    leaves : ℕ → Action
    takes : ℕ → Action

module _ {ℓ} {A : Type ℓ} where
  unfoldable pub act : Action A → JobEventBus A → JobEventBus A
  act (Action.publishes e) b = publish e b
  act Action.connects b = (subscribe b).1
  act (Action.leaves k) b = discard k b
  act (Action.takes k) b = (turn k b).1

  unfoldable pub run : List (Action A) → JobEventBus A → JobEventBus A
  run [] b = b
  run (a ∷ actions) b = run actions (act a b)

  abbrev pub events_of : Frame A → List A
  events_of (Frame.event e) = e ∷ []
  events_of Frame.connected = []
  events_of Frame.keepalive = []

  -- The events that one action sends to subscriber `k`.
  unfoldable pub sent : ℕ → Action A → JobEventBus A → List A
  sent k (Action.takes j) b = if j == k then events_of (turn j b).0 else []
  sent k (Action.publishes e) b = []
  sent k Action.connects b = []
  sent k (Action.leaves j) b = []

  unfoldable pub delivered : ℕ → List (Action A) → JobEventBus A → List A
  delivered k [] b = []
  delivered k (a ∷ actions) b = sent k a b ++ delivered k actions (act a b)

  abbrev pub published_events : List (Action A) → List A
  published_events [] = []
  published_events (Action.publishes e ∷ actions) = e ∷ published_events actions
  published_events (Action.connects ∷ actions) = published_events actions
  published_events (Action.leaves k ∷ actions) = published_events actions
  published_events (Action.takes k ∷ actions) = published_events actions

  abbrev pub Stays : ℕ → Action A → Type 0
  Stays k (Action.leaves j) = (j == k) ≡ false
  Stays k (Action.publishes e) = Unit
  Stays k Action.connects = Unit
  Stays k (Action.takes j) = Unit

  -- Subscriber `k` does not leave.
  abbrev pub AllStay : ℕ → List (Action A) → Type 0
  AllStay k [] = Unit
  AllStay k (a ∷ actions) = Stays k a × AllStay k actions

  -- The queue of a subscriber after an action.
  abbrev pub queue_after : ℕ → Action A → List A → List A
  queue_after k (Action.publishes e) q = put e q
  queue_after k Action.connects q = q
  queue_after k (Action.leaves j) q = q
  queue_after k (Action.takes j) q = if j == k then (next_frame q).1 else q

  pub lookup-act :
      (k : ℕ) (a : Action A) (b : JobEventBus A) (q : List A)
      → Stays k a
      → lookup k b.subscribers ≡ some q
      → lookup k (act a b).subscribers ≡ some (queue_after k a q)
  unfolding act publish subscribe discard turn queue_of
  lookup-act k (Action.publishes e) b q s h = rw (lookup-put_all k e b.subscribers, h) refl
  lookup-act k Action.connects b q s h =
      rw (lookup-append k b.subscribers ((b.next_id, []) ∷ []), h) refl
  lookup-act k (Action.leaves j) b q s h = lookup-discard k j b.subscribers s ∙ h
  lookup-act k (Action.takes j) b q s h = elim (Bool-cases (j == k)) [
    | inl e ↦
        let same : k ≡ j = ground arith in
        let h' = subst (λ i. lookup i b.subscribers ≡ some q) same h in
        rw
          (
            lookup-set_queue k j (next_frame (get_or (lookup j b.subscribers) [])).1 b.subscribers,
            h,
            h',
            e,
          )
          refl
    | inr e ↦ rw (lookup-set_queue k j (next_frame (queue_of j b)).1 b.subscribers, h, e) refl
  ]

  frame_and_rest : (q : List A) → events_of (next_frame q).0 ++ (next_frame q).1 ≡ q
  frame_and_rest [] = refl
  frame_and_rest (e ∷ q) = refl

  pub sent-takes :
      (k j : ℕ) (b : JobEventBus A) (q : List A)
      → lookup k b.subscribers ≡ some q
      → sent k (Action.takes j) b ++ queue_after k (Action.takes j) q ≡ q
  unfolding sent turn queue_of
  sent-takes k j b q h = elim (Bool-cases (j == k)) [
    | inl e ↦
        let same : k ≡ j = ground arith in
        let h' = subst (λ i. lookup i b.subscribers ≡ some q) same h in
        rw (h', e) (frame_and_rest q)
    | inr e ↦ rw e refl
  ]

  -- One action, where nothing is dropped.
  sent-queue_after :
      (k : ℕ) (a : Action A) (b : JobEventBus A) (q : List A)
      → lookup k b.subscribers ≡ some q
      → length q + length (published_events (a ∷ [])) ≤ 100
      → sent k a b ++ queue_after k a q ≡ q ++ published_events (a ∷ [])
  unfolding sent put
  sent-queue_after k (Action.publishes e) b q h le = ground (arith, le)
  sent-queue_after k Action.connects b q h le = sym (append-nil q)
  sent-queue_after k (Action.leaves j) b q h le = sym (append-nil q)
  sent-queue_after k (Action.takes j) b q h le = sent-takes k j b q h ∙ sym (append-nil q)

  pub published_events-cons :
      (a : Action A) (actions : List (Action A))
      → published_events (a ∷ actions) ≡ published_events (a ∷ []) ++ published_events actions
  published_events-cons (Action.publishes e) actions = refl
  published_events-cons Action.connects actions = refl
  published_events-cons (Action.leaves k) actions = refl
  published_events-cons (Action.takes k) actions = refl

  pub queue_of-lookup :
      (k : ℕ) (b : JobEventBus A) (q : List A) → lookup k b.subscribers ≡ some q → queue_of k b ≡ q
  unfolding queue_of
  queue_of-lookup k b q h = rw h refl

  short_queue :
      (xs q ys zs : List A) (n : ℕ)
      → xs ++ q ≡ ys ++ zs
      → length ys + (length zs + n) ≤ 100
      → length q + n ≤ 100
  short_queue xs q ys zs n e le =
      let l = ap length e in omega (arith, sym (length-append xs q) ∙ l ∙ length-append ys zs, le)

  -- A subscriber that stays, with room in its queue for all that is published meanwhile, loses
  -- nothing: the events that it was sent, followed by those that wait for it, are the events that
  -- waited at first, followed by those published since, in their order.
  pub delivered_complete :
      (k : ℕ) (actions : List (Action A)) (b : JobEventBus A) (q : List A)
      → lookup k b.subscribers ≡ some q
      → AllStay k actions
      → length q + length (published_events actions) ≤ 100
      → delivered k actions b ++ queue_of k (run actions b) ≡ q ++ published_events actions
  unfolding delivered run
  delivered_complete k [] b q h stays le = queue_of-lookup k b q h ∙ sym (append-nil q)
  delivered_complete k (a ∷ actions) b q h (stay, stays) le =
      let q' = queue_after k a q in
      let le' =
        rw
          (
            published_events-cons a actions,
            length-append (published_events (a ∷ [])) (published_events actions),
          )
          at le in
      let one = sent-queue_after k a b q h (omega (arith, le')) in
      let rest = delivered_complete k actions (act a b) q' (lookup-act k a b q stay h) stays (
        short_queue (sent k a b) q' q (published_events (a ∷ []))
          (length (published_events actions)) one le') in
      append_assoc (sent k a b) _ _
      ∙ ap (λ r. sent k a b ++ r) rest
      ∙ sym (append_assoc (sent k a b) q' (published_events actions))
      ∙ ap (λ r. r ++ published_events actions) one
      ∙ append_assoc q (published_events (a ∷ [])) (published_events actions)
      ∙ ap (λ r. q ++ r) (sym (published_events-cons a actions))
