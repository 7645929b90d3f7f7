-- ===== src/Events/Order.antt =====
-- The order of the events that a subscriber of the bus is sent (app/services/job_events.py).
use mangasama.Base.{ℕ, ◌≡◌, List, [], ◌∷◌, ◌++◌, some, inl, inr, Bool-cases, ltb, length, nat_eq}
use mathlib.Core.Path.{subst}
use mathlib.Core.List.{append_assoc, append-nil}
use mangasama.Base.Dict.{lookup}
use mangasama.Events.{JobEventBus, put, queue_of}
use mangasama.Events.Delivery.{
  Action, act, run, sent, delivered, published_events, AllStay, queue_after, lookup-act, sent-takes,
  published_events-cons, queue_of-lookup,
}

module _ {ℓ} {A : Type ℓ} where
  -- Some elements of a list, each once and in their order.
  pub data IsPartOf : List A → List A → Type ℓ where
    done : IsPartOf [] []
    drops : {x : A} {xs ys : List A} → IsPartOf xs ys → IsPartOf xs (x ∷ ys)
    keeps : {x : A} {xs ys : List A} → IsPartOf xs ys → IsPartOf (x ∷ xs) (x ∷ ys)

  whole : (xs : List A) → IsPartOf xs xs
  whole [] = done
  whole (x ∷ xs) = keeps (whole xs)

  part-append :
      {xs ys us vs : List A} → IsPartOf xs ys → IsPartOf us vs → IsPartOf (xs ++ us) (ys ++ vs)
  part-append done q = q
  part-append (drops p) q = drops (part-append p q)
  part-append (keeps p) q = keeps (part-append p q)

  part-nil : (ys : List A) → IsPartOf [] ys
  part-nil [] = done
  part-nil (y ∷ ys) = drops (part-nil ys)

  part_trans : {ys zs : List A} → IsPartOf ys zs → {xs : List A} → IsPartOf xs ys → IsPartOf xs zs
  part_trans done p = p
  part_trans (drops q) p = drops (part_trans q p)
  part_trans (keeps q) (drops p) = drops (part_trans q p)
  part_trans (keeps q) (keeps p) = keeps (part_trans q p)

  put-IsPartOf : (e : A) (q : List A) → IsPartOf (put e q) (q ++ (e ∷ []))
  unfolding put
  put-IsPartOf e q = elim (Bool-cases (ltb (length q) 100)) [
    | inl h ↦ rw h (whole (q ++ (e ∷ [])))
    | inr h ↦ rw h (
        subst (λ r. IsPartOf r (q ++ (e ∷ []))) (append-nil q)
          (part-append (whole q) (part-nil (e ∷ []))))
  ]

  -- One action: at most the event that it publishes is lost.
  sent-IsPartOf :
      (k : ℕ) (a : Action A) (b : JobEventBus A) (q : List A)
      → lookup k b.subscribers ≡ some q
      → IsPartOf (sent k a b ++ queue_after k a q) (q ++ published_events (a ∷ []))
  unfolding sent
  sent-IsPartOf k (Action.publishes e) b q h = put-IsPartOf e q
  sent-IsPartOf k Action.connects b q h = rw (append-nil q) (whole q)
  sent-IsPartOf k (Action.leaves j) b q h = rw (append-nil q) (whole q)
  sent-IsPartOf k (Action.takes j) b q h = rw (append-nil q, sent-takes k j b q h) (whole q)

  -- What a subscriber that stays was sent, followed by what waits for it, is a part, in the same
  -- order and without repetition, of what waited at first, followed by what was published since.
  pub delivered-IsPartOf :
      (k : ℕ) (actions : List (Action A)) (b : JobEventBus A) (q : List A)
      → lookup k b.subscribers ≡ some q
      → AllStay k actions
      → IsPartOf
          (delivered k actions b ++ queue_of k (run actions b))
          (q ++ published_events actions)
  unfolding delivered run
  delivered-IsPartOf k [] b q h stays = rw (queue_of-lookup k b q h, append-nil q) (whole q)
  delivered-IsPartOf k (a ∷ actions) b q h (stay, stays) =
      let q' = queue_after k a q in
      let rest = delivered-IsPartOf k actions (act a b) q' (lookup-act k a b q stay h) stays in
      let one = sent-IsPartOf k a b q h in
      let p = part-append (whole (sent k a b)) rest in
      let p' = part-append one (whole (published_events actions)) in
      rw
        (
          append_assoc (sent k a b) (delivered k actions (act a b))
              (queue_of k (run actions (act a b))),
          published_events-cons a actions,
        )
        (part_trans
          (rw
            (
              append_assoc (sent k a b) q' (published_events actions),
              append_assoc q (published_events (a ∷ [])) (published_events actions),
            )
            at p')
          p)
