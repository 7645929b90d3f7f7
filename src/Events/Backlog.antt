-- ===== src/Events/Backlog.antt =====
-- Every state of the bus that can be reached (app/services/job_events.py).
use mangasama.Base.{
  ℕ, ◌+◌, ◌≤◌, ◌<◌, ◌≡◌, refl, Bool, not, List, [], ◌∷◌, ◌++◌, arith, ◌==◌, nat_eq, length, filterb,
  is_some, if◌then◌else◌, false, none,
}
use mathlib.Core.Option
use mathlib.Core.Option.{some-ne-none}
use mangasama.Base.{
  Option-cases, All, All-append, All-imp, All-filterb, length-append, Bool-cases, inl, inr,
}
use mangasama.Base.Dict.{Dict, lookup, lookup-All, NodupKeys}
use mangasama.Events.{
  JobEventBus, empty_bus, put, put_all, publish, subscribe, discard, turn, set_queue, queue_of,
  next_frame, max_subscriber_backlog,
}

module _ {ℓ} {A : Type ℓ} where
  -- What the program does with the bus, in any order.
  pub data Step : JobEventBus A → JobEventBus A → Type ℓ where
    publishes : (e : A) {b : JobEventBus A} → Step b (publish e b)
    connects : {b : JobEventBus A} → Step b (subscribe b).1
    leaves : (k : ℕ) {b : JobEventBus A} → Step b (discard k b)
    takes : (k : ℕ) {b : JobEventBus A} → Step b (turn k b).1

  pub data Reachable : JobEventBus A → Type ℓ where
    start : Reachable empty_bus
    after : {b c : JobEventBus A} → Reachable b → Step b c → Reachable c

  pub lookup-put_all :
      (k : ℕ) (e : A) (qs : Dict ℕ (List A))
      → lookup k (put_all e qs) ≡ Option.map (put e) (lookup k qs)
  unfolding put_all lookup
  lookup-put_all k e [] = refl
  lookup-put_all k e ((j, q) ∷ qs) = ground (arith, lookup-put_all k e qs)

  pub lookup-set_queue :
      (j k : ℕ) (q : List A) (qs : Dict ℕ (List A))
      → lookup j (set_queue k q qs) ≡ Option.map (λ p. if k == j then q else p) (lookup j qs)
  unfolding set_queue lookup
  lookup-set_queue j k q [] = refl
  lookup-set_queue j k q ((i, p) ∷ qs) = ground (arith, lookup-set_queue j k q qs)

  pub lookup-discard :
      (j k : ℕ) (qs : Dict ℕ (List A))
      → (k == j) ≡ false
      → lookup j (filterb (λ s. not (k == s.0)) qs) ≡ lookup j qs
  unfolding lookup
  lookup-discard j k [] h = refl
  lookup-discard j k ((i, p) ∷ qs) h = ground (arith, lookup-discard j k qs h)

  pub lookup-append :
      (j : ℕ) (qs rs : Dict ℕ (List A))
      → lookup j (qs ++ rs) ≡ (if is_some (lookup j qs) then lookup j qs else lookup j rs)
  unfolding lookup
  lookup-append j [] rs = refl
  lookup-append j ((i, p) ∷ qs) rs = ground (arith, lookup-append j qs rs)

  -- A subscriber with a number below the next one, and with at most 100 events that wait.
  abbrev IsBounded : ℕ → ℕ × List A → Type 0
  IsBounded next s = (s.0 < next) × (length s.1 ≤ max_subscriber_backlog)

  abbrev pub IsValid : JobEventBus A → Type ℓ
  IsValid b = All (IsBounded b.next_id) b.subscribers × NodupKeys b.subscribers

  put-bounded : (e : A) (q : List A) → length q ≤ 100 → length (put e q) ≤ 100
  unfolding put
  put-bounded e q h = ground (arith, length-append q (e ∷ []))

  put_all-IsBounded :
      (n : ℕ) (e : A) (qs : Dict ℕ (List A))
      → All (IsBounded n) qs
      → All (IsBounded n) (put_all e qs)
  unfolding put_all
  put_all-IsBounded n e [] h = tt
  put_all-IsBounded n e ((k, q) ∷ qs) ((lt, le), t) =
      ((lt, put-bounded e q le), put_all-IsBounded n e qs t)

  set_queue-IsBounded :
      (n k : ℕ) (q : List A) (qs : Dict ℕ (List A))
      → length q ≤ 100
      → All (IsBounded n) qs
      → All (IsBounded n) (set_queue k q qs)
  unfolding set_queue
  set_queue-IsBounded n k q [] le h = tt
  set_queue-IsBounded n k q ((j, p) ∷ qs) le (h, t) =
      ((h.0, ground (arith, h.1)), set_queue-IsBounded n k q qs le t)

  queue_of-bounded : (k : ℕ) (b : JobEventBus A) → IsValid b → length (queue_of k b) ≤ 100
  unfolding queue_of
  queue_of-bounded k b v = elim (Option-cases (lookup k b.subscribers)) [
    | inl e ↦ rw e (omega arith)
    | inr (q, e) ↦ rw e (
        lookup-All (λ q. length q ≤ 100) k b.subscribers
          (All-imp (IsBounded b.next_id) (λ s. length s.1 ≤ 100) b.subscribers (λ s h. h.1) v.0) e)
  ]

  put_all-NodupKeys : (e : A) (qs : Dict ℕ (List A)) → NodupKeys qs → NodupKeys (put_all e qs)
  unfolding put_all
  put_all-NodupKeys e [] h = tt
  put_all-NodupKeys e ((k, q) ∷ qs) (h, t) =
      (rw (lookup-put_all k e qs, h) refl, put_all-NodupKeys e qs t)

  set_queue-NodupKeys :
      (k : ℕ) (q : List A) (qs : Dict ℕ (List A)) → NodupKeys qs → NodupKeys (set_queue k q qs)
  unfolding set_queue
  set_queue-NodupKeys k q [] h = tt
  set_queue-NodupKeys k q ((j, p) ∷ qs) (h, t) =
      (rw (lookup-set_queue j k q qs, h) refl, set_queue-NodupKeys k q qs t)

  lookup-filterb-none :
      (p : ℕ × List A → Bool) (j : ℕ) (qs : Dict ℕ (List A))
      → lookup j qs ≡ none
      → lookup j (filterb p qs) ≡ none
  unfolding lookup
  lookup-filterb-none p j [] h = refl
  lookup-filterb-none p j ((i, q) ∷ qs) h = elim (Bool-cases (j == i)) [
    | inl e ↦ absurd (some-ne-none q (rw e at h))
    | inr e ↦
        let rest = lookup-filterb-none p j qs (rw e at h) in
        elim (Bool-cases (p (i, q))) [ inl f ↦ rw f (rw e rest) | inr f ↦ rw f rest ]
  ]

  filterb-NodupKeys :
      (p : ℕ × List A → Bool) (qs : Dict ℕ (List A)) → NodupKeys qs → NodupKeys (filterb p qs)
  filterb-NodupKeys p [] h = tt
  filterb-NodupKeys p ((k, q) ∷ qs) (h, t) =
      ground (arith, lookup-filterb-none p k qs h, filterb-NodupKeys p qs t)

  below-none : (n : ℕ) (qs : Dict ℕ (List A)) → All (IsBounded n) qs → lookup n qs ≡ none
  unfolding lookup
  below-none n [] h = refl
  below-none n ((k, q) ∷ qs) (h, t) = ground (arith, h.0, below-none n qs t)

  append-NodupKeys :
      (k : ℕ) (q : List A) (qs : Dict ℕ (List A))
      → lookup k qs ≡ none
      → NodupKeys qs
      → NodupKeys (qs ++ ((k, q) ∷ []))
  unfolding lookup
  append-NodupKeys k q [] h u = (refl, tt)
  append-NodupKeys k q ((j, p) ∷ qs) h u = elim (Bool-cases (k == j)) [
    | inl e ↦ absurd (some-ne-none p (rw e at h))
    | inr e ↦ (
      ground (arith, lookup-append j qs ((k, q) ∷ []), u.0),
      append-NodupKeys k q qs (rw e at h) u.1,
    )
  ]

  next_frame-bounded : (q : List A) → length q ≤ 100 → length (next_frame q).1 ≤ 100
  next_frame-bounded [] h = h
  next_frame-bounded (e ∷ q) h = omega (arith, h)

  Step-IsValid : {b c : JobEventBus A} → Step b c → IsValid b → IsValid c
  unfolding publish subscribe discard turn
  Step-IsValid (publishes e {b}) (v, u) =
      (put_all-IsBounded b.next_id e b.subscribers v, put_all-NodupKeys e b.subscribers u)
  Step-IsValid (connects {b}) (v, u) = (
    All-append (IsBounded (b.next_id + 1)) b.subscribers ((b.next_id, []) ∷ [])
        (All-imp (IsBounded b.next_id) (IsBounded (b.next_id + 1)) b.subscribers
          (λ s h. (omega (arith, h.0), h.1)) v)
        ((omega arith, omega arith), tt),
    append-NodupKeys b.next_id [] b.subscribers (below-none b.next_id b.subscribers v) u,
  )
  Step-IsValid (leaves k {b}) (v, u) = (
    All-filterb (IsBounded b.next_id) (λ s. not (k == s.0)) b.subscribers v,
    filterb-NodupKeys (λ s. not (k == s.0)) b.subscribers u,
  )
  Step-IsValid (takes k {b}) (v, u) =
      let q = (next_frame (queue_of k b)).1 in
      (
        set_queue-IsBounded b.next_id k q b.subscribers
            (next_frame-bounded (queue_of k b) (queue_of-bounded k b (v, u))) v,
        set_queue-NodupKeys k q b.subscribers u,
      )

  -- In every state that the bus reaches, from an empty one and in any order of the calls of the
  -- program, each subscriber has its own number and at most 100 events that wait.
  pub Reachable-IsValid : {b : JobEventBus A} → Reachable b → IsValid b
  Reachable-IsValid start = (tt, tt)
  Reachable-IsValid (after r s) = Step-IsValid s (Reachable-IsValid r)
