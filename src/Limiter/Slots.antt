-- ===== src/Limiter/Slots.antt =====
-- The calls in flight, and the budgets of other scrapers and domains (app/core/rate_limiter.py).
use mangasama.Base.{
  ℕ, ◌+◌, ◌-◌, ◌≤◌, ◌≡◌, refl, ap, sym, ◌∙◌, false, Option, none, some, List, [], ◌∷◌, ◌++◌, arith,
  inl, inr,
}
use mangasama.Base.{
  if◌then◌else◌, ◌==◌, nat_eq, string_eq, pair_eq, get_or, Option-cases, Bool-cases,
}
use mangasama.Base.Dict.{Dict, lookup, insert, lookup-insert}
use mathlib.Core.Path.{subst}
use mathlib.Core.Option.{some-injective}
use mangasama.Limiter.{
  Key, RateLimiter, new_limiter, positive_or, bucket, semaphore, prepare, take_token, take_slot,
  release,
}

-- How often a key stands in a list of keys.
abbrev pub count : Key → List Key → ℕ
count k [] = 0
count k (j ∷ js) = (if k == j then 1 else 0) + count k js

count-append : (k : Key) (is js : List Key) → count k (is ++ js) ≡ count k is + count k js
count-append k [] js = omega arith
count-append k (i ∷ is) js = omega (arith, count-append k is js)

count_self : (k : Key) (is js : List Key) → 1 ≤ count k (is ++ k ∷ js)
count_self k [] js = ground arith
count_self k (i ∷ is) js = ground (arith, count_self k is js)

rearranged :
    (k key : Key) (n : ℕ) (is js : List Key)
    → n + ((if k == key then 1 else 0) + (count k is + count k js)) ≡ n + count k (is ++ key ∷ js)
rearranged k key n is js = omega (arith, count-append k is (key ∷ js))

get_or-insert :
    (k key : Key) (n d : ℕ) (xs : Dict Key ℕ)
    → get_or (lookup k (insert key n xs)) d ≡ (if k == key then n else get_or (lookup k xs) d)
get_or-insert k key n d xs = elim (Bool-cases (k == key)) [
  | inl e ↦ rw (lookup-insert k key n xs, e) refl
  | inr e ↦ rw (lookup-insert k key n xs, e) refl
]

-- Where the entry of a key is put in as what it counts as already, nothing changes.
get_or-insert_same :
    (k key : Key) (n d : ℕ) (xs : Dict Key ℕ)
    → get_or (lookup key xs) d ≡ n
    → get_or (lookup k (insert key n xs)) d ≡ get_or (lookup k xs) d
get_or-insert_same k key n d xs h = elim (Bool-cases (k == key)) [
  | inl e ↦
      let same : k ≡ key = ground arith in
      get_or-insert k key n d xs ∙ rw e (sym h ∙ ap (λ j. get_or (lookup j xs) d) (sym same))
  | inr e ↦ get_or-insert k key n d xs ∙ rw e refl
]

-- A slot that is taken, and one that is given back, in the number of those that are free.
slot_taken :
    (k key : Key) (n d c : ℕ) (xs : Dict Key ℕ)
    → lookup key xs ≡ some n
    → (n == 0) ≡ false
    → get_or (lookup k (insert key (n - 1) xs)) d + ((if k == key then 1 else 0) + c)
      ≡ get_or (lookup k xs) d + c
slot_taken k key n d c xs h z = elim (Bool-cases (k == key)) [
  | inl e ↦
      let same : k ≡ key = ground arith in
      let positive : 1 ≤ n = ground arith in
      let at_key : get_or (lookup k xs) d ≡ n = rw (same, h) refl in
      rw (get_or-insert k key (n - 1) d xs, e) (omega (arith, at_key, positive))
  | inr e ↦ rw (get_or-insert k key (n - 1) d xs, e) (omega arith)
]

slot_given :
    (k key : Key) (n d c : ℕ) (xs : Dict Key ℕ)
    → lookup key xs ≡ some n
    → get_or (lookup k (insert key (n + 1) xs)) d + c
      ≡ get_or (lookup k xs) d + ((if k == key then 1 else 0) + c)
slot_given k key n d c xs h = elim (Bool-cases (k == key)) [
  | inl e ↦
      let same : k ≡ key = ground arith in
      let at_key : get_or (lookup k xs) d ≡ n = rw (same, h) refl in
      rw (get_or-insert k key (n + 1) d xs, e) (omega (arith, at_key))
  | inr e ↦ rw (get_or-insert k key (n + 1) d xs, e) (omega arith)
]

module _ {B : Type 0} (new_bucket : ℕ → ℕ → B) (take : ℕ → B → Option B) where
  -- The states that concurrent calls of `acquire` reach, whose moves come in any order, with the keys
  -- of the calls that hold a slot.
  pub data Reachable : RateLimiter B → List Key → Type 0 where
    start : (rpm concurrency : ℕ) → Reachable (new_limiter rpm concurrency) []
    prepares :
        (key : Key) (rpm : Option ℕ) {r : RateLimiter B} {held : List Key}
        → Reachable r held
        → Reachable (prepare new_bucket key rpm r) held
    takes_token :
        (now : ℕ) (key : Key) {r r' : RateLimiter B} {held : List Key}
        → Reachable r held
        → take_token take now key r ≡ some r'
        → Reachable r' held
    enters :
        (key : Key) {r r' : RateLimiter B} {held : List Key}
        → Reachable r held
        → take_slot key r ≡ some r'
        → Reachable r' (key ∷ held)
    leaves :
        (key : Key) (before after : List Key) {r : RateLimiter B}
        → Reachable r (before ++ key ∷ after)
        → Reachable (release key r) (before ++ after)

  -- The slots of a key that are free.
  abbrev free : Key → RateLimiter B → ℕ
  free k r = get_or (lookup k r.semaphores) r.default_concurrency

  free-semaphore : (k key : Key) (r : RateLimiter B) → free k (semaphore key none r).1 ≡ free k r
  unfolding semaphore positive_or
  free-semaphore k key r = elim (Option-cases (lookup key r.semaphores)) [
    | inl e ↦
        rw (semaphore, e)
          (get_or-insert_same k key r.default_concurrency r.default_concurrency r.semaphores
            (rw e refl))
    | inr (n, e) ↦ rw (semaphore, e) refl
  ]

  default-semaphore :
      (key : Key) (r : RateLimiter B)
      → (semaphore key none r).1.default_concurrency ≡ r.default_concurrency
  unfolding semaphore
  default-semaphore key r = elim (Option-cases (lookup key r.semaphores)) [
    | inl e ↦ rw (semaphore, e) refl
    | inr (n, e) ↦ rw (semaphore, e) refl
  ]

  bucket-semaphores :
      (key : Key) (rpm : Option ℕ) (r : RateLimiter B)
      → ((bucket new_bucket key rpm r).1.semaphores ≡ r.semaphores)
        × ((bucket new_bucket key rpm r).1.default_concurrency ≡ r.default_concurrency)
  unfolding bucket
  bucket-semaphores key rpm r = elim (Option-cases (lookup key r.buckets)) [
    | inl e ↦ rw (bucket, e) (refl, refl)
    | inr (b, e) ↦ rw (bucket, e) (refl, refl)
  ]

  -- The slots of a key that are free and those that are held are all its slots.
  abbrev IsBalanced : Key → RateLimiter B → List Key → Type 0
  IsBalanced k r held = free k r + count k held ≡ r.default_concurrency

  prepare-IsBalanced :
      (k key : Key) (rpm : Option ℕ) (r : RateLimiter B) (held : List Key)
      → IsBalanced k r held
      → IsBalanced k (prepare new_bucket key rpm r) held
  unfolding prepare
  prepare-IsBalanced k key rpm r held h =
      let r₁ = (bucket new_bucket key rpm r).1 in
      let (s, d) = bucket-semaphores key rpm r in
      rw (free-semaphore k key r₁, default-semaphore key r₁, s, d) h

  take_token-semaphores :
      (now : ℕ) (key : Key) (r : RateLimiter B) {r' : RateLimiter B}
      → take_token take now key r ≡ some r'
      → (r'.semaphores ≡ r.semaphores) × (r'.default_concurrency ≡ r.default_concurrency)
  unfolding take_token
  take_token-semaphores now key r {r'} h = elim (Option-cases (lookup key r.buckets)) [
    | inl e ↦ let h' = rw (take_token, e) at h in cc
    | inr (t, e) ↦
        let h' = rw (take_token, e) at h in
        elim (Option-cases (take now t)) [
          | inl e' ↦ let h'' = rw e' at h' in cc
          | inr (t', e') ↦
              let same = some-injective _ r' (rw e' at h') in
              (sym (ap (λ x. x.semaphores) same), sym (ap (λ x. x.default_concurrency) same))
        ]
  ]

  take_slot-IsBalanced :
      (k key : Key) (r : RateLimiter B) {r' : RateLimiter B} (held : List Key)
      → take_slot key r ≡ some r'
      → IsBalanced k r held
      → IsBalanced k r' (key ∷ held)
  unfolding take_slot
  take_slot-IsBalanced k key r {r'} held h b = elim (Option-cases (lookup key r.semaphores)) [
    | inl e ↦ let h' = rw (take_slot, e) at h in cc
    | inr (n, e) ↦
        let h' = rw (take_slot, e) at h in
        elim (Bool-cases (n == 0)) [
          | inl z ↦ let h'' = rw z at h' in cc
          | inr z ↦
              subst (λ x. IsBalanced k x (key ∷ held)) (some-injective _ r' (rw z at h'))
                (slot_taken k key n r.default_concurrency (count k held) r.semaphores e z ∙ b)
        ]
  ]

  -- A key that is held has its semaphore.
  release-IsBalanced :
      (k key : Key) (r : RateLimiter B) (before after : List Key)
      → IsBalanced key r (before ++ key ∷ after)
      → IsBalanced k r (before ++ key ∷ after)
      → IsBalanced k (release key r) (before ++ after)
  unfolding release
  release-IsBalanced k key r before after own b = elim (Option-cases (lookup key r.semaphores)) [
    | inl e ↦
        let all_free : r.default_concurrency + count key (before ++ key ∷ after)
            ≡ r.default_concurrency =
          rw e at own in
        absurd (omega (arith, all_free, count_self key before after))
    | inr (n, e) ↦
        let given =
          slot_given k key n r.default_concurrency (count k before + count k after) r.semaphores
            e in
        rw (release, e, count-append k before after)
          (given ∙ rearranged k key (free k r) before after ∙ b)
  ]

  Reachable-IsBalanced :
      {r : RateLimiter B} {held : List Key} → Reachable r held → (k : Key) → IsBalanced k r held
  unfolding lookup
  Reachable-IsBalanced (start rpm concurrency) k = omega arith
  Reachable-IsBalanced (prepares key rpm {r} {held} s) k =
      prepare-IsBalanced k key rpm r held (Reachable-IsBalanced s k)
  Reachable-IsBalanced (takes_token now key {r} {r'} {held} s h) k =
      let (e, d) = take_token-semaphores now key r h in rw (e, d) (Reachable-IsBalanced s k)
  Reachable-IsBalanced (enters key {r} {r'} {held} s h) k =
      take_slot-IsBalanced k key r held h (Reachable-IsBalanced s k)
  Reachable-IsBalanced (leaves key before after {r} s) k =
      release-IsBalanced k key r before after (Reachable-IsBalanced s key)
        (Reachable-IsBalanced s k)

  no_slot :
      (k : Key) (r : RateLimiter B) (held : List Key)
      → count k held ≡ r.default_concurrency
      → IsBalanced k r held
      → take_slot k r ≡ none
  unfolding take_slot
  no_slot k r held full balanced = elim (Option-cases (lookup k r.semaphores)) [
    | inl e ↦ rw (take_slot, e) refl
    | inr (n, e) ↦
        let at_key : free k r ≡ n = rw e refl in
        let none_free : n ≡ 0 = omega (arith, full, balanced, at_key) in
        ground (arith, e, none_free)
  ]

  -- In every state that concurrent calls of `acquire` reach from a new limiter, whatever the
  -- buckets do and however the moves interleave, no scraper and domain has more calls in flight
  -- than the limiter allows at once.
  pub take_slot_bounded :
      {r : RateLimiter B} {held : List Key} (k : Key)
      → Reachable r held
      → count k held ≤ r.default_concurrency
  take_slot_bounded {r} {held} k s =
      let balanced = Reachable-IsBalanced s k in omega (arith, balanced)

  -- Where as many calls are in flight as are allowed at once, a further one waits.
  pub take_slot_full :
      {r : RateLimiter B} {held : List Key} (k : Key)
      → Reachable r held
      → count k held ≡ r.default_concurrency
      → take_slot k r ≡ none
  take_slot_full {r} {held} k s full = no_slot k r held full (Reachable-IsBalanced s k)
