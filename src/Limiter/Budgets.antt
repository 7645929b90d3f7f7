-- ===== src/Limiter/Budgets.antt =====
-- The calls for one scraper and domain leave the budgets of the others alone (app/core/rate_limiter.py).
use mangasama.Base.{ℕ, ◌+◌, ◌-◌, ◌≡◌, refl, ◌∙◌, false, Option, none, inl, inr}
use mangasama.Base.{◌==◌, nat_eq, string_eq, pair_eq, get_or, Option-cases, Bool-cases}
use mangasama.Base.Dict.{lookup, lookup-insert}
use mangasama.Limiter.{
  Key, RateLimiter, positive_or, bucket, semaphore, prepare, take_token, take_slot, release,
}

-- What the calls for a key see of the limiter.
abbrev pub view : {B : Type 0} → Key → RateLimiter B → Option B × Option ℕ
view k r = (lookup k r.buckets, lookup k r.semaphores)

module _ {B : Type 0} (new_bucket : ℕ → ℕ → B) (take : ℕ → B → Option B) where
  bucket_other :
      (key k : Key) (rpm : Option ℕ) (r : RateLimiter B)
      → (k == key) ≡ false
      → view k (bucket new_bucket key rpm r).1 ≡ view k r
  unfolding bucket
  bucket_other key k rpm r h = elim (Option-cases (lookup key r.buckets)) [
    | inl e ↦
        rw
          (
            bucket,
            e,
            lookup-insert k key (new_bucket (positive_or rpm r.default_rpm) 60) r.buckets,
            h,
          )
          refl
    | inr (b, e) ↦ rw (bucket, e) refl
  ]

  semaphore_other :
      (key k : Key) (r : RateLimiter B)
      → (k == key) ≡ false
      → view k (semaphore key none r).1 ≡ view k r
  unfolding semaphore positive_or
  semaphore_other key k r h = elim (Option-cases (lookup key r.semaphores)) [
    | inl e ↦ rw (semaphore, e, lookup-insert k key r.default_concurrency r.semaphores, h) refl
    | inr (n, e) ↦ rw (semaphore, e) refl
  ]

  take_token_other :
      (now : ℕ) (key k : Key) (r : RateLimiter B)
      → (k == key) ≡ false
      → view k (get_or (take_token take now key r) r) ≡ view k r
  unfolding take_token
  take_token_other now key k r h = elim (Option-cases (lookup key r.buckets)) [
    | inl e ↦ rw (take_token, e) refl
    | inr (b, e) ↦ elim (Option-cases (take now b)) [
      | inl e' ↦ rw (take_token, e, e') refl
      | inr (b', e') ↦ rw (take_token, e, e', lookup-insert k key b' r.buckets, h) refl
    ]
  ]

  take_slot_other :
      (key k : Key) (r : RateLimiter B)
      → (k == key) ≡ false
      → view k (get_or (take_slot key r) r) ≡ view k r
  unfolding take_slot
  take_slot_other key k r h = elim (Option-cases (lookup key r.semaphores)) [
    | inl e ↦ rw (take_slot, e) refl
    | inr (n, e) ↦ elim (Bool-cases (n == 0)) [
      | inl z ↦ rw (take_slot, e, z) refl
      | inr z ↦ rw (take_slot, e, z, lookup-insert k key (n - 1) r.semaphores, h) refl
    ]
  ]

  release_other :
      (key k : Key) (r : RateLimiter B) → (k == key) ≡ false → view k (release key r) ≡ view k r
  unfolding release
  release_other key k r h = elim (Option-cases (lookup key r.semaphores)) [
    | inl e ↦ rw (release, e) refl
    | inr (n, e) ↦ rw (release, e, lookup-insert k key (n + 1) r.semaphores, h) refl
  ]

  -- Every move of a call of `acquire` for one scraper and domain leaves the bucket and the slots
  -- of any other as they are.
  pub acquire_others_kept :
      (key k : Key) (rpm : Option ℕ) (now : ℕ) (r : RateLimiter B)
      → (k == key) ≡ false
      → (view k (prepare new_bucket key rpm r) ≡ view k r)
        × (view k (get_or (take_token take now key r) r) ≡ view k r)
        × (view k (get_or (take_slot key r) r) ≡ view k r)
        × (view k (release key r) ≡ view k r)
  unfolding prepare
  acquire_others_kept key k rpm now r h = (
    semaphore_other key k (bucket new_bucket key rpm r).1 h ∙ bucket_other key k rpm r h,
    take_token_other now key k r h,
    take_slot_other key k r h,
    release_other key k r h,
  )
