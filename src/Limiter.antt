-- ===== src/Limiter.antt =====
-- app/core/rate_limiter.py: a bucket of tokens and a number of slots for each scraper and domain. The
-- bucket of aiolimiter is a parameter: how one is made, from a rate and a period, and whether it gives
-- a token at a moment. A semaphore is the number of its slots that are free.
pub mod Slots
pub mod Budgets
use mangasama.Base.{ℕ, ◌+◌, ◌-◌, String, Bool, false, Option, none, some, List, [], arith}
use mangasama.Base.{if◌then◌else◌, ◌==◌, nat_eq, string_eq, pair_eq}
use mangasama.Base.Dict.{Dict, lookup, insert}

-- A scraper and a domain.
abbrev pub Key : Type 0
Key = String × String

pub record RateLimiter (B : Type 0) : Type 0 where
  pub default_rpm : ℕ
  pub default_concurrency : ℕ
  pub buckets : Dict Key B
  pub semaphores : Dict Key ℕ

abbrev pub new_limiter : {B : Type 0} → ℕ → ℕ → RateLimiter B
new_limiter rpm concurrency = record {
  default_rpm = rpm;
  default_concurrency = concurrency;
  buckets = [];
  semaphores = [];
}

-- `n or default`
unfoldable pub positive_or : Option ℕ → ℕ → ℕ
positive_or none d = d
positive_or (some n) d = if n == 0 then d else n

module _ {B : Type 0} where
  unfoldable pub bucket : (ℕ → ℕ → B) → Key → Option ℕ → RateLimiter B → B × RateLimiter B
  bucket new_bucket key rpm r = elim (lookup key r.buckets) [
    | some b ↦ (b, r)
    | none ↦
        let b = new_bucket (positive_or rpm r.default_rpm) 60 in
        (b, record r { buckets = insert key b r.buckets })
  ]

  unfoldable pub semaphore : Key → Option ℕ → RateLimiter B → ℕ × RateLimiter B
  semaphore key n r = elim (lookup key r.semaphores) [
    | some free ↦ (free, r)
    | none ↦
        let free = positive_or n r.default_concurrency in
        (free, record r { semaphores = insert key free r.semaphores })
  ]

  -- `acquire` makes the bucket and the semaphore, waits for a token, then for a slot, and gives the
  -- slot back at its end. These are its moves; `none` where the caller waits.
  unfoldable pub prepare : (ℕ → ℕ → B) → Key → Option ℕ → RateLimiter B → RateLimiter B
  prepare new_bucket key rpm r = (semaphore key none (bucket new_bucket key rpm r).1).1

  unfoldable pub take_token : (ℕ → B → Option B) → ℕ → Key → RateLimiter B → Option (RateLimiter B)
  take_token take now key r = elim (lookup key r.buckets) [
    | none ↦ none
    | some b ↦ elim (take now b) [
      | none ↦ none
      | some b' ↦ some (record r { buckets = insert key b' r.buckets })
    ]
  ]

  unfoldable pub take_slot : Key → RateLimiter B → Option (RateLimiter B)
  take_slot key r = elim (lookup key r.semaphores) [
    | none ↦ none
    | some free ↦
        if free == 0
        then none
        else some (record r { semaphores = insert key (free - 1) r.semaphores })
  ]

  unfoldable pub release : Key → RateLimiter B → RateLimiter B
  release key r = elim (lookup key r.semaphores) [
    | none ↦ r
    | some free ↦ record r { semaphores = insert key (free + 1) r.semaphores }
  ]

-- `reset`
abbrev pub reset : {B : Type 0} → RateLimiter B → RateLimiter B
reset r = record r { buckets = []; semaphores = [] }
