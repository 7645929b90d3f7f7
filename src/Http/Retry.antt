-- ===== src/Http/Retry.antt =====
-- How the retry loop of app/core/http_client.py ends.
use mangasama.Base.{
  ℕ, zero, suc, ◌+◌, ◌≤◌, ◌<◌, ◌≡◌, refl, ◌∙◌, ap, String, Bool, Option, none, some, List, [], ◌∷◌,
  arith,
}
use mangasama.Base.{nat_eq, length, inl, inr, ◌⊎◌}
use mangasama.Errors.{Result, err, raised, value_error}
use mangasama.Text.{Text}
use mangasama.Http.{
  Response, Outcome, answered, dropped, failed, HttpClient, Step, done, again, header,
  judge_response, judge, attempts, request, wait_or_limit,
}

Step-cases : (s : Step) → ((r : Result Response) × (s ≡ done r)) ⊎ ((ms : ℕ) × (s ≡ again ms))
Step-cases (done r) = inl (r, refl)
Step-cases (again ms) = inr (ms, refl)

-- The attempt `from + length sleeps` is the first that is not followed by another, it is within the
-- retries, and it gives the result; the sleeps are those of the attempts before it.
abbrev pub Sleeps : (ℕ → Step) → ℕ → List ℕ → Type 0
Sleeps f from [] = Unit
Sleeps f from (ms ∷ sleeps) = (f from ≡ again ms) × Sleeps f (suc from) sleeps

pub record Settled (f : ℕ → Step) (from last : ℕ) (x : Result Response × List ℕ) : Type 0 where
  pub settled : f (from + length x.1) ≡ done x.0
  pub within : from + length x.1 ≤ last
  pub slept : Sleeps f from x.1

add_zero : (n : ℕ) → n + 0 ≡ n
add_zero n = omega arith

+-suc : (m n : ℕ) → m + suc n ≡ suc m + n
+-suc m n = omega arith

module _ (float_ms : Text → Option ℕ) (c : HttpClient) (scraper : String) (stream : Bool) where
  wait_or_limit_last :
      (attempt : ℕ) (o : Option ℕ) {ms : ℕ}
      → wait_or_limit float_ms c scraper stream attempt o ≡ again ms
      → attempt < c.max_retries
  wait_or_limit_last attempt none h = cc
  wait_or_limit_last attempt (some ms) h = ground arith

  -- The last attempt is never followed by another.
  judge_last :
      (attempt : ℕ) (o : Outcome) {ms : ℕ}
      → judge float_ms c scraper stream attempt o ≡ again ms
      → attempt < c.max_retries
  unfolding judge judge_response
  judge_last attempt (answered resp) h =
      ground (arith, wait_or_limit_last attempt (float_ms (header resp.retry_after)))
  judge_last attempt dropped h = ground arith
  judge_last attempt (failed e) h = cc

  attempts_done :
      (send : ℕ → Outcome) (n attempt : ℕ) (r : Result Response)
      → judge float_ms c scraper stream attempt (send attempt) ≡ done r
      → attempts float_ms c scraper stream send (suc n) attempt ≡ (r, [])
  unfolding attempts
  attempts_done send n attempt r h = rw (h, attempts)

  attempts_again :
      (send : ℕ → Outcome) (n attempt ms : ℕ)
      → judge float_ms c scraper stream attempt (send attempt) ≡ again ms
      → attempts float_ms c scraper stream send (suc n) attempt ≡ (
        (attempts float_ms c scraper stream send n (suc attempt)).0,
        ms ∷ (attempts float_ms c scraper stream send n (suc attempt)).1,
      )
  unfolding attempts
  attempts_again send n attempt ms h = rw (h, attempts)

  module _ (send : ℕ → Outcome) where
    abbrev pub step : ℕ → Step
    step attempt = judge float_ms c scraper stream attempt (send attempt)

    Settled-now :
        (attempt : ℕ) (r : Result Response)
        → step attempt ≡ done r
        → attempt ≤ c.max_retries
        → Settled step attempt c.max_retries (r, [])
    Settled-now attempt r e h = record {
      settled = ap step (add_zero attempt) ∙ e;
      within = omega arith;
      slept = tt;
    }

    attempts-Settled :
        (n attempt : ℕ)
        → n + attempt ≡ c.max_retries
        → Settled step attempt c.max_retries
            (attempts float_ms c scraper stream send (suc n) attempt)
    attempts-Settled zero attempt h = elim (Step-cases (step attempt)) [
      | inl (r, e) ↦
          rw (attempts_done send zero attempt r e) (Settled-now attempt r e (omega arith))
      | inr (ms, e) ↦ absurd (omega (arith, judge_last attempt (send attempt) e))
    ]
    attempts-Settled (suc n) attempt h = elim (Step-cases (step attempt)) [
      | inl (r, e) ↦
          rw (attempts_done send (suc n) attempt r e) (Settled-now attempt r e (omega arith))
      | inr (ms, e) ↦
          let ih = attempts-Settled n (suc attempt) (omega arith) in
          rw (attempts_again send (suc n) attempt ms e) (record {
            settled = ap step (+-suc attempt _) ∙ ih.settled;
            within = omega (arith, ih.within);
            slept = (e, ih.slept);
          })
    ]

-- Whatever the network does, a call comes to an end that an attempt gives, never to the end of the
-- loop: the attempt whose number is that of the sleeps is at most `max_retries` and gives the
-- result, and each attempt before it gives the sleep that stands in its place.
pub request-Settled :
    (float_ms : Text → Option ℕ) (c : HttpClient) (scraper : String) (stream : Bool)
    (send : ℕ → Outcome)
    → Settled
        (step float_ms c scraper stream send)
        0
        c.max_retries
        (request float_ms c scraper stream send)
unfolding request
request-Settled float_ms c scraper stream send =
    attempts-Settled float_ms c scraper stream send c.max_retries 0 (omega arith)

-- If the first response is a 429 whose `Retry-After` is no number, such as a date, the call ends
-- with a `ValueError` at once.
pub request_retry_date :
    (float_ms : Text → Option ℕ) (c : HttpClient) (scraper : String) (stream : Bool)
    (send : ℕ → Outcome) (content : String) (date : Text)
    → float_ms date ≡ none
    → send 0 ≡ answered (record { status_code = 429; retry_after = some date; content = content })
    → request float_ms c scraper stream send ≡ (err (raised value_error), [])
unfolding request judge judge_response nat_eq
request_retry_date float_ms c scraper stream send content date h e =
    attempts_done float_ms c scraper stream send c.max_retries 0 (err (raised value_error))
      (rw e (rw h))
