-- ===== src/Http/Sleeps.antt =====
-- The sleeps of a call of app/core/http_client.py, and the response that a caller gets.
use mangasama.Base.{
  ℕ, zero, suc, ◌+◌, ◌≤◌, ◌<◌, ◌≡◌, ◌∙◌, ap, String, Bool, false, Option, none, some, List, [], ◌∷◌,
  arith,
}
use mangasama.Base.{nat_eq, length, Option-cases, inl, inr, All, ◌⊎◌, get_elem?}
use mangasama.Errors.{ok, ok-injective}
use mangasama.Text.{Text}
use mangasama.Http.{
  Response, Outcome, answered, dropped, failed, HttpClient, done, again, sleep_backoff, header,
  last_backoff, judge_response, judge, request, wait_or_limit,
}
use mangasama.Http.Retry.{Sleeps, step, request-Settled}

get_elem?-All :
    (b : ℕ) (xs : List ℕ) (i x : ℕ) → All (λ ms. ms ≤ b) xs → get_elem? xs i ≡ some x → x ≤ b
get_elem?-All b [] i x h e = cc
get_elem?-All b (y ∷ ys) zero x h e = ground (arith, h.0)
get_elem?-All b (y ∷ ys) (suc i) x h e = get_elem?-All b ys i x h.1 e

last_backoff-All :
    (b : ℕ) (xs : List ℕ) (x : ℕ) → All (λ ms. ms ≤ b) xs → last_backoff xs ≡ ok x → x ≤ b
last_backoff-All b [] x h e = cc
last_backoff-All b (y ∷ []) x h e = ground (arith, h.0)
last_backoff-All b (y ∷ z ∷ ys) x h e = last_backoff-All b (z ∷ ys) x h.1 e

sleep_backoff-All :
    (b : ℕ) (xs : List ℕ) (i x : ℕ) → All (λ ms. ms ≤ b) xs → sleep_backoff xs i ≡ ok x → x ≤ b
unfolding sleep_backoff
sleep_backoff-All b xs i x h e = elim (Option-cases (get_elem? xs i)) [
  | inl n ↦ let e' = rw (n, sleep_backoff) at e in last_backoff-All b xs x h e'
  | inr (y, n) ↦
      let e' = rw (n, sleep_backoff) at e in
      get_elem?-All b xs i x h (n ∙ ap some (ok-injective y x e'))
]

module _ (float_ms : Text → Option ℕ) (c : HttpClient) (scraper : String) (b : ℕ)
    (least : 30000 ≤ b) (h : All (λ ms. ms ≤ b) c.backoff) where
  wait_or_limit-le :
      (stream : Bool) (attempt : ℕ) (o : Option ℕ) (ms : ℕ)
      → wait_or_limit float_ms c scraper stream attempt o ≡ again ms
      → ms ≤ b
  wait_or_limit-le stream attempt none ms e = cc
  wait_or_limit-le stream attempt (some n) ms e = ground arith

  judge-le :
      (stream : Bool) (attempt : ℕ) (o : Outcome) (ms : ℕ)
      → judge float_ms c scraper stream attempt o ≡ again ms
      → ms ≤ b
  unfolding judge judge_response
  judge-le stream attempt (answered resp) ms e = ground (
    arith,
    wait_or_limit-le stream attempt (float_ms (header resp.retry_after)) ms,
    sleep_backoff-All b c.backoff attempt ms h,
  )
  judge-le stream attempt dropped ms e = ground (arith, sleep_backoff-All b c.backoff attempt ms h)
  judge-le stream attempt (failed x) ms e = cc

  Sleeps-All :
      (stream : Bool) (send : ℕ → Outcome) (from : ℕ) (sleeps : List ℕ)
      → Sleeps (step float_ms c scraper stream send) from sleeps
      → All (λ ms. ms ≤ b) sleeps
  Sleeps-All stream send from [] s = tt
  Sleeps-All stream send from (ms ∷ sleeps) s =
      (judge-le stream from (send from) ms s.0, Sleeps-All stream send (suc from) sleeps s.1)

-- A call sleeps at most `max_retries` times, and never longer than the larger of 30 seconds and
-- the longest backoff.
pub request_sleeps :
    (float_ms : Text → Option ℕ) (c : HttpClient) (scraper : String) (stream : Bool)
    (send : ℕ → Outcome) (b : ℕ)
    → 30000 ≤ b
    → All (λ ms. ms ≤ b) c.backoff
    → (length (request float_ms c scraper stream send).1 ≤ c.max_retries)
      × All (λ ms. ms ≤ b) (request float_ms c scraper stream send).1
request_sleeps float_ms c scraper stream send b least h =
    let s = request-Settled float_ms c scraper stream send in
    (omega (arith, s.within), Sleeps-All float_ms c scraper b least h stream send 0 _ s.slept)

judge_ok :
    (float_ms : Text → Option ℕ) (c : HttpClient) (scraper : String) (attempt : ℕ) (o : Outcome)
    (resp : Response)
    → judge float_ms c scraper false attempt o ≡ done (ok resp)
    → (o ≡ answered resp) × ((resp.status_code < 400) ⊎ (600 ≤ resp.status_code))
unfolding judge judge_response
judge_ok float_ms c scraper attempt (answered r) resp e = ground arith
judge_ok float_ms c scraper attempt dropped resp e = ground arith
judge_ok float_ms c scraper attempt (failed x) resp e = cc

-- A response that a call without `stream` gives is one that the network gave within the retries,
-- and its status is no error of the client or the server.
pub request_ok :
    (float_ms : Text → Option ℕ) (c : HttpClient) (scraper : String) (send : ℕ → Outcome)
    (resp : Response)
    → (request float_ms c scraper false send).0 ≡ ok resp
    → ((attempt : ℕ) × (attempt ≤ c.max_retries) × (send attempt ≡ answered resp))
      × ((resp.status_code < 400) ⊎ (600 ≤ resp.status_code))
request_ok float_ms c scraper send resp h =
    let s = request-Settled float_ms c scraper false send in
    let r = judge_ok float_ms c scraper _ (send (0 + length _)) resp (s.settled ∙ ap done h) in
    ((_, s.within, r.0), r.1)
