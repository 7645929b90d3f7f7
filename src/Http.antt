-- ===== src/Http.antt =====
-- app/core/http_client.py: the retry loop of `_request` and the calls over it. What the network does
-- on each attempt is the parameter `send`, and `float(header)`, in milliseconds, the parameter
-- `float_ms` (a negative number, which sleeps as long as 0, is read as 0; a header that is "inf" or
-- "nan" is not modelled). Logging, and the wait for the rate limiter, are left out.
pub mod Retry
pub mod Sleeps
use mangasama.Base.{
  ℕ, zero, suc, ◌+◌, String, Bool, true, false, not, ◌&&◌, Option, none, some, List, [], ◌∷◌,
}
use mangasama.Base.{if◌then◌else◌, ◌==◌, nat_eq, ltb, leb, get_elem?}
use mangasama.Errors.{
  Result, Raised, ok, err, raised, ◌>>=◌, source_unavailable, rate_limited, value_error,
  index_error, http_status_error,
}
use mangasama.Text.{Text, codes}

pub record Response : Type 0 where
  pub status_code : ℕ
  pub retry_after : Option Text
  pub content : String

-- What one request comes to: a response; a `ConnectError`, `ReadTimeout` or `RemoteProtocolError`;
-- or another exception.
pub data Outcome : Type 0 where
  answered : Response → Outcome
  dropped : Outcome
  failed : Raised → Outcome

-- `backoff` and the sleeps count milliseconds.
pub record HttpClient : Type 0 where
  pub max_retries : ℕ
  pub backoff : List ℕ

-- What an attempt comes to: the end of the call, or a sleep and the next attempt.
pub data Step : Type 0 where
  done : Result Response → Step
  again : ℕ → Step

abbrev last_or : ℕ → List ℕ → ℕ
last_or d [] = d
last_or d (x ∷ xs) = last_or x xs

-- `self.backoff[-1]`
abbrev pub last_backoff : List ℕ → Result ℕ
last_backoff [] = err (raised index_error)
last_backoff (x ∷ xs) = ok (last_or x xs)

-- `_sleep_backoff`
unfoldable pub sleep_backoff : List ℕ → ℕ → Result ℕ
sleep_backoff backoff attempt = elim (get_elem? backoff attempt) [
  | some ms ↦ ok ms
  | none ↦ last_backoff backoff
]

abbrev sleep_then_retry : Result ℕ → Step
sleep_then_retry (ok ms) = again ms
sleep_then_retry (err e) = done (err e)

abbrev pub unavailable : String → Option ℕ → Raised
unavailable scraper status = record (raised source_unavailable) {
  source = some scraper;
  status_code = status;
}

-- `resp.headers.get("retry-after", "5")`
abbrev pub header : Option Text → Text
header none = codes "5"
header (some h) = h

-- `min(retry_after, 30.0)`
abbrev pub capped : ℕ → ℕ
capped ms = if ltb ms 30000 then ms else 30000

module _ (float_ms : Text → Option ℕ) (c : HttpClient) (scraper : String) (stream : Bool) where
  abbrev pub wait_or_limit : ℕ → Option ℕ → Step
  wait_or_limit attempt none = done (err (raised value_error))
  wait_or_limit attempt (some ms) =
      if ltb attempt c.max_retries
      then again (capped ms)
      else done (err (record (raised rate_limited) { retry_after = some ms }))

  abbrev pub client_error : Response → Step
  client_error resp =
      if stream
      then done (ok resp)
      else if resp.status_code == 404
      then done (err (raised http_status_error))
      else done (err (unavailable scraper (some resp.status_code)))

  -- The handling of a status, in the order of the code.
  unfoldable pub judge_response : ℕ → Response → Step
  judge_response attempt resp =
      if resp.status_code == 429
      then wait_or_limit attempt (float_ms (header resp.retry_after))
      else if leb 500 resp.status_code && ltb resp.status_code 600
      then if ltb attempt c.max_retries
        then sleep_then_retry (sleep_backoff c.backoff attempt)
        else done (err (unavailable scraper (some resp.status_code)))
      else if leb 400 resp.status_code && ltb resp.status_code 500
      then client_error resp
      else done (ok resp)

  unfoldable pub judge : ℕ → Outcome → Step
  judge attempt (answered resp) = judge_response attempt resp
  judge attempt dropped =
      if ltb attempt c.max_retries
      then sleep_then_retry (sleep_backoff c.backoff attempt)
      else done (err (unavailable scraper none))
  judge attempt (failed e) = done (err e)

  -- The rest of `range(self.max_retries + 1)`: the result, and the sleeps before it.
  module _ (send : ℕ → Outcome) where
    unfoldable pub attempts : ℕ → ℕ → Result Response × List ℕ
    attempts zero attempt = (err (unavailable scraper none), [])
    attempts (suc n) attempt =
        let rest = attempts n (suc attempt) in
        elim (judge attempt (send attempt)) [ done r ↦ (r, []) | again ms ↦ (rest.0, ms ∷ rest.1) ]

    -- `_request`
    unfoldable pub request : Result Response × List ℕ
    request = attempts (suc c.max_retries) 0

-- `get_bytes`, with the sleeps left out
unfoldable pub get_bytes : (Text → Option ℕ) → HttpClient → String → (ℕ → Outcome) → Result String
get_bytes float_ms c scraper send =
    (request float_ms c scraper false send).0 >>= λ resp. ok resp.content
