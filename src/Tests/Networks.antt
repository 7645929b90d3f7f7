-- ===== src/Tests/Networks.antt =====
-- Calls over the network, and the domains of a source.
use mangasama.Base.{
  ℕ, ◌≤◌, ◌<◌, ◌≡◌, refl, ◌⊎◌, String, true, false, Option, none, some, [], ◌∷◌, length, All, arith,
}
use mangasama.Base.{string_eq, ◌==◌, nat_eq, if◌then◌else◌}
use mangasama.Base.Dict.{Dict, insert, lookup}
use mangasama.Errors.{Result, ok, err, raised, value_error}
use mangasama.Text.{Text, codes, text_eq}
use mangasama.Models.{DomainHealth}
use mangasama.Sources.{SourceConfig}
use mangasama.Http.{Outcome, answered, dropped, Response, HttpClient, request}
use mangasama.Http.Retry.{Settled, step, request-Settled, request_retry_date}
use mangasama.Http.Sleeps.{request_sleeps, request_ok}
use mangasama.Domains.{
  pick_domain, candidates, by_domain, all_domains_for, record_success, record_failure, update,
}
use mangasama.Domains.Strikes.{Counted, row_of, failures, failures-Counted, row_of-update_other}

abbrev client : HttpClient
client = record { max_retries = 3; backoff = 1000 ∷ 3000 ∷ 9000 ∷ [] }

abbrev page : Response
page = record { status_code = 200; retry_after = none; content = "page" }

-- The connection drops once, then the server answers 503, then it gives the page.
abbrev network : ℕ → Outcome
network n =
    if n == 0
    then dropped
    else if n == 1
    then answered (record page { status_code = 503 })
    else answered page

abbrev seconds : Text → Option ℕ
seconds s = if s == codes "5" then some 5000 else none

third_time : request seconds client "mangaworld" false network ≡ (ok page, 1000 ∷ 3000 ∷ [])
unfolding request mangasama.Http.attempts mangasama.Http.judge nat_eq mangasama.Http.sleep_backoff
    mangasama.Http.judge_response
third_time = refl

request-Settled_example :
    Settled
      (step seconds client "mangaworld" false network)
      0
      3
      (request seconds client "mangaworld" false network)
request-Settled_example = request-Settled seconds client "mangaworld" false network

request_sleeps_example :
    (length (request seconds client "mangaworld" false network).1 ≤ 3)
    × All (λ ms. ms ≤ 30000) (request seconds client "mangaworld" false network).1
request_sleeps_example =
    request_sleeps seconds client "mangaworld" false network 30000 (omega arith)
      (omega arith, (omega arith, (omega arith, tt)))

request_ok_run :
    ((attempt : ℕ) × (attempt ≤ 3) × (network attempt ≡ answered page))
    × ((page.status_code < 400) ⊎ (600 ≤ page.status_code))
unfolding request mangasama.Http.attempts mangasama.Http.judge nat_eq mangasama.Http.sleep_backoff
    mangasama.Http.judge_response
request_ok_run = request_ok seconds client "mangaworld" network page refl

abbrev busy : ℕ → Outcome
busy n = answered (record {
  status_code = 429;
  retry_after = some (codes "Wed, 21 Oct 2026 07:28:00 GMT");
  content = "";
})

request_retry_date_run :
    request seconds client "mangaworld" false busy ≡ (err (raised value_error), [])
unfolding text_eq
request_retry_date_run =
    request_retry_date seconds client "mangaworld" false busy ""
      (codes "Wed, 21 Oct 2026 07:28:00 GMT") refl refl

failures-Counted_example : Counted 3 (
    row_of "mangaworld" "a" (
      failures (λ n. n) (λ n. none) 3 "mangaworld" "a" (record_success 1 "mangaworld" "a" none [])))
failures-Counted_example = failures-Counted (λ n. n) (λ n. none) 1 none "mangaworld" "a" [] 3

abbrev row : String → ℕ → DomainHealth
row domain fails = record {
  source = "mangaworld";
  domain = domain;
  last_ok = none;
  last_fail = some 5;
  fail_count = fails;
  healthy = true;
  last_status_code = none;
}

row_of-update_other_run :
    row_of "mangaworld" "b" (update 1 "mangaworld" "a" false none (row "a" 2 ∷ row "b" 1 ∷ []))
    ≡ row_of "mangaworld" "b" (row "a" 2 ∷ row "b" 1 ∷ [])
unfolding string_eq
row_of-update_other_run =
    row_of-update_other 1 "mangaworld" "a" false none "mangaworld" "b" (row "a" 2 ∷ row "b" 1 ∷ [])
      refl

abbrev config : SourceConfig
config = record { enabled = true; primary = some "a"; alternates = "b" ∷ [] }

abbrev picked : Result (Option String)
picked = pick_domain (("mangaworld", config) ∷ []) "mangaworld" (row "a" 2 ∷ row "b" 1 ∷ [])

abbrev table : Dict String DomainHealth
table = by_domain "mangaworld" (row "a" 2 ∷ row "b" 1 ∷ [])

picked_b : picked ≡ ok (some "b")
unfolding pick_domain lookup string_eq by_domain mangasama.Domains.by_domain_from insert nat_eq
    mangasama.Domains.sort_by_health mangasama.Domains.mixed candidates all_domains_for
    mangasama.Domains.incomparable mangasama.Base.Sort.sort mangasama.Domains.health_leb
picked_b = refl
