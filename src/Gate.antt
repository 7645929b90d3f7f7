-- ===== src/Gate.antt =====
-- app/main.py: the HTTP Basic gate over the API and the catalog, with its record of failed attempts_of
-- by client, and the security headers. The clock is an argument that counts seconds; the gate runs
-- without giving up control, so that requests come one after the other.
pub mod Lockout
pub mod History
use mangasama.Base.{
  ℕ, ◌+◌, String, Bool, true, false, not, ◌&&◌, ◌||◌, Option, none, some, List, [], ◌∷◌, ◌++◌,
}
use mangasama.Base.{
  if◌then◌else◌, ◌==◌, string_eq, contains, ltb, leb, length, filterb, get_or, is_some,
}
use mangasama.Base.Dict.{Dict, lookup, insert}
use mangasama.Text.{Text, codes, text_eq, is_empty, starts_with}
use mangasama.Setup.{Config, Crypto, is_setup_completed, verify_basic_auth}

unfoldable pub path_needs_auth : Text → Bool
path_needs_auth path =
    if path == codes "/api/health"
    then false
    else if starts_with path (codes "/api/setup")
    then false
    else starts_with path (codes "/api") || starts_with path (codes "/opds")

pub record Request : Type 0 where
  pub method : String
  pub path : Text
  pub client : Option Text
  pub authorization : Option Text

pub record LockoutSettings : Type 0 where
  pub auth_max_failures : ℕ
  pub auth_lockout_seconds : ℕ

-- The moments of the recent failures of each client.
abbrev pub Failures : Type 0
Failures = Dict Text (List ℕ)

pub data GateAnswer : Type 0 where
  passed_on : GateAnswer
  unauthorized : GateAnswer
  too_many_requests : ℕ → GateAnswer

unfoldable pub failures_of : Text → Failures → List ℕ
failures_of ip f = get_or (lookup ip f) []

-- `[t for t in ts if now - t < window]`, for a clock that may also have been set back.
unfoldable pub recent : ℕ → ℕ → List ℕ → List ℕ
recent now window ts = filterb (λ t. ltb now (t + window)) ts

-- `d.pop(ip, None)`
unfoldable pub pop : Text → Failures → Failures
pop ip [] = []
pop ip ((k, ts) ∷ f) = let rest = pop ip f in if ip == k then rest else (k, ts) ∷ rest

unfoldable pub client_ip : Request → Text
client_ip r = get_or r.client (codes "unknown")

unfoldable pub has_credentials : Request → Bool
has_credentials r = not (is_empty (get_or r.authorization []))

unfoldable pub record_failure : ℕ → Text → Failures → Failures
record_failure now ip f = insert ip (failures_of ip f ++ (now ∷ [])) f

-- The middleware applies to the request.
unfoldable pub is_guarded : Config → Request → Bool
is_guarded c r = is_setup_completed c && not (r.method == "OPTIONS") && path_needs_auth r.path

module _ (K : Crypto) (s : LockoutSettings) where
  unfoldable pub is_locked : ℕ → Text → Failures → Bool × Failures
  is_locked now ip f =
      let left = recent now s.auth_lockout_seconds (failures_of ip f) in
      (leb s.auth_max_failures (length left), insert ip left f)

  abbrev pub admit : ℕ → Request → Bool → Failures → GateAnswer × Failures
  admit now r true f = (passed_on, pop (client_ip r) f)
  admit now r false f =
      (unauthorized, if has_credentials r then record_failure now (client_ip r) f else f)

  abbrev pub answer : Config → ℕ → Request → Bool × Failures → GateAnswer × Failures
  answer c now r (true, f) = (too_many_requests s.auth_lockout_seconds, f)
  answer c now r (false, f) = admit now r (verify_basic_auth K r.authorization c) f

  unfoldable pub auth_guard : Config → ℕ → Request → Failures → GateAnswer × Failures
  auth_guard c now r f =
      if is_guarded c r then answer c now r (is_locked now (client_ip r) f) else (passed_on, f)

  -- Requests in the order of their arrival, each with its moment.
  unfoldable pub serve : Config → List (ℕ × Request) → Failures → List GateAnswer × Failures
  serve c [] f = ([], f)
  serve c ((now, r) ∷ rs) f =
      let (a, f₁) = auth_guard c now r f in let (answers, f₂) = serve c rs f₁ in (a ∷ answers, f₂)

-- `response.headers.setdefault(name, value)`
unfoldable pub set_default : String → String → Dict String String → Dict String String
set_default name value headers =
    if is_some (lookup name headers) then headers else headers ++ ((name, value) ∷ [])

abbrev pub csp : String
csp =
    "default-src 'self'; img-src 'self' data: blob:; style-src 'self' 'unsafe-inline'; script-src 'self'; connect-src 'self'; font-src 'self' data:; object-src 'none'; base-uri 'self'; frame-ancestors 'none'"

unfoldable pub security_headers : Text → Dict String String → Dict String String
security_headers path headers =
    let h₁ = set_default "X-Content-Type-Options" "nosniff" headers in
    let h₂ = set_default "X-Frame-Options" "DENY" h₁ in
    let h₃ = set_default "Referrer-Policy" "no-referrer" h₂ in
    let h₄ = set_default "Permissions-Policy" "camera=(), microphone=(), geolocation=()" h₃ in
    if contains (codes "/api/docs" ∷ codes "/api/redoc" ∷ codes "/api/openapi.json" ∷ []) path
    then h₄
    else set_default "Content-Security-Policy" csp h₄
