-- ===== src/Gate/Lockout.antt =====
-- The lock against guessing passwords (app/main.py).
use mangasama.Base.{
  ℕ, ◌+◌, ◌≤◌, ◌<◌, ◌≡◌, refl, inl, inr, ◌↔◌, Bool, true, false, ◌&&◌, List, [], ◌∷◌, ◌++◌, arith,
}
use mangasama.Base.{
  if◌then◌else◌, ◌==◌, leb, length, filterb, Bool-cases, All, All-append, length-append,
}
use mangasama.Base.Dict.{lookup, insert, lookup-insert}
use mangasama.Text.{Text, text_eq}
use mangasama.Setup.{Config, Crypto, verify_basic_auth}
use mangasama.Gate.{
  Request, LockoutSettings, Failures, GateAnswer, failures_of, recent, pop, client_ip,
  has_credentials, record_failure, is_guarded, is_locked, auth_guard, serve,
}
use mangasama.Gate.GateAnswer.{passed_on, unauthorized, too_many_requests}

pub failures_of-insert :
    (j k : Text) (ts : List ℕ) (f : Failures)
    → failures_of j (insert k ts f) ≡ (if j == k then ts else failures_of j f)
unfolding failures_of
failures_of-insert j k ts f = ground (arith, lookup-insert j k ts f)

pub failures_of-pop :
    (j k : Text) (f : Failures) → failures_of j (pop k f) ≡ (if j == k then [] else failures_of j f)
unfolding failures_of pop lookup
failures_of-pop j k [] = ground arith
failures_of-pop j k ((i, ts) ∷ f) = ground (arith, failures_of-pop j k f)

module _ (K : Crypto) (s : LockoutSettings) where
  -- The record of one client after a guarded request of its own.
  abbrev pub record_after : Config → ℕ → Request → List ℕ → List ℕ
  record_after c now r ts =
      let left = recent now s.auth_lockout_seconds ts in
      if leb s.auth_max_failures (length left)
      then left
      else if verify_basic_auth K r.authorization c
      then []
      else if has_credentials r
      then left ++ (now ∷ [])
      else left

  -- The answer to a guarded request, from the record of its client.
  abbrev pub answer_for : Config → ℕ → Request → List ℕ → GateAnswer
  answer_for c now r ts =
      if leb s.auth_max_failures (length (recent now s.auth_lockout_seconds ts))
      then too_many_requests s.auth_lockout_seconds
      else if verify_basic_auth K r.authorization c
      then passed_on
      else unauthorized

  -- A guarded request is answered from the record of its own client.
  pub auth_guard-answer :
      (c : Config) (now : ℕ) (r : Request) (f : Failures)
      → (auth_guard K s c now r f).0
        ≡ (if is_guarded c r then answer_for c now r (failures_of (client_ip r) f) else passed_on)
  unfolding auth_guard is_locked
  auth_guard-answer c now r f = ground arith

  -- A request changes the record of its own client, as `record_after`, and of no other.
  pub auth_guard-record :
      (c : Config) (now : ℕ) (r : Request) (f : Failures) (ip : Text)
      → failures_of ip (auth_guard K s c now r f).1 ≡ (
          if is_guarded c r && ip == client_ip r
          then record_after c now r (failures_of ip f)
          else failures_of ip f)
  unfolding auth_guard is_locked record_failure
  auth_guard-record c now r f ip =
      let k = client_ip r in
      let left = recent now s.auth_lockout_seconds (failures_of k f) in
      let kept = insert k left f in
      ground (
        arith,
        failures_of-insert ip k left f,
        failures_of-insert k k left f,
        failures_of-insert ip k (failures_of k kept ++ (now ∷ [])) kept,
        failures_of-pop ip k kept,
      )

  -- A request to which the gate applies is let through if and only if its client has fewer recent
  -- failures than allowed and its credentials are those of the account.
  pub auth_guard-passed_on :
      (c : Config) (now : ℕ) (r : Request) (f : Failures)
      → is_guarded c r ≡ true
      → ((auth_guard K s c now r f).0 ≡ passed_on) ↔ (
          (length (recent now s.auth_lockout_seconds (failures_of (client_ip r) f))
            < s.auth_max_failures)
          × (verify_basic_auth K r.authorization c ≡ true))
  auth_guard-passed_on c now r f g = (
    λ h. ground (arith, auth_guard-answer c now r f),
    λ h. ground (arith, auth_guard-answer c now r f),
  )

  -- Moments that are still recent at `now`.
  abbrev AllRecent : ℕ → List ℕ → Type 0
  AllRecent now ts = All (λ t. now < t + s.auth_lockout_seconds) ts

  recent-all :
      (now : ℕ) (ts : List ℕ) → AllRecent now ts → recent now s.auth_lockout_seconds ts ≡ ts
  unfolding recent
  recent-all now [] h = refl
  recent-all now (t ∷ ts) h = ground (arith, recent-all now ts h.1)

  AllRecent-earlier : (t now : ℕ) (ts : List ℕ) → t ≤ now → AllRecent now ts → AllRecent t ts
  AllRecent-earlier t now [] le h = tt
  AllRecent-earlier t now (u ∷ ts) le h = (omega (arith, h.0), AllRecent-earlier t now ts le h.1)

  -- An attempt on a protected path that carries credentials.
  unfoldable pub is_attempt : Config → Text → Request → Bool
  is_attempt c ip r = is_guarded c r && ip == client_ip r && has_credentials r

  abbrev pub attempts_of : Config → Text → List (ℕ × Request) → ℕ
  attempts_of c ip rs = length (filterb (λ x. is_attempt c ip x.1) rs)

  -- A request within the window that ends at `now`, with no right credentials from the client.
  abbrev pub IsWrong : Config → Text → ℕ → ℕ × Request → Type 0
  IsWrong c ip now x =
      (x.0 ≤ now)
      × (now < x.0 + s.auth_lockout_seconds)
      × (ip ≡ client_ip x.1 → verify_basic_auth K x.1.authorization c ≡ false)

  -- The record holds recent moments, and counts up to the limit what is still to come.
  abbrev IsFilling : Text → ℕ → Failures → ℕ → Type 0
  IsFilling ip now f n =
      AllRecent now (failures_of ip f) × (s.auth_max_failures ≤ length (failures_of ip f) + n)

  record_after-IsFilling :
      (c : Config) (now t n : ℕ) (r : Request) (ts : List ℕ)
      → t ≤ now
      → now < t + s.auth_lockout_seconds
      → verify_basic_auth K r.authorization c ≡ false
      → AllRecent now ts
      → s.auth_max_failures ≤ length ts + (if has_credentials r then n + 1 else n)
      → AllRecent now (record_after c t r ts)
        × (s.auth_max_failures ≤ length (record_after c t r ts) + n)
  record_after-IsFilling c now t n r ts le inside wrong new count =
      let all = recent-all t ts (AllRecent-earlier t now ts le new) in
      let more = All-append (λ u. now < u + s.auth_lockout_seconds) ts (t ∷ []) new (inside, tt) in
      rw (all, wrong) (ground (arith, new, more, length-append ts (t ∷ [])))

  record_after-wrong :
      (c : Config) (ip : Text) (now t n : ℕ) (r : Request) (f : Failures)
      → IsWrong c ip now (t, r)
      → IsFilling ip now f (if is_attempt c ip r then n + 1 else n)
      → IsFilling ip now (auth_guard K s c t r f).1 n
  unfolding is_attempt
  record_after-wrong c ip now t n r f (le, inside, wrong) (new, count) =
      elim (Bool-cases (is_guarded c r && ip == client_ip r)) [
        | inl e ↦
            let q =
              record_after-IsFilling c now t n r (failures_of ip f) le inside (wrong (ground arith))
                new (ground arith) in
            rw (auth_guard-record c t r f ip, e) q
        | inr e ↦ rw (auth_guard-record c t r f ip, e) (new, ground arith)
      ]

  serve-wrong :
      (c : Config) (ip : Text) (now : ℕ) (rs : List (ℕ × Request)) (f : Failures)
      → All (IsWrong c ip now) rs
      → IsFilling ip now f (attempts_of c ip rs)
      → IsFilling ip now (serve K s c rs f).1 0
  unfolding serve
  serve-wrong c ip now [] f h k = k
  serve-wrong c ip now ((t, r) ∷ rs) f h k =
      serve-wrong c ip now rs (auth_guard K s c t r f).1 h.1
        (record_after-wrong c ip now t (attempts_of c ip rs) r f h.0 (k.0, ground (arith, k.1)))

  -- Take requests in any order, from any clients, that arrive up to `now`, each less than the
  -- lockout time before it, and none with right credentials from one client, of which nothing is
  -- recorded at first. If at least `auth_max_failures` of them are attempts of that client with
  -- credentials on a protected path, its next request there is refused with 429, whatever
  -- credentials it carries.
  pub auth_guard-locked :
      (c : Config) (now : ℕ) (rs : List (ℕ × Request)) (r : Request) (f : Failures)
      → All (IsWrong c (client_ip r) now) rs
      → s.auth_max_failures ≤ attempts_of c (client_ip r) rs
      → failures_of (client_ip r) f ≡ []
      → is_guarded c r ≡ true
      → (auth_guard K s c now r (serve K s c rs f).1).0 ≡ too_many_requests s.auth_lockout_seconds
  auth_guard-locked c now rs r f wrong enough clean g =
      let start : IsFilling (client_ip r) now f (attempts_of c (client_ip r) rs) =
        (rw clean tt, rw clean (omega (arith, enough))) in
      let (new, full) = serve-wrong c (client_ip r) now rs f wrong start in
      let last = (serve K s c rs f).1 in
      rw (auth_guard-answer c now r last, g, recent-all now (failures_of (client_ip r) last) new)
        (ground arith)
