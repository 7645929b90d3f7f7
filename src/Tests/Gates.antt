-- ===== src/Tests/Gates.antt =====
-- The gate over the API.
use mangasama.Base.{◌≡◌, refl, ℕ, Bool, true, false, none, some, List, [], ◌∷◌, ◌==◌, arith}
use mangasama.Text.{codes, text_eq}
use mangasama.Setup.{verify_basic_auth}
use mangasama.Gate.{
  Request, LockoutSettings, GateAnswer, auth_guard, serve, path_needs_auth, failures_of, recent,
  security_headers,
}
use mangasama.Gate.GateAnswer.{passed_on, unauthorized, too_many_requests}
use mangasama.Gate.Lockout.{auth_guard-passed_on, auth_guard-locked}
use mangasama.Gate.History.{ideal_answers, serve-ideal_answers}
use mangasama.Tests.Accounts.{crypto, configured}

abbrev limits : LockoutSettings
limits = record { auth_max_failures = 2; auth_lockout_seconds = 60 }

abbrev series_request : Request
series_request = record {
  method = "GET";
  path = codes "/api/series";
  client = some (codes "10.0.0.7");
  authorization = some (codes "Basic YWRtaW4=");
}

abbrev guess : Request
guess = record {
  method = "GET";
  path = codes "/api/series";
  client = some (codes "10.0.0.7");
  authorization = some (codes "Bearer x");
}

abbrev guesses : List (ℕ × Request)
guesses = (100, guess) ∷ (110, guess) ∷ []

open_paths : path_needs_auth (codes "/api/setup/admin") ≡ false
unfolding auth_guard serve path_needs_auth failures_of recent mangasama.Gate.pop
    mangasama.Gate.client_ip mangasama.Gate.has_credentials mangasama.Gate.record_failure
    mangasama.Gate.is_guarded mangasama.Gate.is_locked mangasama.Base.Dict.lookup
    mangasama.Base.Dict.insert text_eq mangasama.Base.string_eq mangasama.Base.nat_eq
    mangasama.Text.starts_with verify_basic_auth mangasama.Setup.is_setup_completed
    mangasama.Setup.read_admin mangasama.Setup.check_header mangasama.Setup.check_credentials
    mangasama.Text.before mangasama.Text.after mangasama.Text.lower mangasama.Text.lower_char
    mangasama.Gate.Lockout.is_attempt
open_paths = refl

after_the_lockout :
    (serve crypto limits configured
      ((100, guess) ∷ (110, guess) ∷ (130, series_request) ∷ (171, series_request) ∷ [])
      []).0
    ≡ unauthorized ∷ unauthorized ∷ too_many_requests 60 ∷ passed_on ∷ []
unfolding auth_guard serve path_needs_auth failures_of recent mangasama.Gate.pop
    mangasama.Gate.client_ip mangasama.Gate.has_credentials mangasama.Gate.record_failure
    mangasama.Gate.is_guarded mangasama.Gate.is_locked mangasama.Base.Dict.lookup
    mangasama.Base.Dict.insert text_eq mangasama.Base.string_eq mangasama.Base.nat_eq
    mangasama.Text.starts_with verify_basic_auth mangasama.Setup.is_setup_completed
    mangasama.Setup.read_admin mangasama.Setup.check_header mangasama.Setup.check_credentials
    mangasama.Text.before mangasama.Text.after mangasama.Text.lower mangasama.Text.lower_char
    mangasama.Gate.Lockout.is_attempt
after_the_lockout = refl

auth_guard-passed_on_example :
    (auth_guard crypto limits configured 100 series_request []).0 ≡ passed_on
unfolding auth_guard serve path_needs_auth failures_of recent mangasama.Gate.pop
    mangasama.Gate.client_ip mangasama.Gate.has_credentials mangasama.Gate.record_failure
    mangasama.Gate.is_guarded mangasama.Gate.is_locked mangasama.Base.Dict.lookup
    mangasama.Base.Dict.insert text_eq mangasama.Base.string_eq mangasama.Base.nat_eq
    mangasama.Text.starts_with verify_basic_auth mangasama.Setup.is_setup_completed
    mangasama.Setup.read_admin mangasama.Setup.check_header mangasama.Setup.check_credentials
    mangasama.Text.before mangasama.Text.after mangasama.Text.lower mangasama.Text.lower_char
    mangasama.Gate.Lockout.is_attempt
auth_guard-passed_on_example =
    (auth_guard-passed_on crypto limits configured 100 series_request [] refl).1 (omega arith, refl)

auth_guard-locked_example :
    (auth_guard crypto limits configured 130 series_request
      (serve crypto limits configured guesses []).1).0
    ≡ too_many_requests 60
unfolding auth_guard serve path_needs_auth failures_of recent mangasama.Gate.pop
    mangasama.Gate.client_ip mangasama.Gate.has_credentials mangasama.Gate.record_failure
    mangasama.Gate.is_guarded mangasama.Gate.is_locked mangasama.Base.Dict.lookup
    mangasama.Base.Dict.insert text_eq mangasama.Base.string_eq mangasama.Base.nat_eq
    mangasama.Text.starts_with verify_basic_auth mangasama.Setup.is_setup_completed
    mangasama.Setup.read_admin mangasama.Setup.check_header mangasama.Setup.check_credentials
    mangasama.Text.before mangasama.Text.after mangasama.Text.lower mangasama.Text.lower_char
    mangasama.Gate.Lockout.is_attempt
auth_guard-locked_example =
    auth_guard-locked crypto limits configured 130 guesses series_request []
      ((omega arith, omega arith, λ e. refl), ((omega arith, omega arith, λ e. refl), tt))
      (omega arith) refl refl

serve-ideal_answers_example :
    (serve crypto limits configured guesses []).0
    ≡ ideal_answers crypto limits configured guesses (λ ip. [])
unfolding auth_guard serve path_needs_auth failures_of recent mangasama.Gate.pop
    mangasama.Gate.client_ip mangasama.Gate.has_credentials mangasama.Gate.record_failure
    mangasama.Gate.is_guarded mangasama.Gate.is_locked mangasama.Base.Dict.lookup
    mangasama.Base.Dict.insert text_eq mangasama.Base.string_eq mangasama.Base.nat_eq
    mangasama.Text.starts_with verify_basic_auth mangasama.Setup.is_setup_completed
    mangasama.Setup.read_admin mangasama.Setup.check_header mangasama.Setup.check_credentials
    mangasama.Text.before mangasama.Text.after mangasama.Text.lower mangasama.Text.lower_char
    mangasama.Gate.Lockout.is_attempt
serve-ideal_answers_example =
    serve-ideal_answers crypto limits configured 100 guesses (omega arith, (omega arith, tt))
