-- ===== src/Gate/History.antt =====
-- The record of failures, which is cut down on each request, against the whole history (app/main.py).
use mangasama.Base.{
  ℕ, ◌+◌, ◌≤◌, ◌≡◌, refl, ap, sym, ◌∙◌, inl, inr, Bool, true, false, not, ◌&&◌, List, [], ◌∷◌, ◌++◌,
  arith,
}
use mangasama.Base.{if◌then◌else◌, ◌==◌, ltb, leb, length, filterb, Bool-cases, All}
use mangasama.Text.{Text, text_eq}
use mangasama.Setup.{Config, Crypto, verify_basic_auth}
use mangasama.Gate.{
  Request, LockoutSettings, Failures, GateAnswer, failures_of, recent, client_ip, has_credentials,
  is_guarded, auth_guard, serve,
}
use mangasama.Gate.Lockout.{record_after, answer_for, auth_guard-answer, auth_guard-record}
use mangasama.Gate.GateAnswer.{passed_on}

-- All failures of each client since it was last let in, the old ones included.
abbrev pub History : Type 0
History = Text → List ℕ

-- The clock does not go back.
abbrev pub IsOrdered : ℕ → List (ℕ × Request) → Type 0
IsOrdered last [] = Unit
IsOrdered last ((now, r) ∷ rs) = (last ≤ now) × IsOrdered now rs

module _ (K : Crypto) (s : LockoutSettings) where
  -- What a guarded request adds to the history of its client.
  abbrev pub history_after : Config → ℕ → Request → List ℕ → List ℕ
  history_after c now r ts =
      if leb s.auth_max_failures (length (recent now s.auth_lockout_seconds ts))
      then ts
      else if verify_basic_auth K r.authorization c
      then []
      else if has_credentials r
      then ts ++ (now ∷ [])
      else ts

  unfoldable pub recall : Config → ℕ → Request → History → History
  recall c now r h ip =
      if is_guarded c r && ip == client_ip r then history_after c now r (h ip) else h ip

  -- The answers of a gate that forgets nothing: a client is locked out while the failures that it
  -- made within the window reach the limit.
  unfoldable pub ideal_answers : Config → List (ℕ × Request) → History → List GateAnswer
  ideal_answers c [] h = []
  ideal_answers c ((now, r) ∷ rs) h =
      (if is_guarded c r then answer_for K s c now r (h (client_ip r)) else passed_on)
      ∷ ideal_answers c rs (recall c now r h)

  -- Two records that show the same at every later moment.
  abbrev SameFrom : ℕ → List ℕ → List ℕ → Type 0
  SameFrom last ts us =
      (now : ℕ)
      → last ≤ now
      → recent now s.auth_lockout_seconds ts ≡ recent now s.auth_lockout_seconds us

  recent-recent :
      (t now : ℕ) (ts : List ℕ)
      → t ≤ now
      → recent now s.auth_lockout_seconds (recent t s.auth_lockout_seconds ts)
        ≡ recent now s.auth_lockout_seconds ts
  unfolding recent
  recent-recent t now [] le = refl
  recent-recent t now (u ∷ ts) le = ground (arith, recent-recent t now ts le)

  recent-append :
      (now : ℕ) (ts us : List ℕ)
      → recent now s.auth_lockout_seconds (ts ++ us)
        ≡ recent now s.auth_lockout_seconds ts ++ recent now s.auth_lockout_seconds us
  unfolding recent
  recent-append now [] us = refl
  recent-append now (t ∷ ts) us = ground (arith, recent-append now ts us)

  SameFrom-after :
      (c : Config) (t last : ℕ) (r : Request) (ts us : List ℕ)
      → last ≤ t
      → SameFrom last ts us
      → SameFrom t (record_after K s c t r ts) (history_after c t r us)
  SameFrom-after c t last r ts us le same now le' =
      let e = same t le in
      let e' = same now (omega arith) in
      let cut = recent-recent t now ts le' in
      ground (
        arith,
        e,
        e',
        cut,
        recent-append now (recent t s.auth_lockout_seconds ts) (t ∷ []),
        recent-append now us (t ∷ []),
      )

  SameFrom-later : (last t : ℕ) (ts us : List ℕ) → last ≤ t → SameFrom last ts us → SameFrom t ts us
  SameFrom-later last t ts us le same now le' = same now (omega arith)

  SameFrom-guard :
      (c : Config) (t last : ℕ) (r : Request) (f : Failures) (h : History) (ip : Text)
      → last ≤ t
      → SameFrom last (failures_of ip f) (h ip)
      → SameFrom t (failures_of ip (auth_guard K s c t r f).1) (recall c t r h ip)
  unfolding recall
  SameFrom-guard c t last r f h ip le same =
      elim (Bool-cases (is_guarded c r && ip == client_ip r)) [
        | inl e ↦
            rw (auth_guard-record K s c t r f ip, e)
              (SameFrom-after c t last r (failures_of ip f) (h ip) le same)
        | inr e ↦
            rw (auth_guard-record K s c t r f ip, e)
              (SameFrom-later last t (failures_of ip f) (h ip) le same)
      ]

  same_answer :
      (c : Config) (t : ℕ) (r : Request) (f : Failures) (h : History)
      → recent t s.auth_lockout_seconds (failures_of (client_ip r) f)
        ≡ recent t s.auth_lockout_seconds (h (client_ip r))
      → (auth_guard K s c t r f).0
        ≡ (if is_guarded c r then answer_for K s c t r (h (client_ip r)) else passed_on)
  same_answer c t r f h e = auth_guard-answer K s c t r f ∙ rw e refl

  pub serve-ideal_answers_from :
      (c : Config) (last : ℕ) (rs : List (ℕ × Request)) (f : Failures) (h : History)
      → IsOrdered last rs
      → ((ip : Text) → SameFrom last (failures_of ip f) (h ip))
      → (serve K s c rs f).0 ≡ ideal_answers c rs h
  unfolding serve ideal_answers recall
  serve-ideal_answers_from c last [] f h ordered same = refl
  serve-ideal_answers_from c last ((t, r) ∷ rs) f h ordered same =
      let p = same_answer c t r f h (same (client_ip r) t ordered.0) in
      let q =
        serve-ideal_answers_from c t rs (auth_guard K s c t r f).1 (recall c t r h) ordered.1
          (λ ip. SameFrom-guard c t last r f h ip ordered.0 (same ip)) in
      λ i. p i ∷ q i

  -- The gate, which drops old failures on each request and keeps no record for a client that is
  -- let in, answers every sequence of requests whose times do not fall as a gate that remembers
  -- every failure since the client was last let in.
  pub serve-ideal_answers :
      (c : Config) (start : ℕ) (rs : List (ℕ × Request))
      → IsOrdered start rs
      → (serve K s c rs []).0 ≡ ideal_answers c rs (λ ip. [])
  unfolding failures_of mangasama.Base.Dict.lookup
  serve-ideal_answers c start rs ordered =
      serve-ideal_answers_from c start rs [] (λ ip. []) ordered (λ ip now le. refl)
