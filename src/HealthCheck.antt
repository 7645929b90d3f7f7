-- ===== src/HealthCheck.antt =====
-- app/services/health.py: one request to each domain of each enabled source, and what Domains records
-- of it. What a domain answers is a parameter; the failure of a request gives no status.
use mangasama.Base.{
  ℕ, ◌+◌, ◌≡◌, refl, String, Bool, true, false, ◌||◌, Option, none, some, List, [], ◌∷◌, arith, inl,
  inr,
}
use mangasama.Base.{if◌then◌else◌, ◌==◌, nat_eq, string_eq, ltb, length, Bool-cases}
use mangasama.Base.Dict.{Dict}
use mangasama.Models.{DomainHealth}
use mangasama.Sources.{Policy, SourceConfig, is_source_enabled}
use mangasama.Domains.{all_domains_for, record_success, record_failure}

-- `_is_up`
unfoldable pub is_up : ℕ → Bool
is_up status_code = ltb status_code 400 || status_code == 429

-- The counts of a sweep and the rows of the domains.
pub record Sweep : Type 0 where
  pub checked : ℕ
  pub healthy : ℕ
  pub failed : ℕ
  pub rows : List DomainHealth

abbrev pub record_answer : ℕ → String → String → Option ℕ → Sweep → Sweep
record_answer now source domain none w = record w {
  checked = w.checked + 1;
  failed = w.failed + 1;
  rows = record_failure now source domain none w.rows;
}
record_answer now source domain (some status) w =
    if is_up status
    then record w {
      checked = w.checked + 1;
      healthy = w.healthy + 1;
      rows = record_success now source domain (some status) w.rows;
    }
    else record w {
      checked = w.checked + 1;
      failed = w.failed + 1;
      rows = record_failure now source domain (some status) w.rows;
    }

module _ (ping : String → String → Option ℕ) (now : ℕ) where
  unfoldable pub check_domains : String → List String → Sweep → Sweep
  check_domains source [] w = w
  check_domains source (domain ∷ domains) w =
      check_domains source domains (record_answer now source domain (ping source domain) w)

  abbrev pub check_if : Bool → String → SourceConfig → Sweep → Sweep
  check_if true source cfg w = check_domains source (all_domains_for cfg) w
  check_if false source cfg w = w

  unfoldable pub check_sources : Policy → Dict String SourceConfig → Sweep → Sweep
  check_sources p [] w = w
  check_sources p ((source, cfg) ∷ sources) w =
      check_sources p sources (check_if (is_source_enabled p source) source cfg w)

  unfoldable pub check_all_domains : Policy → List DomainHealth → Sweep
  check_all_domains p rows =
      check_sources p p.sources (record { checked = 0; healthy = 0; failed = 0; rows = rows })

  -- The number of domains of the enabled sources.
  abbrev pub domains_of : Policy → Dict String SourceConfig → ℕ
  domains_of p [] = 0
  domains_of p ((source, cfg) ∷ sources) =
      (if is_source_enabled p source then length (all_domains_for cfg) else 0)
      + domains_of p sources

  IsCounted : ℕ → Sweep → Sweep → Type 0
  IsCounted n w w' =
      (w'.checked ≡ w.checked + n)
      × (w'.healthy + w'.failed + w.checked ≡ w.healthy + w.failed + w'.checked)

  record_answer-IsCounted :
      (source domain : String) (answer : Option ℕ) (w : Sweep)
      → IsCounted 1 w (record_answer now source domain answer w)
  unfolding IsCounted
  record_answer-IsCounted source domain none w = (refl, omega arith)
  record_answer-IsCounted source domain (some status) w = elim (Bool-cases (is_up status)) [
    | inl e ↦ rw e (refl, omega arith)
    | inr e ↦ rw e (refl, omega arith)
  ]

  check_domains-IsCounted :
      (source : String) (domains : List String) (w : Sweep)
      → IsCounted (length domains) w (check_domains source domains w)
  unfolding check_domains IsCounted
  check_domains-IsCounted source [] w = (omega arith, refl)
  check_domains-IsCounted source (domain ∷ domains) w =
      let w' = record_answer now source domain (ping source domain) w in
      let (a, b) = record_answer-IsCounted source domain (ping source domain) w in
      let (c, d) = check_domains-IsCounted source domains w' in
      (omega (arith, a, c), omega (arith, b, d))

  check_if-IsCounted :
      (enabled : Bool) (source : String) (cfg : SourceConfig) (w : Sweep)
      → IsCounted
          (if enabled then length (all_domains_for cfg) else 0)
          w
          (check_if enabled source cfg w)
  unfolding IsCounted
  check_if-IsCounted true source cfg w = check_domains-IsCounted source (all_domains_for cfg) w
  check_if-IsCounted false source cfg w = (omega arith, refl)

  check_sources-IsCounted :
      (p : Policy) (sources : Dict String SourceConfig) (w : Sweep)
      → IsCounted (domains_of p sources) w (check_sources p sources w)
  unfolding check_sources IsCounted
  check_sources-IsCounted p [] w = (omega arith, refl)
  check_sources-IsCounted p ((source, cfg) ∷ sources) w =
      let (a, b) = check_if-IsCounted (is_source_enabled p source) source cfg w in
      let (c, d) =
        check_sources-IsCounted p sources (check_if (is_source_enabled p source) source cfg w) in
      (omega (arith, a, c), omega (arith, b, d))

  -- A sweep checks each domain of each enabled source once, whatever fails on the way, and counts it
  -- either as healthy or as failed.
  pub check_all_domains_counts :
      (p : Policy) (rows : List DomainHealth)
      → let w = check_all_domains p rows in
        (w.checked ≡ domains_of p p.sources) × (w.healthy + w.failed ≡ w.checked)
  unfolding check_all_domains IsCounted
  check_all_domains_counts p rows =
      let (a, b) =
        check_sources-IsCounted p p.sources
          (record { checked = 0; healthy = 0; failed = 0; rows = rows }) in
      (omega (arith, a), omega (arith, b))
