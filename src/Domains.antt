-- ===== src/Domains.antt =====
-- app/scrapers/domain_registry.py: which domain of a source is used, and the record of its health.
-- The parsed YAML is a dictionary of `SourceConfig`. SQLite gives dates back without a time zone,
-- and the code stands in a date with one for a missing date: comparing these two raises.
pub mod Strikes
pub mod Candidates
pub mod Health
pub mod Pick
use mangasama.Base.{
  ℕ, zero, suc, ◌+◌, String, Bool, true, false, not, ◌&&◌, ◌||◌, Option, none, some, List, [], ◌∷◌,
}
use mangasama.Base.{
  if◌then◌else◌, ◌==◌, string_eq, nat_eq, ltb, leb, filterb, get_or, find_first, is_some, anyb,
}
use mangasama.Base.Dict.{Dict, lookup, insert}
use mangasama.Base.Sort
use mangasama.Errors.{Result, ok, err, raised, ◌>>=◌, type_error}
use mangasama.Models.{DomainHealth}
use mangasama.Sources.{SourceConfig}

-- `[d for d in [primary, *alts] if d]`
unfoldable pub all_domains_for : SourceConfig → List String
all_domains_for cfg = filterb (λ d. not (d == "")) (get_or cfg.primary "" ∷ cfg.alternates)

-- `{r.domain: r for r in rows}`, of the rows of one source
unfoldable pub by_domain_from :
    Dict String DomainHealth → List DomainHealth → Dict String DomainHealth
by_domain_from d [] = d
by_domain_from d (r ∷ rows) = by_domain_from (insert r.domain r d) rows

unfoldable pub by_domain : String → List DomainHealth → Dict String DomainHealth
by_domain source rows = by_domain_from [] (filterb (λ r. r.source == source) rows)

abbrev pub with_row : Option DomainHealth → List DomainHealth → List DomainHealth
with_row none rest = rest
with_row (some r) rest = r ∷ rest

-- The candidates of a list of domains: those that have a row.
unfoldable pub candidates : Dict String DomainHealth → List String → List DomainHealth
candidates rows [] = []
candidates rows (d ∷ ds) = with_row (lookup d rows) (candidates rows ds)

-- `(not r.healthy, r.fail_count, r.last_fail or datetime.min)`, compared part by part, where the
-- dates can be compared.
unfoldable pub health_leb : DomainHealth → DomainHealth → Bool
health_leb r s =
    if r.healthy && not s.healthy
    then true
    else if s.healthy && not r.healthy
    then false
    else if ltb r.fail_count s.fail_count
    then true
    else if ltb s.fail_count r.fail_count
    then false
    else leb (get_or r.last_fail 0) (get_or s.last_fail 0)

-- The order comes down to the dates, of which one is missing.
unfoldable pub incomparable : DomainHealth → DomainHealth → Bool
incomparable r s =
    not (r.healthy && not s.healthy || s.healthy && not r.healthy)
    && r.fail_count == s.fail_count
    && (is_some r.last_fail && not (is_some s.last_fail))

-- Rows that cannot be compared are somewhere next to each other in the order, so that a sort compares
-- two of them.
unfoldable pub mixed : List DomainHealth → Bool
mixed rows = anyb (λ r. anyb (incomparable r) rows) rows

-- `candidates.sort(key=...)`
unfoldable pub sort_by_health : List DomainHealth → Result (List DomainHealth)
sort_by_health rows = if mixed rows then err (raised type_error) else ok (Sort.sort health_leb rows)

abbrev pub first_domain : String → List DomainHealth → String
first_domain primary [] = primary
first_domain primary (r ∷ rows) = r.domain

-- A primary with a row is used at once only if it is healthy and has not failed.
abbrev pub pick_with : String → Option DomainHealth → List DomainHealth → Result String
pick_with primary none rows = ok primary
pick_with primary (some r) rows =
    if r.healthy && r.fail_count == 0
    then ok primary
    else sort_by_health rows >>= λ sorted. ok (first_domain primary sorted)

abbrev pub pick_primary :
    String → String → SourceConfig → List DomainHealth → Result (Option String)
pick_primary source primary cfg rows =
    if primary == ""
    then ok none
    else pick_with primary (lookup primary (by_domain source rows))
        (candidates (by_domain source rows) (all_domains_for cfg))
      >>= λ d. ok (some d)

abbrev pub pick_for : String → List DomainHealth → Option SourceConfig → Result (Option String)
pick_for source rows none = ok none
pick_for source rows (some cfg) = pick_primary source (get_or cfg.primary "") cfg rows

unfoldable pub pick_domain :
    Dict String SourceConfig → String → List DomainHealth → Result (Option String)
pick_domain sources source rows = pick_for source rows (lookup source sources)

abbrev pub new_row : ℕ → String → String → Bool → Option ℕ → DomainHealth
new_row now source domain success status = record {
  source = source;
  domain = domain;
  last_ok = if success then some now else none;
  last_fail = if success then none else some now;
  fail_count = if success then 0 else 1;
  healthy = true;
  last_status_code = status;
}

unfoldable pub marked : ℕ → Bool → Option ℕ → DomainHealth → DomainHealth
marked now true status r = record r {
  healthy = true;
  fail_count = 0;
  last_ok = some now;
  last_status_code = status;
}
marked now false status r = record r {
  fail_count = r.fail_count + 1;
  last_fail = some now;
  last_status_code = status;
  healthy = if leb 3 (r.fail_count + 1) then false else r.healthy;
}

abbrev pub is_row : String → String → DomainHealth → Bool
is_row source domain r = r.source == source && r.domain == domain

-- `_update`: the first row of the source and domain, or a fresh one.
unfoldable pub update :
    ℕ → String → String → Bool → Option ℕ → List DomainHealth → List DomainHealth
update now source domain success status [] = new_row now source domain success status ∷ []
update now source domain success status (r ∷ rows) =
    let rest = update now source domain success status rows in
    if is_row source domain r then marked now success status r ∷ rows else r ∷ rest

abbrev pub record_success : ℕ → String → String → Option ℕ → List DomainHealth → List DomainHealth
record_success now source domain status rows = update now source domain true status rows

abbrev pub record_failure : ℕ → String → String → Option ℕ → List DomainHealth → List DomainHealth
record_failure now source domain status rows = update now source domain false status rows
