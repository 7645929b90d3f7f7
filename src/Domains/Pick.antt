-- ===== src/Domains/Pick.antt =====
-- Which domain `pick_domain` of app/scrapers/domain_registry.py picks.
use mangasama.Base.{◌≡◌, String, true, Option, some, List}
use mangasama.Base.{string_eq, nat_eq, All, contains}
use mangasama.Base.Dict.{Dict, lookup}
use mangasama.Base.Sort
use mangasama.Errors.{Result, ok, ◌>>=◌}
use mangasama.Models.{DomainHealth}
use mangasama.Domains.{candidates, first_domain}
use mangasama.Domains.Health.{IsAhead}

-- A domain whose row is a candidate, and no candidate comes before it.
pub record Picked (rows : Dict String DomainHealth) (ds : List String) (d : String) : Type 0 where
  pub row : DomainHealth
  pub found : lookup d rows ≡ some row
  pub known : contains ds d ≡ true
  pub least : All (IsAhead row) (candidates rows ds)

abbrev after_sort : String → Result (List DomainHealth) → Result (Option String)
after_sort primary sorted = sorted >>= (λ rows. ok (first_domain primary rows)) >>= λ d. ok (some d)
