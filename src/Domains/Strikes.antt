-- ===== src/Domains/Strikes.antt =====
-- The record of a domain's health, over successes and failures (app/scrapers/domain_registry.py).
use mangasama.Base.{
  ℕ, zero, suc, ◌≡◌, refl, String, Bool, true, false, ◌&&◌, Option, none, some, List, [], ◌∷◌,
  arith,
}
use mangasama.Base.{◌==◌, string_eq, nat_eq, ltb, find_first}
use mangasama.Models.{DomainHealth}
use mangasama.Domains.{new_row, marked, is_row, update, record_success, record_failure}

-- The row of a domain, as `_update` finds it.
abbrev pub row_of : String → String → List DomainHealth → Option DomainHealth
row_of source domain rows = find_first (is_row source domain) rows

-- What `_update` makes of the row that it finds.
abbrev pub updated : ℕ → String → String → Bool → Option ℕ → Option DomainHealth → DomainHealth
updated now source domain success status none = new_row now source domain success status
updated now source domain success status (some r) = marked now success status r

is_row-marked :
    (now : ℕ) (success : Bool) (status : Option ℕ) (s d : String) (r : DomainHealth)
    → is_row s d (marked now success status r) ≡ is_row s d r
unfolding marked
is_row-marked now true status s d r = refl
is_row-marked now false status s d r = refl

module _ (now : ℕ) (source domain : String) (success : Bool) (status : Option ℕ) where
  is_row-new_row : is_row source domain (new_row now source domain success status) ≡ true
  is_row-new_row = ground arith

  row_of-update :
      (rows : List DomainHealth)
      → row_of source domain (update now source domain success status rows)
        ≡ some (updated now source domain success status (row_of source domain rows))
  unfolding update
  row_of-update [] = ground (arith, is_row-new_row)
  row_of-update (r ∷ rows) =
      ground (arith, is_row-marked now success status source domain r, row_of-update rows)

  -- What is recorded of one domain leaves the rows of all others as they are.
  pub row_of-update_other :
      (s d : String) (rows : List DomainHealth)
      → (s == source && d == domain) ≡ false
      → row_of s d (update now source domain success status rows) ≡ row_of s d rows
  unfolding update
  row_of-update_other s d [] h = ground arith
  row_of-update_other s d (r ∷ rows) h =
      ground (arith, is_row-marked now success status s d r, row_of-update_other s d rows h)

-- `n` failures in a row, at the dates and with the statuses that are given.
abbrev pub failures :
    (ℕ → ℕ) → (ℕ → Option ℕ) → ℕ → String → String → List DomainHealth → List DomainHealth
failures at status zero source domain rows = rows
failures at status (suc n) source domain rows =
    record_failure (at n) source domain (status n) (failures at status n source domain rows)

-- A row that has counted `n` failures since the last success.
abbrev pub Counted : ℕ → Option DomainHealth → Type 0
Counted n none = ⊥
Counted n (some r) = (r.fail_count ≡ n) × (r.healthy ≡ ltb n 3)

marked-Counted :
    (now n : ℕ) (source domain : String) (status : Option ℕ) (o : Option DomainHealth)
    → Counted n o
    → Counted (suc n) (some (updated now source domain false status o))
unfolding marked
marked-Counted now n source domain status none h = absurd h
marked-Counted now n source domain status (some r) h =
    (ground (arith, h.0), ground (arith, h.0, h.1))

success-Counted :
    (now : ℕ) (source domain : String) (status : Option ℕ) (o : Option DomainHealth)
    → Counted 0 (some (updated now source domain true status o))
unfolding marked
success-Counted now source domain status none = (refl, refl)
success-Counted now source domain status (some r) = (refl, refl)

-- Whatever was recorded before, after a success and n failures in a row a domain has counted n
-- failures, and it is healthy just if n is less than 3.
pub failures-Counted :
    (at : ℕ → ℕ) (status : ℕ → Option ℕ) (now : ℕ) (first : Option ℕ) (source domain : String)
    (rows : List DomainHealth) (n : ℕ)
    → Counted n (
        row_of source domain
          (failures at status n source domain (record_success now source domain first rows)))
failures-Counted at status now first source domain rows zero =
    rw (row_of-update now source domain true first rows)
      (success-Counted now source domain first (row_of source domain rows))
failures-Counted at status now first source domain rows (suc n) =
    rw (row_of-update (at n) source domain false (status n) _) (
      marked-Counted (at n) n source domain (status n) _
        (failures-Counted at status now first source domain rows n))
