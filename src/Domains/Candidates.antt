-- ===== src/Domains/Candidates.antt =====
-- The rows of the domains that `pick_domain` of app/scrapers/domain_registry.py chooses from.
use mangasama.Base.{◌≡◌, refl, sym, ◌∙◌, ap, String, true, Option, none, some, List, [], ◌∷◌, arith}
use mangasama.Base.{◌==◌, string_eq, nat_eq, Bool-cases, inl, inr, All, All-imp, contains}
use mathlib.Core.Option.{some-injective}
use mangasama.Base.Dict.{Dict, lookup, insert, lookup-insert}
use mangasama.Models.{DomainHealth}
use mangasama.Domains.{by_domain, by_domain_from, candidates, with_row}

-- A row stands under its own domain.
abbrev pub Named : Dict String DomainHealth → Type 0
Named d = (k : String) (r : DomainHealth) → lookup k d ≡ some r → r.domain ≡ k

pub same_name : (s t : String) → (s == t) ≡ true → s ≡ t
same_name s t h = ground arith

insert-Named :
    (r : DomainHealth) (d : Dict String DomainHealth) → Named d → Named (insert r.domain r d)
insert-Named r d h k s e = elim (Bool-cases (k == r.domain)) [
  | inl same ↦
      let e' = rw (lookup-insert k r.domain r d, same) at e in
      cc (some-injective r s e', same_name k r.domain same)
  | inr other ↦ let e' = rw (lookup-insert k r.domain r d, other) at e in h k s e'
]

by_domain_from-Named :
    (rows : List DomainHealth) (d : Dict String DomainHealth)
    → Named d
    → Named (by_domain_from d rows)
unfolding by_domain_from
by_domain_from-Named [] d h = h
by_domain_from-Named (r ∷ rows) d h =
    by_domain_from-Named rows (insert r.domain r d) (insert-Named r d h)

pub by_domain-Named : (source : String) (rows : List DomainHealth) → Named (by_domain source rows)
unfolding by_domain lookup
by_domain-Named source rows = by_domain_from-Named _ [] (λ k r h. cc)

-- A candidate stands under its own domain, which is one of the list.
abbrev pub Candidate : Dict String DomainHealth → List String → DomainHealth → Type 0
Candidate rows ds r = (lookup r.domain rows ≡ some r) × (contains ds r.domain ≡ true)

weaken :
    (rows : Dict String DomainHealth) (d : String) (ds : List String) (r : DomainHealth)
    → Candidate rows ds r
    → Candidate rows (d ∷ ds) r
weaken rows d ds r h = (h.0, ground (arith, h.1))

Candidate-here :
    (rows : Dict String DomainHealth) (d : String) (ds : List String) (r : DomainHealth)
    → r.domain ≡ d
    → lookup d rows ≡ some r
    → Candidate rows (d ∷ ds) r
Candidate-here rows d ds r h k = (ap (λ k. lookup k rows) h ∙ k, ground (arith, h))

with_row-All :
    {P : DomainHealth → Type 0} (o : Option DomainHealth) (rest : List DomainHealth)
    → ((r : DomainHealth) → o ≡ some r → P r)
    → All P rest
    → All P (with_row o rest)
with_row-All none rest f h = h
with_row-All (some r) rest f h = (f r refl, h)

pub candidates-All :
    (rows : Dict String DomainHealth) (ds : List String)
    → Named rows
    → All (Candidate rows ds) (candidates rows ds)
unfolding candidates
candidates-All rows [] h = tt
candidates-All rows (d ∷ ds) h =
    with_row-All (lookup d rows) (candidates rows ds)
      (λ r e. Candidate-here rows d ds r (h d r e) e)
      (All-imp (Candidate rows ds) (Candidate rows (d ∷ ds)) (candidates rows ds) (weaken rows d ds)
        (candidates-All rows ds h))

-- A domain of the list that has a row gives a candidate.
pub candidates-some :
    (rows : Dict String DomainHealth) (ds : List String) (d : String) (r : DomainHealth)
    → contains ds d ≡ true
    → lookup d rows ≡ some r
    → All (λ _. ⊥) (candidates rows ds)
    → ⊥
unfolding candidates
candidates-some rows [] d r c e h = cc
candidates-some rows (k ∷ ds) d r c e h = elim (Bool-cases (d == k)) [
  | inl same ↦ none_left (lookup k rows) (ap (λ s. lookup s rows) (sym (same_name d k same)) ∙ e) h
  | inr other ↦ candidates-some rows ds d r (rw other at c) e (tail_All (lookup k rows) h)
]
  where
    none_left :
        (o : Option DomainHealth) → o ≡ some r → All (λ _. ⊥) (with_row o (candidates rows ds)) → ⊥
    none_left none e h = cc
    none_left (some r) e h = h.0

    tail_All :
        (o : Option DomainHealth)
        → All (λ _. ⊥) (with_row o (candidates rows ds))
        → All (λ _. ⊥) (candidates rows ds)
    tail_All none h = h
    tail_All (some r) h = h.1
