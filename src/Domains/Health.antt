-- ===== src/Domains/Health.antt =====
-- The order of the rows by health, and which rows cannot be compared (app/scrapers/domain_registry.py).
use mangasama.Base.{
  ◌≤◌, ◌<◌, ◌⊎◌, ◌≢◌, Bool, ◌≡◌, sym, ◌∙◌, String, true, false, none, List, [], ◌∷◌, arith,
}
use mangasama.Base.{string_eq, nat_eq, Bool-cases, inl, inr, All, All-imp, get_or, anyb, is_some}
use mangasama.Base.Dict.{Dict}
use mangasama.Models.{DomainHealth}
use mangasama.Domains.{candidates, health_leb, mixed, incomparable}
use mangasama.Domains.Candidates.{Named, Candidate, candidates-All}

pub health_leb_total : (r s : DomainHealth) → health_leb r s ≡ false → health_leb s r ≡ true
unfolding health_leb
health_leb_total r s h = ground arith

pub health_leb_trans :
    (r s t : DomainHealth) → health_leb r s ≡ true → health_leb s t ≡ true → health_leb r t ≡ true
unfolding health_leb
health_leb_trans r s t h k = ground arith

pub health_leb_refl : (r : DomainHealth) → health_leb r r ≡ true
unfolding health_leb
health_leb_refl r = ground arith

-- The row is healthy and the other is not; or they are alike in that, and the row has failed less
-- often; or as often, and not later.
abbrev pub IsAhead : DomainHealth → DomainHealth → Type 0
IsAhead r s =
    ((r.healthy ≡ true) × (s.healthy ≡ false))
    ⊎ ((r.healthy ≡ s.healthy)
        × ((r.fail_count < s.fail_count)
            ⊎ ((r.fail_count ≡ s.fail_count) × (get_or r.last_fail 0 ≤ get_or s.last_fail 0))))

pub health_leb-IsAhead : (r s : DomainHealth) → health_leb r s ≡ true → IsAhead r s
unfolding health_leb
health_leb-IsAhead r s h = elim (Bool-cases r.healthy) [
  | inl e ↦ elim (Bool-cases s.healthy) [
    | inl f ↦ inr (e ∙ sym f, ground (arith, h, e, f))
    | inr f ↦ inl (e, f)
  ]
  | inr e ↦ elim (Bool-cases s.healthy) [
    | inl f ↦ ground (arith, h, e, f)
    | inr f ↦ inr (e ∙ sym f, ground (arith, h, e, f))
  ]
]

-- Two rows whose order comes down to a date that one has and the other lacks.
pub record Undecided (rows : Dict String DomainHealth) (ds : List String) : Type 0 where
  pub dated : DomainHealth
  pub undated : DomainHealth
  pub first : Candidate rows ds dated
  pub second : Candidate rows ds undated
  pub alike : dated.healthy ≡ undated.healthy
  pub as_often : dated.fail_count ≡ undated.fail_count
  pub date : is_some dated.last_fail ≡ true
  pub no_date : undated.last_fail ≡ none

-- The first row has no date, or the second one has, or they differ in health or failures.
abbrev pub AreComparable : DomainHealth → DomainHealth → Type 0
AreComparable r s =
    (r.last_fail ≡ none)
    ⊎ ((is_some s.last_fail ≡ true) ⊎ ((r.healthy ≢ s.healthy) ⊎ (r.fail_count ≢ s.fail_count)))

anyb-witness {ℓ} :
    {A : Type 0} {P : A → Type ℓ} (p : A → Bool) (xs : List A)
    → All P xs
    → anyb p xs ≡ true
    → (x : A) × P x × (p x ≡ true)
anyb-witness p [] all h = cc
anyb-witness p (x ∷ xs) all h = elim (Bool-cases (p x)) [
  | inl e ↦ (x, all.0, e)
  | inr e ↦ anyb-witness p xs all.1 (rw e at h)
]

anyb-none :
    {A : Type 0} (p : A → Bool) (xs : List A) → anyb p xs ≡ false → All (λ x. p x ≡ false) xs
anyb-none p [] h = tt
anyb-none p (x ∷ xs) h = elim (Bool-cases (p x)) [
  | inl e ↦ let h' = rw e at h in cc
  | inr e ↦ (e, anyb-none p xs (rw e at h))
]

incomparable-parts :
    (r s : DomainHealth)
    → incomparable r s ≡ true
    → (r.healthy ≡ s.healthy)
      × (r.fail_count ≡ s.fail_count)
      × (is_some r.last_fail ≡ true)
      × (s.last_fail ≡ none)
unfolding incomparable
incomparable-parts r s h = ground (arith, h)

comparable-parts : (r s : DomainHealth) → incomparable r s ≡ false → AreComparable r s
unfolding incomparable
comparable-parts r s h = ground (arith, h)

pub mixed-Undecided :
    (rows : Dict String DomainHealth) (ds : List String)
    → Named rows
    → mixed (candidates rows ds) ≡ true
    → Undecided rows ds
unfolding mixed
mixed-Undecided rows ds named h =
    let cs = candidates rows ds in
    let all = candidates-All rows ds named in
    let (r, cr, hr) = anyb-witness (λ r. anyb (incomparable r) cs) cs all h in
    let (s, cs', hs) = anyb-witness (incomparable r) cs all hr in
    let (a, b, c, d) = incomparable-parts r s hs in
    record {
      dated = r;
      undated = s;
      first = cr;
      second = cs';
      alike = a;
      as_often = b;
      date = c;
      no_date = d;
    }

pub mixed-AreComparable :
    (cs : List DomainHealth) → mixed cs ≡ false → All (λ r. All (AreComparable r) cs) cs
unfolding mixed
mixed-AreComparable cs h =
    All-imp (λ r. anyb (incomparable r) cs ≡ false) _ cs
      (λ r e.
        All-imp (λ s. incomparable r s ≡ false) (AreComparable r) cs (comparable-parts r)
          (anyb-none (incomparable r) cs e))
      (anyb-none (λ r. anyb (incomparable r) cs) cs h)
