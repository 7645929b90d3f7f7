-- ===== src/Settings/Health.antt =====
-- The health of the providers and the cleanup of old jobs (app/services/settings_api.py,
-- app/scheduler/jobs.py).
use mangasama.Base.{ℕ, ◌+◌, ◌≡◌, refl, ap, Bool, not, List, [], ◌∷◌, arith}
use mangasama.Base.{string_eq, length, filterb, is_some}
use mangasama.Models.{ProviderJob, Database}
use mangasama.Settings.{is_expired, run_cleanup}

length-filterb-not {ℓ} :
    {A : Type ℓ} (p : A → Bool) (xs : List A)
    → length (filterb p xs) + length (filterb (λ x. not (p x)) xs) ≡ length xs
length-filterb-not p [] = refl
length-filterb-not p (x ∷ xs) = ground (arith, length-filterb-not p xs)

filterb-not_idem {ℓ} :
    {A : Type ℓ} (p : A → Bool) (xs : List A) → filterb p (filterb (λ x. not (p x)) xs) ≡ []
filterb-not_idem p [] = refl
filterb-not_idem p (x ∷ xs) = ground (arith, filterb-not_idem p xs)

unfinished_kept :
    (now days : ℕ) (js : List ProviderJob)
    → filterb (λ j. not (is_some j.finished_at)) (filterb (λ j. not (is_expired now days j)) js)
      ≡ filterb (λ j. not (is_some j.finished_at)) js
unfolding is_expired
unfinished_kept now days [] = refl
unfinished_kept now days (j ∷ js) = ground (arith, unfinished_kept now days js)

-- The cleanup reports as many jobs as it deletes, keeps every job that is not finished, and a
-- second cleanup at the same moment deletes none.
pub run_cleanup_complete :
    (now days : ℕ) (db : Database)
    → let (n, db') = run_cleanup now days db in
      (n + length db'.jobs ≡ length db.jobs)
      × ((run_cleanup now days db').0 ≡ 0)
      × (filterb (λ j. not (is_some j.finished_at)) db'.jobs
          ≡ filterb (λ j. not (is_some j.finished_at)) db.jobs)
unfolding run_cleanup
run_cleanup_complete now days db = (
  length-filterb-not (is_expired now days) db.jobs,
  ap length (filterb-not_idem (is_expired now days) db.jobs),
  unfinished_kept now days db.jobs,
)
