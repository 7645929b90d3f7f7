-- ===== src/SeriesService/Rows.antt =====
-- The rows of series after the service changes them (app/services/series.py).
use mangasama.Base.{
  ℕ, ◌≡◌, refl, ap, ◌∙◌, Bool, true, false, Option, none, some, List, [], ◌∷◌, arith, ◌≢◌, ◌⊎◌,
}
use mangasama.Base.{◌==◌, nat_eq, filterb, All, inl, inr, is_some}
use mathlib.Core.Path.{subst}
use mangasama.Errors.{ok, err, raised, series_not_found_db, >>=-eq-ok, ok-injective}
use mangasama.Models.{Series, Database}
use mangasama.Models.Query.{one_or_none, update_where, one_or_none-update, one_or_none-removed}
use mangasama.SeriesService.{
  SeriesUpdate, is_series, found_series, get_series, save_series, patched, update_series,
  with_deleted, soft_delete_series, with_followed, set_followed, followed_since, or_old,
}

get_series-found :
    (id : ℕ) (db : Database) (s : Series)
    → one_or_none (is_series id) db.series ≡ ok (some s)
    → get_series id db ≡ ok s
unfolding get_series
get_series-found id db s h = rw h refl

found_series-some : (o : Option Series) (s : Series) → found_series o ≡ ok s → o ≡ some s
found_series-some none s h = cc
found_series-some (some x) s h = cc

pub found-get_series :
    (id : ℕ) (db : Database) (s : Series)
    → get_series id db ≡ ok s
    → one_or_none (is_series id) db.series ≡ ok (some s)
unfolding get_series
found-get_series id db s h =
    let (o, e, h₁) = >>=-eq-ok (one_or_none (is_series id) db.series) _ h in
    e ∙ ap ok (found_series-some o s h₁)

other_rows :
    (id j : ℕ) (f : Series → Series) (rows : List Series)
    → (id == j) ≡ false
    → ((s : Series) → is_series id s ≡ true → ((f s).id == id) ≡ true)
    → filterb (is_series j) (update_where (is_series id) f rows) ≡ filterb (is_series j) rows
unfolding update_where
other_rows id j f [] differ keeps = refl
other_rows id j f (s ∷ rows) differ keeps =
    ground (arith, keeps s, other_rows id j f rows differ keeps)

get_series-other :
    (id j : ℕ) (f : Series → Series) (db : Database)
    → (id == j) ≡ false
    → ((s : Series) → is_series id s ≡ true → ((f s).id == id) ≡ true)
    → get_series j (save_series id f db) ≡ get_series j db
unfolding get_series save_series one_or_none
get_series-other id j f db differ keeps = rw (other_rows id j f db.series differ keeps) refl

-- The series is found as it is given, and every other series is found as before, or not at all.
abbrev pub IsSaved : ℕ → Series → Database → Database → Type 0
IsSaved id s db db' =
    (get_series id db' ≡ ok s) × ((j : ℕ) → (id == j) ≡ false → get_series j db' ≡ get_series j db)

pub save_series-IsSaved :
    (id : ℕ) (f : Series → Series) (db : Database) (s : Series)
    → ((r : Series) → is_series id r ≡ true → is_series id (f r) ≡ true)
    → get_series id db ≡ ok s
    → IsSaved id (f s) db (save_series id f db)
unfolding save_series
save_series-IsSaved id f db s keeps h = (
  get_series-found id (save_series id f db) (f s)
      (one_or_none-update (is_series id) f db.series s keeps (found-get_series id db s h)),
  λ j differ. get_series-other id j f db differ (λ r k. ground (arith, keeps r k)),
)

-- A series that was changed is found by its id as it is returned, and every other as before.
pub update_series-IsSaved :
    (now id : ℕ) (patch : SeriesUpdate) (db : Database) {s : Series} {db' : Database}
    → update_series now id patch db ≡ ok (s, db')
    → IsSaved id s db db'
unfolding update_series patched
update_series-IsSaved now id patch db {s} {db'} h =
    let (old, got, h₁) = >>=-eq-ok (get_series id db) _ h in
    subst {A = Series × Database} (λ x. IsSaved id x.0 db x.1) (ok-injective _ (s, db') h₁)
      (save_series-IsSaved id (patched now patch) db old (λ r k. k) got)

-- A series that is followed, or is not any more, is found by its id as it is returned, and every
-- other series as before.
pub set_followed-IsSaved :
    (now id : ℕ) (followed : Bool) (db : Database) {s : Series} {db' : Database}
    → set_followed now id followed db ≡ ok (s, db')
    → IsSaved id s db db'
unfolding set_followed
set_followed-IsSaved now id followed db {s} {db'} h =
    let (old, got, h₁) = >>=-eq-ok (get_series id db) _ h in
    subst {A = Series × Database} (λ x. IsSaved id x.0 db x.1) (ok-injective _ (s, db') h₁)
      (save_series-IsSaved id (with_followed now followed) db old (λ r k. k) got)

-- A series that was deleted is not found any more, and every other series is found as before.
pub get_series-soft_delete :
    (id : ℕ) (db : Database) {s : Series} {db' : Database}
    → soft_delete_series id db ≡ ok (s, db')
    → (get_series id db' ≡ err (raised series_not_found_db))
      × ((j : ℕ) → (id == j) ≡ false → get_series j db' ≡ get_series j db)
unfolding soft_delete_series save_series get_series
get_series-soft_delete id db {s} {db'} h =
    let (old, got, h₁) = >>=-eq-ok (get_series id db) _ h in
    subst {A = Series × Database}
      (λ x.
        (get_series id x.1 ≡ err (raised series_not_found_db))
        × ((j : ℕ) → (id == j) ≡ false → get_series j x.1 ≡ get_series j db))
      (ok-injective _ (s, db') h₁)
      (
        rw
            (one_or_none-removed (is_series id) (is_series id) with_deleted db.series (λ r k. k)
              (λ r k. ground arith))
            refl,
        λ j differ. get_series-other id j with_deleted db differ (λ r k. ground arith),
      )

-- A series is followed exactly if the moment is known since when.
abbrev pub IsFollowConsistent : Series → Type 0
IsFollowConsistent s = is_some s.followed_at ≡ s.followed

update_where-All {ℓ} :
    (P : Series → Type ℓ) (p : Series → Bool) (f : Series → Series) (rows : List Series)
    → ((s : Series) → P s → P (f s))
    → All P rows
    → All P (update_where p f rows)
unfolding update_where
update_where-All P p f [] keep h = tt
update_where-All P p f (s ∷ rows) keep h =
    ground (arith, h.0, keep s h.0, update_where-All P p f rows keep h.1)

followed_since-consistent :
    (now : ℕ) (sent : Option Bool) (since : Option ℕ) (followed : Bool)
    → sent ≢ some false
    → is_some since ≡ followed
    → is_some (followed_since now sent since) ≡ or_old sent followed
followed_since-consistent now none since followed h k = k
followed_since-consistent now (some true) since followed h k = refl
followed_since-consistent now (some false) since followed h k = absurd (h refl)

-- Following and unfollowing, and a change that does not unfollow, keep it that each series is
-- followed exactly if the moment is known since when.
pub update-IsFollowConsistent :
    (now id : ℕ) (followed : Bool) (patch : SeriesUpdate) (db : Database) {s : Series}
    {db' : Database}
    → patch.followed ≢ some false
    → All IsFollowConsistent db.series
    → (set_followed now id followed db ≡ ok (s, db'))
      ⊎ (update_series now id patch db ≡ ok (s, db'))
    → All IsFollowConsistent db'.series
unfolding set_followed update_series save_series patched
update-IsFollowConsistent now id followed patch db {s} {db'} not_unfollowed all (inl h) =
    let (old, got, h₁) = >>=-eq-ok (get_series id db) _ h in
    subst {A = Series × Database} (λ x. All IsFollowConsistent x.1.series)
      (ok-injective _ (s, db') h₁)
      (update_where-All IsFollowConsistent (is_series id) (with_followed now followed) db.series
        (λ r k. ground arith) all)
update-IsFollowConsistent now id followed patch db {s} {db'} not_unfollowed all (inr h) =
    let (old, got, h₁) = >>=-eq-ok (get_series id db) _ h in
    subst {A = Series × Database} (λ x. All IsFollowConsistent x.1.series)
      (ok-injective _ (s, db') h₁)
      (update_where-All IsFollowConsistent (is_series id) (patched now patch) db.series
        (λ r k.
          followed_since-consistent now patch.followed r.followed_at r.followed not_unfollowed k)
        all)
