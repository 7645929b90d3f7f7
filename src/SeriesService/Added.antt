-- ===== src/SeriesService/Added.antt =====
-- The rows after a series is added from a provider (app/services/series.py).
use mangasama.Base.{
  ℕ, ◌≡◌, refl, ap, ◌∙◌, sym, String, Bool, true, false, Option, none, some, List, arith,
}
use mangasama.Base.{nat_eq, string_eq}
use mathlib.Core.Path.{subst}
use mangasama.Errors.{Result, ok, >>=-eq-ok, ok-injective}
use mangasama.Text.{Text, strip}
use mangasama.Models.{Library, Series, SeriesExternalId, Database}
use mangasama.Models.Query.{one_or_none, one_or_none-append, one_or_none-holds}
use mangasama.Sources
use mangasama.Sources.{ScraperRegistry}
use mangasama.Libraries.{is_library}
use mangasama.SeriesService.Adding.{
  ScrapedSeries, known_library, known_provider, on_source, titled, new_series, reuse_or_add,
  maps_elsewhere, map_external_id, same_title, store_series, add_series_from_provider,
}
use mangasama.SeriesService.Mapped.{IsMapped, map_external_id-IsMapped, map_external_id-again}

known_library-some : (o : Option Library) (l : Library) → known_library o ≡ ok l → o ≡ some l
known_library-some none l h = cc
known_library-some (some x) l h = cc

module _ (ilike : Text → Text → Bool) (registry : ScraperRegistry)
    (scrape : String → String → Result ScrapedSeries) where
  -- What a series that was added has gone through.
  abbrev Steps : ℕ → ℕ → String → String → Text → Database → Series → Database → Type 0
  Steps now library_id provider external_id language db s db' =
      (l : Library) × (scraped : ScrapedSeries) × (existing : Option Series) × (one_or_none
          (is_library false library_id) db.libraries
        ≡ ok (some l))
      × (known_provider (Sources.get provider registry).0 ≡ ok tt)
      × (on_source (scrape provider external_id) ≡ ok scraped)
      × (titled (strip scraped.title) ≡ ok tt)
      × (one_or_none (same_title ilike library_id (strip scraped.title)) db.series ≡ ok existing)
      × (store_series now provider external_id language l scraped existing db ≡ ok (s, db'))

  added-Steps :
      (now library_id : ℕ) (provider external_id : String) (language : Text) (db : Database)
      (s : Series) (db' : Database)
      → add_series_from_provider ilike registry scrape now library_id provider external_id language
          db
        ≡ ok (s, db')
      → Steps now library_id provider external_id language db s db'
  unfolding add_series_from_provider
  added-Steps now library_id provider external_id language db s db' h =
      let (found, e₁, h₁) =
        >>=-eq-ok (one_or_none (is_library false library_id) db.libraries) _ h in
      let (l, e₂, h₂) = >>=-eq-ok (known_library found) _ h₁ in
      let (_, e₃, h₃) = >>=-eq-ok (known_provider (Sources.get provider registry).0) _ h₂ in
      let (scraped, e₄, h₄) = >>=-eq-ok (on_source (scrape provider external_id)) _ h₃ in
      let (_, e₅, h₅) = >>=-eq-ok (titled (strip scraped.title)) _ h₄ in
      let (existing, e₆, h₆) =
        >>=-eq-ok (one_or_none (same_title ilike library_id (strip scraped.title)) db.series) _
          h₅ in
      (l, scraped, existing, e₁ ∙ ap ok (known_library-some found l e₂), e₃, e₄, e₅, e₆, h₆)

abbrev added : Text → Library → ScrapedSeries → Option Series → Database → Series × Database
added language l scraped existing db =
    reuse_or_add existing (new_series l (strip scraped.title) scraped language db) db

module _ (now : ℕ) (provider external_id : String) (language : Text) (l : Library)
    (scraped : ScrapedSeries) where
  -- The series that is returned, the tables that stay, and the new external ids.
  abbrev IsStored : Option Series → Database → Series → Database → Type 0
  IsStored existing db s db' =
      ((added language l scraped existing db).0 ≡ s)
      × ((added language l scraped existing db).1.series ≡ db'.series)
      × (db.libraries ≡ db'.libraries)
      × (map_external_id now s.id provider external_id scraped.url db.external_ids
          ≡ ok db'.external_ids)

  store_series-IsStored :
      (existing : Option Series) (db : Database) {s : Series} {db' : Database}
      → store_series now provider external_id language l scraped existing db ≡ ok (s, db')
      → IsStored existing db s db'
  unfolding store_series
  store_series-IsStored none db {s} {db'} h =
      let (rows, e, h₁) = >>=-eq-ok _ _ h in
      subst {A = Series × Database} (λ x. IsStored none db x.0 x.1) (ok-injective _ (s, db') h₁)
        (refl, refl, refl, e)
  store_series-IsStored (some r) db {s} {db'} h =
      let (rows, e, h₁) = >>=-eq-ok _ _ h in
      subst {A = Series × Database} (λ x. IsStored (some r) db x.0 x.1) (ok-injective _ (s, db') h₁)
        (refl, refl, refl, e)

module _ (ilike : Text → Text → Bool) (registry : ScraperRegistry)
    (scrape : String → String → Result ScrapedSeries) where
  -- A series that is added from a provider has the external id of the provider, unless that one
  -- belongs to another series.
  pub add_series_from_provider-IsMapped :
      (now library_id : ℕ) (provider external_id : String) (language : Text) (db : Database)
      {s : Series} {db' : Database}
      → add_series_from_provider ilike registry scrape now library_id provider external_id language
          db
        ≡ ok (s, db')
      → one_or_none (maps_elsewhere provider external_id s.id) db.external_ids ≡ ok none
      → IsMapped provider external_id s.id db'.external_ids
  add_series_from_provider-IsMapped now library_id provider external_id language db {s} {db'} h
        free =
      let (l, scraped, existing, _, _, _, _, _, h₁) =
        added-Steps ilike registry scrape now library_id provider external_id language db s db' h in
      let (_, _, _, e) =
        store_series-IsStored now provider external_id language l scraped existing db h₁ in
      map_external_id-IsMapped now s.id provider external_id scraped.url db.external_ids free e

  -- The series that was returned is the one that the next search for its title finds.
  found_again :
      (library_id : ℕ) (title : Text) (existing : Option Series) (new : Series) (db : Database)
      → same_title ilike library_id title new ≡ true
      → one_or_none (same_title ilike library_id title) db.series ≡ ok existing
      → one_or_none (same_title ilike library_id title) (reuse_or_add existing new db).1.series
        ≡ ok (some (reuse_or_add existing new db).0)
  found_again library_id title none new db same h =
      one_or_none-append (same_title ilike library_id title) db.series new same h
  found_again library_id title (some r) new db same h = h

  -- Where the series is there already, it is returned, and its external id is mapped.
  store_series-reused :
      (now : ℕ) (provider external_id : String) (language : Text) (l : Library)
      (scraped : ScrapedSeries) (s : Series) (db : Database) (rows : List SeriesExternalId)
      → map_external_id now s.id provider external_id scraped.url db.external_ids ≡ ok rows
      → store_series now provider external_id language l scraped (some s) db
        ≡ ok (s, record db { external_ids = rows })
  unfolding store_series
  store_series-reused now provider external_id language l scraped s db rows h = rw h refl

  -- Where a title matches itself, once a series was added, adding it again, as it stands on the
  -- source, succeeds, gives the same series and makes no second row.
  pub add_series_from_provider-again :
      (now now' library_id : ℕ) (provider external_id : String) (language : Text) (db : Database)
      {s : Series} {db' : Database}
      → ((t : Text) → ilike t t ≡ true)
      → add_series_from_provider ilike registry scrape now library_id provider external_id language
          db
        ≡ ok (s, db')
      → (db'' : Database) × (add_series_from_provider ilike registry scrape now' library_id provider
            external_id language db'
          ≡ ok (s, db''))
        × (db''.series ≡ db'.series)
  unfolding same_title new_series add_series_from_provider
  add_series_from_provider-again now now' lib provider ext language db {s} {db'} self h =
      let (l, scraped, existing, e, known, sc, named, found, h₁) =
        added-Steps ilike registry scrape now lib provider ext language db s db' h in
      let (same_s, rows, libraries, mapped) =
        store_series-IsStored now provider ext language l scraped existing db h₁ in
      let new = new_series l (strip scraped.title) scraped language db in
      let here = one_or_none-holds (is_library false lib) db.libraries l e in
      let first =
        found_again lib (strip scraped.title) existing new db
          (ground (arith, here, self (strip scraped.title))) found in
      let found_s =
        ap (one_or_none (same_title ilike lib (strip scraped.title))) (sym rows)
        ∙ first
        ∙ ap (λ x. ok (some x)) same_s in
      let library_there = ap (one_or_none (is_library false lib)) (sym libraries) ∙ e in
      let (rows', mapped') =
        map_external_id-again now now' s.id provider ext scraped.url db.external_ids mapped in
      let stored = store_series-reused now' provider ext language l scraped s db' rows' mapped' in
      (
        record db' { external_ids = rows' },
        rw library_there (rw known (rw sc (rw named (rw found_s stored)))),
        refl,
      )
