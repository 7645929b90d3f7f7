-- ===== src/Libraries/Rows.antt =====
-- The rows of app/services/library.py after it creates, changes and deletes.
use mangasama.Base.{
  ℕ, ◌<◌, ◌≡◌, refl, ap, ◌∙◌, sym, String, Bool, true, false, not, ◌||◌, Option, none, some, List,
  [], ◌∷◌, ◌++◌, arith,
}
use mangasama.Base.{nat_eq, filterb, All, Bool-cases, inl, inr}
use mathlib.Core.Path.{subst}
use mangasama.Errors.{ok, err, raised, library_not_found, >>=-eq-ok, ok-injective}
use mangasama.Text.{Text}
use mangasama.Models.{Library, Database}
use mangasama.Models.Query.{
  one_or_none, update_where, one_or_none-append, one_or_none-update, one_or_none-removed,
  one_or_none-fresh_and, fresh_above,
}
use mangasama.Sources.{Policy, is_scraper_available}
use mangasama.Libraries.{
  LibraryCreate, LibraryUpdate, none_unknown, validate_providers, is_library, found_library,
  get_library, ensure_root_path, flush_libraries, unique_names, new_library, patched, if_sent,
  create_library, update_library, soft_delete_library,
}

unknown-nil :
    (p : Policy) (providers : List String)
    → filterb (λ name. not (is_scraper_available p name)) providers ≡ []
    → All (λ name. is_scraper_available p name ≡ true) providers
unknown-nil p [] h = tt
unknown-nil p (name ∷ names) h = elim (Bool-cases (is_scraper_available p name)) [
  | inl e ↦ (e, unknown-nil p names (rw e at h))
  | inr e ↦ let h' = rw e at h in cc
]

none_unknown-nil : (names : List String) {x : Unit} → none_unknown names ≡ ok x → names ≡ []
none_unknown-nil [] h = refl
none_unknown-nil (name ∷ names) h = cc

validate_providers-All :
    (p : Policy) (providers : List String) {x : Unit}
    → validate_providers p providers ≡ ok x
    → All (λ name. is_scraper_available p name ≡ true) providers
unfolding validate_providers
validate_providers-All p providers h = unknown-nil p providers (none_unknown-nil _ h)

flush_libraries-rows :
    (rows : List Library) (db : Database) {db' : Database}
    → flush_libraries rows db ≡ ok db'
    → db'.libraries ≡ rows
flush_libraries-rows rows db {db'} h = elim (Bool-cases (unique_names rows)) [
  | inl e ↦ let h' = rw e at h in ap (λ (d : Database). d.libraries) (sym (ok-injective _ db' h'))
  | inr e ↦ let h' = rw e at h in cc
]

get_library-found :
    (include_deleted : Bool) (id : ℕ) (db : Database) (l : Library)
    → one_or_none (is_library include_deleted id) db.libraries ≡ ok (some l)
    → get_library include_deleted id db ≡ ok l
unfolding get_library
get_library-found include_deleted id db l h = rw h

found-get_library :
    (include_deleted : Bool) (id : ℕ) (db : Database) (l : Library)
    → get_library include_deleted id db ≡ ok l
    → one_or_none (is_library include_deleted id) db.libraries ≡ ok (some l)
unfolding get_library
found-get_library include_deleted id db l h =
    let (o, e, h₁) = >>=-eq-ok (one_or_none (is_library include_deleted id) db.libraries) _ h in
    e ∙ ap ok (found o h₁)
  where
    found : (o : Option Library) → found_library o ≡ ok l → o ≡ some l
    found none h = cc
    found (some x) h = cc

-- The library has every value that was asked for, and is not deleted.
abbrev pub IsAsAsked : LibraryCreate → Library → Type 0
IsAsAsked payload l =
    (l.name ≡ payload.name)
    × (l.type ≡ payload.type)
    × (l.root_path ≡ payload.root_path)
    × (l.folder_strategy ≡ payload.folder_strategy)
    × (l.cover_strategy ≡ payload.cover_strategy)
    × (l.providers ≡ payload.providers)
    × (l.italian_priority ≡ payload.italian_priority)
    × (l.follow_interval_hours ≡ payload.follow_interval_hours)
    × (l.jpg_quality ≡ payload.jpg_quality)
    × (l.deleted ≡ false)

-- A library that was created is found by its id, which is above that of every library before, it
-- has every value that was asked for and is not deleted, and each of its providers was available.
pub get_library-create :
    (p : Policy) (writable : Text → Bool) (payload : LibraryCreate) (db : Database) {l : Library}
    {db' : Database}
    → create_library p writable payload db ≡ ok (l, db')
    → (get_library false l.id db' ≡ ok l)
      × All (λ m. m.id < l.id) db.libraries
      × IsAsAsked payload l
      × All (λ name. is_scraper_available p name ≡ true) l.providers
unfolding create_library
get_library-create p writable payload db {l} {db'} h =
    let (_, valid, h₁) = >>=-eq-ok (validate_providers p payload.providers) _ h in
    let (_, _, h₂) = >>=-eq-ok (ensure_root_path writable payload.root_path) _ h₁ in
    let (d, flushed, h₃) =
      >>=-eq-ok (flush_libraries (db.libraries ++ (new_library payload db ∷ [])) db) _ h₂ in
    subst {A = Library × Database}
      (λ x.
        (get_library false x.0.id x.1 ≡ ok x.0)
        × All (λ m. m.id < x.0.id) db.libraries
        × IsAsAsked payload x.0
        × All (λ name. is_scraper_available p name ≡ true) x.0.providers)
      (ok-injective _ (l, db') h₃)
      (
        get_library-found false _ d (new_library payload db) (
            ap (one_or_none (is_library false (new_library payload db).id))
              (flush_libraries-rows _ db flushed)
            ∙ one_or_none-append (is_library false (new_library payload db).id) db.libraries
                (new_library payload db) (ground arith)
                (one_or_none-fresh_and (λ m. m.id) (λ m. false || not m.deleted) db.libraries)),
        fresh_above (λ m. m.id) db.libraries,
        (refl, refl, refl, refl, refl, refl, refl, refl, refl, refl),
        validate_providers-All p payload.providers valid,
      )

patched-is_library :
    (id : ℕ) (patch : LibraryUpdate) (l : Library)
    → is_library false id l ≡ true
    → is_library false id (patched patch l) ≡ true
unfolding patched
patched-is_library id patch l h = h

-- A library that was changed is found by its id with the changes.
pub get_library-update :
    (p : Policy) (writable : Text → Bool) (id : ℕ) (patch : LibraryUpdate) (db : Database)
    {l : Library} {db' : Database}
    → update_library p writable id patch db ≡ ok (l, db')
    → get_library false id db' ≡ ok l
unfolding update_library
get_library-update p writable id patch db {l} {db'} h =
    let (old, got, h₁) = >>=-eq-ok (get_library false id db) _ h in
    let (_, _, h₂) = >>=-eq-ok (if_sent (validate_providers p) patch.providers) _ h₁ in
    let (_, _, h₃) = >>=-eq-ok (if_sent (ensure_root_path writable) patch.root_path) _ h₂ in
    let (d, flushed, h₄) =
      >>=-eq-ok
        (flush_libraries (update_where (is_library false id) (patched patch) db.libraries) db) _
        h₃ in
    subst {A = Library × Database} (λ x. get_library false id x.1 ≡ ok x.0)
      (ok-injective _ (l, db') h₄)
      (get_library-found false id d (patched patch old) (
        ap (one_or_none (is_library false id)) (flush_libraries-rows _ db flushed)
        ∙ one_or_none-update (is_library false id) (patched patch) db.libraries old
            (patched-is_library id patch) (found-get_library false id db old got)))

get_library-missing :
    (id : ℕ) (db : Database)
    → one_or_none (is_library false id) db.libraries ≡ ok none
    → get_library false id db ≡ err (raised library_not_found)
unfolding get_library
get_library-missing id db h = rw h

-- A library that was deleted is not found any more.
pub get_library-soft_delete :
    (id : ℕ) (db : Database) {l : Library} {db' : Database}
    → soft_delete_library id db ≡ ok (l, db')
    → get_library false id db' ≡ err (raised library_not_found)
unfolding soft_delete_library
get_library-soft_delete id db {l} {db'} h =
    let (old, got, h₁) = >>=-eq-ok (get_library false id db) _ h in
    subst {A = Library × Database} (λ x. get_library false id x.1 ≡ err (raised library_not_found))
      (ok-injective _ (l, db') h₁)
      (get_library-missing id _ (
        one_or_none-removed (is_library false id) (is_library false id) _ db.libraries (λ x e. e)
          (λ x e. ground arith)))
