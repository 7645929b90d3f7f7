-- ===== src/Follow/Sweep.antt =====
-- The sweep over the series that are due (`check_due_series` of app/services/follow.py).
use mangasama.Base.{
  ℕ, ◌<◌, ◌≡◌, refl, ap, ◌∙◌, sym, String, Bool, true, false, not, ◌&&◌, Option, none, some, List,
  [], ◌∷◌, map, arith,
}
use mangasama.Base.{◌==◌, nat_eq, contains, filterb, anyb, All, All-imp, Bool-cases, inl, inr}
use mathlib.Core.Path.{subst}
use mangasama.Errors.{Result, ok, err, raised, series_not_found_db, >>=-eq-ok}
use mangasama.Models.{Series, Library, Database}
use mangasama.Models.Query.{one_or_none, update_where, one_or_none-update_same}
use mangasama.Sources.{Policy}
use mangasama.Languages.{ScrapedChapter}
use mangasama.Follow.{
  World, Enqueued, load_series, record_check, check_loaded, check_series, interval, is_due, due_ids,
  sweep, check_due_series, checked, run_check, list_missing, is_row_due, mark_checked,
}

anyb-false {ℓ} :
    {A : Type ℓ} (p : A → Bool) (xs : List A) → ((x : A) → p x ≡ false) → anyb p xs ≡ false
anyb-false p [] h = refl
anyb-false p (x ∷ xs) h = rw (h x) (anyb-false p xs h)

interval-pos : (l : Library) → 0 < interval l
interval-pos l = ground arith

abbrev checked_now : ℕ → Series → Series
checked_now now s = record s { last_checked_at = some now }

not_due : (now : ℕ) (s : Series) (l : Library) → is_due now (checked_now now s) l ≡ false
not_due now s l = ground (arith, interval-pos l)

checked_not_due :
    (now : ℕ) (libs : List Library) (s : Series) → is_row_due now libs (checked_now now s) ≡ false
unfolding is_row_due
checked_not_due now libs s =
    rw
      (anyb-false (λ l. l.id == s.library_id && is_due now (checked_now now s) l) libs
        (λ l. ground (arith, not_due now s l)))
      (ground arith)

-- Every row that is due is among the ids.
abbrev DueAmong : ℕ → List Library → List ℕ → Series → Type 0
DueAmong now libs sids s = is_row_due now libs s ≡ true → contains sids s.id ≡ true

mark-DueAmong :
    (now : ℕ) (libs : List Library) (sid : ℕ) (sids : List ℕ) (rows : List Series)
    → All (DueAmong now libs (sid ∷ sids)) rows
    → All (DueAmong now libs sids) (mark_checked now sid rows)
unfolding mark_checked update_where
mark-DueAmong now libs sid sids [] h = tt
mark-DueAmong now libs sid sids (s ∷ rows) h = elim (Bool-cases (s.id == sid)) [
  | inl e ↦ rw e (
    (λ d. absurd (true_false (sym d ∙ checked_not_due now libs s))),
    mark-DueAmong now libs sid sids rows h.1,
  )
  | inr e ↦ rw e ((λ d. other s.id e (h.0 d)), mark-DueAmong now libs sid sids rows h.1)
]
  where
    true_false : true ≡ false → ⊥
    true_false e = cc

    other : (i : ℕ) → (i == sid) ≡ false → contains (sid ∷ sids) i ≡ true → contains sids i ≡ true
    other i e c = ground arith

-- A series that `load_series` finds.
abbrev pub Loads : Database → ℕ → Type 0
Loads db sid = (s : Series) × (load_series sid db ≡ ok s)

load_series-Loads :
    (sid : ℕ) (db : Database) (s : Series)
    → one_or_none (λ x. x.id == sid && not x.deleted) db.series ≡ ok (some s)
    → load_series sid db ≡ ok s
unfolding load_series
load_series-Loads sid db s h = rw h

Loads-one_or_none :
    (db : Database) (sid : ℕ) (s : Series)
    → load_series sid db ≡ ok s
    → one_or_none (λ x. x.id == sid && not x.deleted) db.series ≡ ok (some s)
unfolding load_series
Loads-one_or_none db sid s h =
    let (o, e, h₁) = >>=-eq-ok (one_or_none (λ x. x.id == sid && not x.deleted) db.series) _ h in
    e ∙ ap ok (found o h₁)
  where
    found :
        (o : Option Series)
        → elim o as (λ _. Result Series) [ none ↦ err (raised series_not_found_db) | some s ↦ ok s ]
          ≡ ok s
        → o ≡ some s
    found none h = cc
    found (some x) h = cc

record_check-Loads :
    (now j : ℕ) (r : Enqueued) (db : Database) (sid : ℕ)
    → Loads db sid
    → Loads (record_check now j r db) sid
unfolding record_check mark_checked
record_check-Loads now j r db sid (s, h) = (
  _,
  load_series-Loads sid _ _ (
      one_or_none-update_same (λ x. x.id == sid && not x.deleted) (λ x. x.id == j) (checked_now now)
        db.series s (λ y. refl) (Loads-one_or_none db sid s h)),
)

-- No row is due.
due_ids-nil :
    (now : ℕ) (libs : List Library) (rows : List Series)
    → All (DueAmong now libs []) rows
    → filterb (is_row_due now libs) rows ≡ []
due_ids-nil now libs [] h = refl
due_ids-nil now libs (s ∷ rows) h = elim (Bool-cases (is_row_due now libs s)) [
  | inl e ↦ absurd (nothing (h.0 e))
  | inr e ↦ rw e (due_ids-nil now libs rows h.1)
]
  where
    nothing : false ≡ true → ⊥
    nothing e = cc

module _ (p : Policy) (get_chapters : String → String → Result (List ScrapedChapter)) where
  -- What is left when the ids are swept: no error is counted and no series is due.
  abbrev Cleared : ℕ → ℕ → ℕ × World → Type 0
  Cleared now errors x = (x.0 ≡ errors) × (due_ids now x.1.db ≡ [])

  check_series-loaded :
      (now sid : ℕ) (w : World) (s : Series)
      → load_series sid w.db ≡ ok s
      → check_series p get_chapters now sid w ≡ ok (check_loaded p get_chapters now sid w s)
  unfolding check_series
  check_series-loaded now sid w s h = rw h

  sweep-step :
      (now sid : ℕ) (sids : List ℕ) (w : World) (errors : ℕ) (x : Enqueued × World)
      → check_series p get_chapters now sid w ≡ ok x
      → sweep p get_chapters now (sid ∷ sids) w errors ≡ sweep p get_chapters now sids x.1 errors
  unfolding sweep
  sweep-step now sid sids w errors x h =
      ap (λ r. sweep p get_chapters now sids (checked r w errors).1 (checked r w errors).0) h

  sweep-Cleared :
      (now : ℕ) (sids : List ℕ) (w : World) (errors : ℕ)
      → All (Loads w.db) sids
      → All (DueAmong now w.db.libraries sids) w.db.series
      → Cleared now errors (sweep p get_chapters now sids w errors)
  unfolding sweep due_ids check_loaded record_check
  sweep-Cleared now [] w errors l d =
      (refl, ap (map (λ s. s.id)) (due_ids-nil now w.db.libraries w.db.series d))
  sweep-Cleared now (sid ∷ sids) w errors l d =
      let (s, loaded) = l.0 in
      let w' : World = (check_loaded p get_chapters now sid w s).1 in
      rw (sweep-step now sid sids w errors _ (check_series-loaded now sid w s loaded)) (
        sweep-Cleared now sids w' errors
          (All-imp (Loads w.db) (Loads w'.db) sids
            (λ j h.
              record_check-Loads now sid
                (run_check (list_missing p get_chapters w.db s none) sid w.queue) w.db j h)
            l.1)
          (mark-DueAmong now w.db.libraries sid sids w.db.series d))

abbrev due : ℕ → List Library → List Series → List ℕ
due now libs rows = map (λ s. s.id) (filterb (is_row_due now libs) rows)

due_keep :
    (now : ℕ) (libs : List Library) (s : Series) (rows : List Series)
    → is_row_due now libs s ≡ true
    → due now libs (s ∷ rows) ≡ s.id ∷ due now libs rows
due_keep now libs s rows h = rw h refl

due_skip :
    (now : ℕ) (libs : List Library) (s : Series) (rows : List Series)
    → is_row_due now libs s ≡ false
    → due now libs (s ∷ rows) ≡ due now libs rows
due_skip now libs s rows h = rw h refl

one_more : (i j : ℕ) (sids : List ℕ) → contains sids i ≡ true → contains (j ∷ sids) i ≡ true
one_more i j sids h = ground arith

due_among :
    (now : ℕ) (libs : List Library) (rows : List Series)
    → All (DueAmong now libs (due now libs rows)) rows
due_among now libs [] = tt
due_among now libs (s ∷ rows) = elim (Bool-cases (is_row_due now libs s)) [
  | inl e ↦
      subst (λ sids. All (DueAmong now libs sids) (s ∷ rows)) (sym (due_keep now libs s rows e))
        (
          λ d. ground arith,
          All-imp (DueAmong now libs (due now libs rows))
              (DueAmong now libs (s.id ∷ due now libs rows)) rows
              (λ r h d. one_more r.id s.id (due now libs rows) (h d)) (due_among now libs rows),
        )
  | inr e ↦
      subst (λ sids. All (DueAmong now libs sids) (s ∷ rows)) (sym (due_skip now libs s rows e))
        (λ d. cc (d, e), due_among now libs rows)
]

-- If each series that is due can be loaded, as the primary key sees to, `check_due_series` goes
-- through without an error and leaves no series due, whatever the sources answer and however full
-- the queue is.
pub check_due_series_clears :
    (p : Policy) (get_chapters : String → String → Result (List ScrapedChapter)) (now : ℕ)
    (w : World)
    → All (Loads w.db) (due_ids now w.db)
    → ((check_due_series p get_chapters now w).0 ≡ 0)
      × (due_ids now (check_due_series p get_chapters now w).1.db ≡ [])
unfolding check_due_series due_ids
check_due_series_clears p get_chapters now w h =
    sweep-Cleared p get_chapters now (due_ids now w.db) w 0 h
      (due_among now w.db.libraries w.db.series)
