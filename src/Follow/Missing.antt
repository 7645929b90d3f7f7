-- ===== src/Follow/Missing.antt =====
-- What `list_missing` hands to the queue (`check_series` of app/services/follow.py).
use mangasama.Base.{◌≡◌, ◌≢◌, String, Bool, true, false, Option, List, [], ◌∷◌, arith}
use mangasama.Base.{
  string_eq, pair_eq, contains, filterb, filterb-All, All, All-imp, All-filterb, Bool-cases, inl,
  inr,
}
use mangasama.Errors.{Result, ok, >>=-eq-ok, ok-injective}
use mathlib.Core.Path.{subst}
use mangasama.Sources
use mangasama.Text.{Text, text_eq}
use mangasama.Models.{Database, Series}
use mangasama.Languages.{ScrapedChapter}
use mangasama.Sources.{Policy}
use mangasama.Follow.{
  list_missing, list_selected, existing_keys, is_missing, library_of, pick_provider, by_provider,
}
use mangasama.Follow.Dedup.{UniqueNumbers, list_selected-UniqueNumbers}

UniqueNumbers-filterb :
    (p : ScrapedChapter → Bool) (cs : List ScrapedChapter)
    → UniqueNumbers cs
    → UniqueNumbers (filterb p cs)
UniqueNumbers-filterb p [] u = tt
UniqueNumbers-filterb p (c ∷ cs) u = elim (Bool-cases (p c)) [
  | inl e ↦ rw e (All-filterb (λ d. d.number ≢ c.number) p cs u.0, UniqueNumbers-filterb p cs u.1)
  | inr e ↦ rw e (UniqueNumbers-filterb p cs u.1)
]

missing→absent :
    (keys : List (String × Text)) (c : ScrapedChapter)
    → is_missing keys c ≡ true
    → contains keys (c.external_id, c.language) ≡ false
missing→absent keys c h = ground arith

-- The chapters are new to the database, and no two of them have one number.
abbrev pub AreNew : Database → Series → String → List ScrapedChapter → Type 0
AreNew db s provider missing =
    All (λ c. contains (existing_keys db s.id provider) (c.external_id, c.language) ≡ false) missing
    × UniqueNumbers missing

filtered-AreNew :
    (db : Database) (s : Series) (provider : String) (cs : List ScrapedChapter)
    → UniqueNumbers cs
    → AreNew db s provider (filterb (is_missing (existing_keys db s.id provider)) cs)
filtered-AreNew db s provider cs u =
    let keys = existing_keys db s.id provider in
    (
      All-imp (λ c. is_missing keys c ≡ true) _ (filterb (is_missing keys) cs) (missing→absent keys)
          (filterb-All (is_missing keys) cs),
      UniqueNumbers-filterb (is_missing keys) cs u,
    )

-- Whatever the sources answer, the chapters that are handed to the queue are new to the database,
-- and no two of them have one number.
pub list_missing-AreNew :
    (p : Policy) (get_chapters : String → String → Result (List ScrapedChapter)) (db : Database)
    (s : Series) (priority : Option (List Text)) (provider : String) (missing : List ScrapedChapter)
    → list_missing p get_chapters db s priority ≡ ok (provider, missing)
    → AreNew db s provider missing
unfolding list_missing
list_missing-AreNew p get_chapters db s priority provider missing h =
    let (l, _, h₁) = >>=-eq-ok (library_of db s) _ h in
    let (found, _, h₂) = >>=-eq-ok (pick_provider p s l (by_provider db.external_ids s.id)) _ h₁ in
    let (scraper, _, h₃) = >>=-eq-ok (Sources.get found.0 p.registry).0 _ h₂ in
    let (chapters, _, h₄) = >>=-eq-ok (get_chapters found.0 found.1) _ h₃ in
    subst {A = String × List ScrapedChapter} (λ x. AreNew db s x.0 x.1)
      (ok-injective _ (provider, missing) h₄)
      (filtered-AreNew db s found.0 (list_selected l chapters priority)
        (list_selected-UniqueNumbers l chapters priority))
