-- ===== src/Search.antt =====
-- app/services/search.py: the providers of a search are asked independently of each other. What a
-- provider answers is a parameter.
use mangasama.Base.{
  ℕ, ◌≡◌, refl, ap, String, Bool, false, not, Option, none, some, List, [], ◌∷◌, ◌++◌, map, arith,
  inl, inr,
}
use mangasama.Base.{if◌then◌else◌, ◌==◌, nat_eq, string_eq, contains, filterb, Bool-cases, get_or}
use mangasama.Errors.{Result, ok, err, raised, ◌>>=◌, library_not_found}
use mangasama.Text.{Text, codes, text_eq}
use mangasama.Models.{Library, Database}
use mangasama.Models.Query.{one_or_none}
use mangasama.Libraries.{is_library}
use mangasama.Sources.{Policy, is_scraper_available}

pub record SearchRequest : Type 0 where
  pub library_id : ℕ
  pub query : Text
  pub providers : Option (List String)
  pub languages : List Text
  pub limit_per_provider : ℕ

-- A hit of a scraper, with the languages that its metadata name.
pub record Hit : Type 0 where
  pub external_id : String
  pub url : Option String
  pub title : Text
  pub alt_titles : List Text
  pub year : Option ℕ
  pub cover_url : Option String
  pub type : Option String
  pub score : ℕ
  pub available_languages : List Text

pub record SearchCandidate : Type 0 where
  pub provider : String
  pub external_id : String
  pub url : Option String
  pub title : Text
  pub alt_titles : List Text
  pub year : Option ℕ
  pub cover_url : Option String
  pub language : Option Text
  pub type : Option String
  pub score : ℕ
  pub is_italian_available : Bool

pub record SearchResponse : Type 0 where
  pub query : Text
  pub library_id : ℕ
  pub providers_used : List String
  pub candidates : List SearchCandidate

unfoldable pub candidate_of : String → Hit → SearchCandidate
candidate_of name s = record {
  provider = name;
  external_id = s.external_id;
  url = s.url;
  title = s.title;
  alt_titles = s.alt_titles;
  year = s.year;
  cover_url = s.cover_url;
  language = none;
  type = s.type;
  score = s.score;
  is_italian_available = contains s.available_languages (codes "it");
}

abbrev pub first_language : List Text → Option Text
first_language [] = none
first_language (l ∷ ls) = some l

abbrev pub hits_of : Result (List Hit) → List Hit
hits_of (ok hits) = hits
hits_of (err e) = []

module _ (p : Policy) (search : String → Text → ℕ → Option Text → Result (List Hit)) where
  -- `_run`: an error of a provider gives no hits.
  unfoldable pub run_provider : SearchRequest → String → List SearchCandidate
  run_provider req name =
      map (candidate_of name)
        (hits_of (search name req.query req.limit_per_provider (first_language req.languages)))

  unfoldable pub run_all : SearchRequest → List String → List SearchCandidate
  run_all req [] = []
  run_all req (name ∷ names) = run_provider req name ++ run_all req names

  -- The answer for the library that was found.
  abbrev pub respond : SearchRequest → Option Library → Result SearchResponse
  respond req none = err (raised library_not_found)
  respond req (some l) =
      let providers = filterb (is_scraper_available p) (get_or req.providers l.providers) in
      ok (record {
        query = req.query;
        library_id = req.library_id;
        providers_used = providers;
        candidates = run_all req providers;
      })

  unfoldable pub multi_source_search : SearchRequest → Database → Result SearchResponse
  multi_source_search req db =
      one_or_none (is_library false req.library_id) db.libraries >>= respond req

abbrev pub SearchOf : Type 0
SearchOf = String → Text → ℕ → Option Text → Result (List Hit)

others_of :
    (bad name : String) (hits : List Hit)
    → filterb (λ c. not (c.provider == bad)) (map (candidate_of name) hits)
      ≡ (if name == bad then [] else map (candidate_of name) hits)
unfolding candidate_of
others_of bad name [] = ground arith
others_of bad name (h ∷ hits) = ground (arith, others_of bad name hits)

filterb-append {ℓ} :
    {A : Type ℓ} (q : A → Bool) (xs ys : List A)
    → filterb q (xs ++ ys) ≡ filterb q xs ++ filterb q ys
filterb-append q [] ys = refl
filterb-append q (x ∷ xs) ys = ground (arith, filterb-append q xs ys)

run_all-isolated :
    (p : Policy) (search search' : SearchOf) (bad : String) (req : SearchRequest)
    (names : List String)
    → ((name : String) → (name == bad) ≡ false → search name ≡ search' name)
    → filterb (λ c. not (c.provider == bad)) (run_all p search req names)
      ≡ filterb (λ c. not (c.provider == bad)) (run_all p search' req names)
unfolding run_all run_provider
run_all-isolated p search search' bad req [] same = refl
run_all-isolated p search search' bad req (name ∷ names) same =
    let others = λ (c : SearchCandidate). not (c.provider == bad) in
    let hits =
      hits_of (search name req.query req.limit_per_provider (first_language req.languages)) in
    let hits' =
      hits_of (search' name req.query req.limit_per_provider (first_language req.languages)) in
    let own : (name == bad) ≡ false → hits ≡ hits' = λ e.
      ap (λ f. hits_of (f req.query req.limit_per_provider (first_language req.languages)))
        (same name e) in
    rw
      (
        filterb-append others (map (candidate_of name) hits) (run_all p search req names),
        filterb-append others (map (candidate_of name) hits') (run_all p search' req names),
        run_all-isolated p search search' bad req names same,
        others_of bad name hits,
        others_of bad name hits',
      )
      (elim (Bool-cases (name == bad)) [ inl e ↦ rw e refl | inr e ↦ rw (e, own e) refl ])

-- Whatever one provider answers, errors included, a search in a library that exists succeeds, and
-- as long as the other providers answer the same, their hits are the same, in the same order.
pub multi_source_search_isolated :
    (p : Policy) (search search' : SearchOf) (bad : String) (req : SearchRequest) (db : Database)
    (l : Library)
    → ((name : String) → (name == bad) ≡ false → search name ≡ search' name)
    → one_or_none (is_library false req.library_id) db.libraries ≡ ok (some l)
    → (r : SearchResponse) × (r' : SearchResponse) × (multi_source_search p search req db ≡ ok r)
      × (multi_source_search p search' req db ≡ ok r')
      × (filterb (λ c. not (c.provider == bad)) r.candidates
          ≡ filterb (λ c. not (c.provider == bad)) r'.candidates)
unfolding multi_source_search
multi_source_search_isolated p search search' bad req db l same found =
    let providers = filterb (is_scraper_available p) (get_or req.providers l.providers) in
    (
      record {
        query = req.query;
        library_id = req.library_id;
        providers_used = providers;
        candidates = run_all p search req providers;
      },
      record {
        query = req.query;
        library_id = req.library_id;
        providers_used = providers;
        candidates = run_all p search' req providers;
      },
      rw found refl,
      rw found refl,
      run_all-isolated p search search' bad req providers same,
    )
