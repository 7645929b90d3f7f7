-- ===== src/Sources/Registry.antt =====
-- The registry after a load, and the policy over it.
use mangasama.Base.{
  ap, String, ◌≡◌, ◌≢◌, ◌∙◌, true, false, Option, none, some, List, [], ◌∷◌, arith,
}
use mangasama.Base.{◌==◌, string_eq, if◌then◌else◌, find_first, filterb, All, filterb-All, All-imp}
use mangasama.Base.Dict.{Dict, lookup, lookup-insert}
use mangasama.Errors.{Result, ok, err, raised, unknown_scraper}
use mangasama.Sources.{
  Scraper, ScraperRegistry, Policy, register_all, load_all, get, has, names, add_scraper,
  ensure_loaded, is_source_enabled, is_scraper_available, enabled_scraper_names,
}

abbrev or_else : Option Scraper → Option Scraper → Option Scraper
or_else none b = b
or_else (some s) b = some s

lookup-add_scraper :
    (n : String) (s : Scraper) (d : Dict String Scraper)
    → lookup n (add_scraper s d) ≡ or_else (lookup n d) (if n == s.name then some s else none)
unfolding add_scraper
lookup-add_scraper n s d = ground (arith, lookup-insert n s.name s d)

lookup-register_all :
    (n : String) (found : List Scraper) (d : Dict String Scraper)
    → n ≢ ""
    → lookup n (register_all found d) ≡ or_else (lookup n d) (find_first (λ s. n == s.name) found)
unfolding register_all
lookup-register_all n [] d h = ground arith
lookup-register_all n (s ∷ more) d h =
    lookup-register_all n more _ h ∙ ground (arith, lookup-add_scraper n s d)

abbrev pub found_or : Option Scraper → Result Scraper
found_or none = err (raised unknown_scraper)
found_or (some s) = ok s

get-loaded :
    (n : String) (r : ScraperRegistry)
    → (get n r).0 ≡ found_or (lookup n (ensure_loaded r).instances)
unfolding get
get-loaded n r = ground arith

-- A registry that is not loaded yet gives, for a name that is not empty, the first scraper of the
-- package with that name, and `UnknownScraper` if there is none.
pub get-load :
    (n : String) (found : List Scraper)
    → n ≢ ""
    → (get n (record { instances = []; loaded = false; found = found })).0
      ≡ found_or (find_first (λ s. n == s.name) found)
unfolding load_all lookup
get-load n found h =
    get-loaded n (record { instances = []; loaded = false; found = found })
    ∙ ap found_or (lookup-register_all n found [] h)

available_iff :
    (p : Policy) (n : String)
    → is_scraper_available p n ≡ true
    → ((has n p.registry).0 ≡ true) × (is_source_enabled p n ≡ true)
unfolding is_scraper_available
available_iff p n h = ground arith

-- A scraper that `enabled_scraper_names` lists is registered, and its source is enabled.
pub enabled_scraper_names-All :
    (p : Policy)
    → All
        (λ n. ((has n p.registry).0 ≡ true) × (is_source_enabled p n ≡ true))
        (enabled_scraper_names p)
unfolding enabled_scraper_names
enabled_scraper_names-All p =
    All-imp (λ n. is_scraper_available p n ≡ true) _
      (filterb (is_scraper_available p) (names p.registry).0) (available_iff p)
      (filterb-All (is_scraper_available p) (names p.registry).0)
