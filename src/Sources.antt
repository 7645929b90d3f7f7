-- ===== src/Sources.antt =====
-- app/scrapers/registry.py and app/scrapers/source_policy.py: which scrapers are registered, and
-- which of them are available under config/sources.yaml and the settings. The modules that `load_all`
-- imports are not read here: a registry is given the scrapers that they define, in order.
pub mod Registry
use mangasama.Base.{
  ℕ, String, ◌≡◌, Bool, true, false, ◌&&◌, not, Option, none, some, List, [], ◌∷◌, ◌++◌,
}
use mangasama.Base.{◌==◌, string_eq, contains, if◌then◌else◌, filterb}
use mangasama.Base.Dict.{Dict, lookup, insert, keys}
use mangasama.Errors.{Result, ok, err, raised, value_error, unknown_scraper}

-- One entry under `sources:` in the YAML file.
pub record SourceConfig : Type 0 where
  pub enabled : Bool
  pub primary : Option String
  pub alternates : List String

-- What a scraper's class says of itself.
pub record Scraper : Type 0 where
  pub name : String
  pub base_url : String
  pub rate_limit_rpm : ℕ

pub record ScraperRegistry : Type 0 where
  pub instances : Dict String Scraper
  pub loaded : Bool
  -- What `load_all` finds in the package.
  pub found : List Scraper

unfoldable pub register : Scraper → ScraperRegistry → Result ScraperRegistry
register s r = if s.name == "" then err (raised value_error) else elim (lookup s.name r.instances) [
  | some old ↦ ok r
  | none ↦ ok (record r { instances = insert s.name s r.instances })
]

-- The first scraper of a name stays.
unfoldable pub add_scraper : Scraper → Dict String Scraper → Dict String Scraper
add_scraper s d = elim (lookup s.name d) [ none ↦ insert s.name s d | some old ↦ d ]

-- The loop of `load_all`, which registers a class only if it has a name.
unfoldable pub register_all : List Scraper → Dict String Scraper → Dict String Scraper
register_all [] d = d
register_all (s ∷ more) d = register_all more (if s.name == "" then d else add_scraper s d)

unfoldable pub load_all : ScraperRegistry → ScraperRegistry
load_all r = record r { instances = register_all r.found r.instances; loaded = true }

abbrev pub ensure_loaded : ScraperRegistry → ScraperRegistry
ensure_loaded r = if r.loaded then r else load_all r

unfoldable pub get : String → ScraperRegistry → Result Scraper × ScraperRegistry
get name r =
    let r' = ensure_loaded r in
    elim (lookup name r'.instances) [
      | none ↦ (err (raised unknown_scraper), r')
      | some s ↦ (ok s, r')
    ]

unfoldable pub has : String → ScraperRegistry → Bool × ScraperRegistry
has name r =
    let r' = ensure_loaded r in
    elim (lookup name r'.instances) [ none ↦ (false, r') | some s ↦ (true, r') ]

unfoldable pub names : ScraperRegistry → List String × ScraperRegistry
names r = let r' = ensure_loaded r in (keys r'.instances, r')

-- `_ENV_GATED`, and the settings that it names.
abbrev pub env_gated : Dict String String
env_gated =
    ("mangaeden", "mangaeden_enabled")
    ∷ ("mangapark", "scraper_mangapark_enabled")
    ∷ ("bato", "scraper_bato_enabled")
    ∷ ("mangakakalot", "scraper_mangakakalot_enabled")
    ∷ []

-- What the policy reads: the registry after its first load, the parsed YAML and the settings.
pub record Policy : Type 0 where
  pub registry : ScraperRegistry
  pub sources : Dict String SourceConfig
  pub toggle : String → Bool

unfoldable pub gate : Policy → Option String → Bool
gate p none = true
gate p (some field) = p.toggle field

unfoldable pub is_source_enabled : Policy → String → Bool
is_source_enabled p source = elim (lookup source p.sources) [
  | none ↦ false
  | some cfg ↦ if cfg.enabled then gate p (lookup source env_gated) else false
]

unfoldable pub is_scraper_available : Policy → String → Bool
is_scraper_available p name = if (has name p.registry).0 then is_source_enabled p name else false

unfoldable pub enabled_scraper_names : Policy → List String
enabled_scraper_names p = filterb (is_scraper_available p) (names p.registry).0
