-- ===== src/Follow/Provider.antt =====
-- Which source a series is checked on: `_pick_provider` of app/services/follow.py.
use mangasama.Base.{◌≡◌, refl, String, Bool, true, false, ◌&&◌, Option, none, some, List, [], ◌∷◌}
use mangasama.Base.{string_eq, if◌then◌else◌, find_first, is_some}
use mangasama.Base.Dict.{Dict, lookup}
use mangasama.Errors.{Result, ok, err}
use mangasama.Models.{Series, Library}
use mangasama.Sources.{Policy, is_scraper_available}
use mangasama.Follow.{choose, first_usable, pick_provider, or_list, usable}

-- The result that belongs to the first usable name.
abbrev pub WithId : Dict String String → Option String → Option (String × String) → Type 0
WithId ids none found = found ≡ none
WithId ids (some name) none = ⊥
WithId ids (some name) (some (n, ext)) = (n ≡ name) × (lookup name ids ≡ some ext)

abbrev pub to_option : Result (String × String) → Option (String × String)
to_option (err e) = none
to_option (ok x) = some x

-- One name, whose id and availability are known.
choose-WithId :
    (ids : Dict String String) (name : String) (o : Option String) (b : Bool)
    (found : Option String) (rest : Result (String × String))
    → lookup name ids ≡ o
    → WithId ids found (to_option rest)
    → WithId ids (if is_some o && b then some name else found) (to_option (choose name o b rest))
choose-WithId ids name none b found rest h ih = ih
choose-WithId ids name (some ext) true found rest h ih = (refl, h)
choose-WithId ids name (some ext) false found rest h ih = ih

first_usable-WithId :
    (p : Policy) (ids : Dict String String) (names : List String)
    → WithId ids (find_first (usable p ids) names) (to_option (first_usable p ids names))
unfolding first_usable
first_usable-WithId p ids [] = refl
first_usable-WithId p ids (name ∷ names) =
    choose-WithId ids name (lookup name ids) (is_scraper_available p name)
      (find_first (usable p ids) names) (first_usable p ids names) refl
      (first_usable-WithId p ids names)

-- The first usable name of the series' own order, or of the library's if the series has none.
abbrev pub IsFirstOf :
    Policy → Dict String String → List String → List String → Option (String × String) → Type 0
IsFirstOf p ids [] providers = WithId ids (find_first (usable p ids) providers)
IsFirstOf p ids (name ∷ names) providers = WithId ids (find_first (usable p ids) (name ∷ names))

or_list-IsFirstOf :
    (p : Policy) (ids : Dict String String) (own providers : List String)
    → IsFirstOf p ids own providers (to_option (first_usable p ids (or_list own providers)))
or_list-IsFirstOf p ids [] providers = first_usable-WithId p ids providers
or_list-IsFirstOf p ids (name ∷ names) providers = first_usable-WithId p ids (name ∷ names)

-- The provider of a series is the first name that has an external id and is available, of the
-- series' own order if that is not empty and of the library's if it is, and it comes with that id;
-- if there is no such name, an error is raised.
pub pick_provider_first :
    (p : Policy) (s : Series) (l : Library) (ids : Dict String String)
    → IsFirstOf p ids s.source_priority l.providers (to_option (pick_provider p s l ids))
unfolding pick_provider
pick_provider_first p s l ids = or_list-IsFirstOf p ids s.source_priority l.providers
