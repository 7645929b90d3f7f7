-- ===== src/Merger.antt =====
-- app/metadata/base.py and app/metadata/merger.py: the records that the metadata providers give on a
-- series, and their merge into one. A confidence counts thousandths, and its arithmetic is exact
-- where the program computes with floating-point numbers. An author carries the provider that
-- `_author_init` adds to it.
pub mod Scalars
pub mod Authors
pub mod Merge
pub mod Winner
pub mod Unions
pub mod Stable
pub mod Bounds
use mangasama.Base.{
  ℕ, ◌+◌, ◌*◌, ◌/◌, ◌%◌, String, Bool, true, false, not, ◌&&◌, ◌||◌, Option, none, some, List, [],
  ◌∷◌, ◌++◌, map,
}
use mangasama.Base.{
  if◌then◌else◌, ◌==◌, string_eq, nat_eq, option_eq, contains, ltb, leb, length, filterb,
  find_first, get_or, is_some,
}
use mathlib.Core.Option
use mangasama.Base.Dict.{Dict}
use mangasama.Base.Sort.{sort}
use mangasama.Text.{Text, text_eq, is_empty, lower, strip}

-- A value of a provider's own data.
pub data Payload : Type 0 where
  absent : Payload
  number : ℕ → Payload
  text : String → Payload

pub record MetadataAuthor : Type 0 where
  pub role : Text
  pub name : Text
  pub provider : Option String

pub record MetadataRecord : Type 0 where
  pub provider : String
  pub external_id : String
  pub url : Option String
  pub title : Text
  pub alt_titles : List Text
  pub summary : Option Text
  pub year : Option ℕ
  pub status : Option String
  pub cover_url : Option String
  pub country : Option String
  pub type : Option String
  pub authors : List MetadataAuthor
  pub genres : List Text
  pub tags : List Text
  pub publisher : Option String
  pub available_languages : List Text
  pub confidence : ℕ
  pub metadata : Option (Dict String Payload)

pub record MergedMetadata : Type 0 where
  pub title : Text
  pub alt_titles : List Text
  pub summary : Option Text
  pub year : Option ℕ
  pub status : Option String
  pub cover_url : Option String
  pub country : Option String
  pub type : Option String
  pub authors : List MetadataAuthor
  pub genres : List Text
  pub tags : List Text
  pub publisher : Option String
  pub available_languages : List Text
  pub source_records : List MetadataRecord
  pub attribution : Dict String (Option String)
  pub confidence : ℕ
  pub metadata : Dict String Payload

abbrev pub nothing_merged : MergedMetadata
nothing_merged = record {
  title = [];
  alt_titles = [];
  summary = none;
  year = none;
  status = none;
  cover_url = none;
  country = none;
  type = none;
  authors = [];
  genres = [];
  tags = [];
  publisher = none;
  available_languages = [];
  source_records = [];
  attribution = [];
  confidence = 0;
  metadata = [];
}

unfoldable pub provider_rank : String → ℕ
provider_rank p =
    if p == "anilist"
    then 0
    else if p == "mangadex"
    then 1
    else if p == "google_books"
    then 2
    else 99

-- `(-a.confidence, rank) <= (-b.confidence, rank)`
unfoldable pub record_leb : MetadataRecord → MetadataRecord → Bool
record_leb a b =
    ltb b.confidence a.confidence
    || a.confidence == b.confidence && leb (provider_rank a.provider) (provider_rank b.provider)

-- `_winner`, where the contributors are the records of the list with `p`.
unfoldable pub winner : (MetadataRecord → Bool) → List MetadataRecord → Option String
winner p rs = Option.map (λ r. r.provider) (find_first p rs)
