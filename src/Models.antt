-- ===== src/Models.antt =====
-- app/models/orm.py: the tables, a record for a row of each, and the database that a session works
-- on. Times count seconds. `sort` columns are decimal numbers in thousandths. A generated key is one
-- more than the largest in its table, as SQLite gives it. `name`, `cover_path`, `release_date` and
-- `publisher` of a volume, `comic_info_id` of a chapter, the payload and the message of a job, notes
-- and the dates of creation are written or read by nothing that is modelled, and left out. The text
-- of an error that a log or a job keeps is a flag. The genres, tags and authors of a series, and the
-- pages of a chapter, stand in the row that owns them.
pub mod Query
use mangasama.Base.{ℕ, String, Bool, Option, List, []}
use mangasama.Text.{Text}

pub record Library : Type 0 where
  pub id : ℕ
  pub name : String
  pub type : String
  pub root_path : Text
  pub folder_strategy : String
  pub cover_strategy : String
  pub providers : List String
  pub italian_priority : Bool
  pub follow_interval_hours : ℕ
  pub jpg_quality : ℕ
  pub deleted : Bool

pub record Series : Type 0 where
  pub id : ℕ
  pub library_id : ℕ
  pub title : Text
  pub sort_title : Option Text
  pub alt_titles : List Text
  pub status : Option String
  pub summary : Option Text
  pub year : Option ℕ
  pub language : Option Text
  pub cover_path : Option String
  pub source_priority : List String
  pub followed : Bool
  pub followed_at : Option ℕ
  pub last_checked_at : Option ℕ
  pub deleted : Bool
  pub genres : List Text
  pub tags : List Text
  pub authors : List (Text × Text)

pub record SeriesExternalId : Type 0 where
  pub series_id : ℕ
  pub provider : String
  pub external_id : String
  pub url : Option String
  pub fetched_at : Option ℕ

pub record Volume : Type 0 where
  pub id : ℕ
  pub series_id : ℕ
  pub number : Text
  pub sort : ℕ
  pub language : Option Text

pub record Page : Type 0 where
  pub index : ℕ
  pub filename : Text
  pub source_url : Option String
  pub width : Option ℕ
  pub height : Option ℕ
  pub sha256 : Option String

-- A chapter with its pages, which the session loads and stores with it.
pub record Chapter : Type 0 where
  pub id : ℕ
  pub volume_id : ℕ
  pub number : Text
  pub sort : ℕ
  pub title : Option Text
  pub source_url : Option String
  pub source_provider : String
  pub source_id : String
  pub language : Text
  pub pages_count : Option ℕ
  pub file_path : Option Text
  pub cbz_size : Option ℕ
  pub cbz_sha256 : Option String
  pub downloaded_at : Option ℕ
  pub pages : List Page

pub record FollowLog : Type 0 where
  pub series_id : ℕ
  pub checked_at : ℕ
  pub new_chapters_count : ℕ
  pub status : String
  pub failed : Bool

pub record ProviderJob : Type 0 where
  pub id : ℕ
  pub job_type : String
  pub provider : Option String
  pub status : String
  pub started_at : Option ℕ
  pub finished_at : Option ℕ
  pub failed : Bool
  pub progress : ℕ

pub record DomainHealth : Type 0 where
  pub source : String
  pub domain : String
  pub last_ok : Option ℕ
  pub last_fail : Option ℕ
  pub fail_count : ℕ
  pub healthy : Bool
  pub last_status_code : Option ℕ

pub record Database : Type 0 where
  pub libraries : List Library
  pub series : List Series
  pub external_ids : List SeriesExternalId
  pub volumes : List Volume
  pub chapters : List Chapter
  pub follow_log : List FollowLog
  pub jobs : List ProviderJob
  pub domain_health : List DomainHealth

abbrev pub empty_database : Database
empty_database = record {
  libraries = [];
  series = [];
  external_ids = [];
  volumes = [];
  chapters = [];
  follow_log = [];
  jobs = [];
  domain_health = [];
}
