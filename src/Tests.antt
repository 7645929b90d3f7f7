-- ===== src/Tests.antt =====
-- Runs of the model, and the theorems applied to concrete inputs.
mod Names
mod Chapters
mod Follows
mod Answers
mod Downloads
mod Networks
mod Accounts
mod Shelves
mod Gates
mod Buses
mod Merges
mod Titles
mod Services
use mangasama.Base.{String, Bool, false, true, Option, none, some, List, [], ◌∷◌}
use mangasama.Text.{Text, codes}
use mangasama.Models.{Library, Series, Volume, Chapter, Database, empty_database}
use mangasama.Languages.{ScrapedChapter}
use mangasama.Sources.{SourceConfig, Scraper, ScraperRegistry, Policy}
use mangasama.Queue.{DownloadQueue}
use mangasama.Follow.{World}
use mangasama.Errors.{Result, ok}

-- A normalisation that changes nothing.
abbrev pub same_text : Text → Text
same_text s = s

abbrev pub scraped : String → Text → Text → ScrapedChapter
scraped id number language = record {
  source = "mangaworld";
  external_id = id;
  url = "";
  number = number;
  title = none;
  language = language;
  volume_number = none;
  scanlation_group = none;
}

abbrev pub ch1_en : ScrapedChapter
ch1_en = scraped "a" (codes "1") (codes "en")

abbrev pub ch1_it : ScrapedChapter
ch1_it = scraped "b" (codes "1") (codes "IT")

abbrev pub ch2_en : ScrapedChapter
ch2_en = scraped "c" (codes "2") (codes "en")

abbrev pub ch2_fr : ScrapedChapter
ch2_fr = scraped "d" (codes "2") (codes "fr")

abbrev pub source_chapters : List ScrapedChapter
source_chapters = ch1_en ∷ ch2_fr ∷ ch1_it ∷ ch2_en ∷ []

abbrev pub library : Library
library = record {
  id = 1;
  name = "Manga";
  type = "manga";
  root_path = codes "/data/manga";
  folder_strategy = "series_volume_chapter";
  cover_strategy = "first_volume";
  providers = "mangadex" ∷ "mangaworld" ∷ [];
  italian_priority = true;
  follow_interval_hours = 24;
  jpg_quality = 85;
  deleted = false;
}

abbrev pub series : Series
series = record {
  id = 7;
  library_id = 1;
  title = codes "One Piece";
  sort_title = none;
  alt_titles = [];
  status = none;
  summary = none;
  year = none;
  language = some (codes "it");
  cover_path = none;
  source_priority = [];
  followed = true;
  followed_at = some 5;
  last_checked_at = none;
  deleted = false;
  genres = [];
  tags = [];
  authors = [];
}

abbrev pub mangaworld : Scraper
mangaworld = record {
  name = "mangaworld";
  base_url = "https://www.mangaworld.mx";
  rate_limit_rpm = 30;
}

abbrev pub registry : ScraperRegistry
registry = record { instances = ("mangaworld", mangaworld) ∷ []; loaded = true; found = [] }

abbrev pub policy : Policy
policy = record {
  registry = registry;
  sources =
      ("mangaworld", record { enabled = true; primary = none; alternates = [] })
      ∷ ("mangadex", record { enabled = false; primary = none; alternates = [] })
      ∷ [];
  toggle = λ field. false;
}

abbrev pub answers : String → String → Result (List ScrapedChapter)
answers name ext = ok source_chapters

-- Chapter 1 is stored already, in Italian.
abbrev pub database : Database
database = record empty_database {
  libraries = library ∷ [];
  series = series ∷ [];
  external_ids =
      record {
        series_id = 7;
        provider = "mangaworld";
        external_id = "1234";
        url = none;
        fetched_at = none;
      }
      ∷ [];
  volumes = record { id = 3; series_id = 7; number = codes "1"; sort = 1000; language = none } ∷ [];
  chapters =
      record {
        id = 9;
        volume_id = 3;
        number = codes "1";
        sort = 1000;
        title = none;
        source_url = none;
        source_provider = "mangaworld";
        source_id = "b";
        language = codes "IT";
        pages_count = none;
        file_path = none;
        cbz_size = none;
        cbz_sha256 = none;
        downloaded_at = none;
        pages = [];
      }
      ∷ [];
}

abbrev pub world : World
world = record { db = database; queue = record { tasks = []; maxsize = 2 } }
