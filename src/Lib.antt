-- ===== src/Lib.antt =====
-- MangaSama: a model of the Python application under app/, and theorems on it.
--
-- The program follows manga series on the sources that a library names, puts the chapters that are
-- missing on a download queue, Italian first, packs each chapter as a CBZ file and files it in the
-- folders of the library. The parts that are modelled and how they meet:
--
-- * Paths (app/core/paths.py): file names. `safe_filename` is split into `collapse`, `clean`,
--   `avoid_reserved`, `truncate` and `finish`; `_pad` is `pad`. Unicode NFC is a parameter.
-- * FolderStrategy (app/services/folder_strategy.py): the path of a chapter, built of those names.
--   FolderStrategy.PurePaths has the POSIX paths of `pathlib` that it joins.
-- * Errors (app/core/exceptions.py) and Errors.Handler (app/api/exception_handlers.py): the classes
--   of exceptions, with `isinstance` as a search of at most 4 levels, which is the depth of the
--   hierarchy, and the HTTP answer to each. What may raise gives a `Result`.
-- * Sources (app/scrapers/registry.py, app/scrapers/source_policy.py): which scrapers there are.
-- * Models (app/models/orm.py): a record for a row of each table, and the database as lists.
-- * Languages (app/services/language_picker.py, app/core/italian.py): the order of languages.
-- * Queue, Package, Download and Worker (app/services/downloader.py): the bounded download queue;
--   the fetched pages and the ComicInfo of a chapter; `download_chapter` with the rows it writes; and
--   `_run_task` with its job row. What the sources, the network, the disk and the codecs do is the
--   record `Outside`.
-- * ComicInfo (app/services/comicinfo.py) and Cbz (app/services/cbz.py): the document of a chapter as
--   a list of elements, and the archive as a list of entries.
-- * Http (app/core/http_client.py): the retry loop of `_request`, on `max_retries + 1` turns as in
--   the code, with what the network does on each attempt as the parameter `send`.
-- * Limiter (app/core/rate_limiter.py): the moves of the calls of `acquire`, which Limiter.Slots
--   interleaves. The bucket of aiolimiter is a parameter.
-- * Domains (app/scrapers/domain_registry.py): the choice of a domain and the record of its health.
-- * Follow (app/services/follow.py): the check of a series, which goes through Sources, Languages,
--   Models and Queue. Its state is a `World`: the database and the queue. What a source answers
--   is the parameter `get_chapters`.
-- * Libraries (app/services/library.py): the service over the table of libraries.
-- * Setup (app/core/setup_state.py, app/core/auth.py): the admin account and its header, with bcrypt
--   and base64 as parameters.
-- * Gate (app/main.py): the middleware that asks for the account of Setup and locks out a client that
--   fails too often. Its state is the dictionary of failures; the clock is an argument.
-- * Events (app/services/job_events.py, the stream of app/api/jobs.py): the bus of job events. A state
--   is the list of the queues of the subscribers; Events.Backlog has the relation of its steps.
-- * Merger (app/metadata/base.py, app/metadata/merger.py): the records of the metadata providers and
--   their merge; `MetadataMerger.merge` is `merge`, its helpers stand in Scalars and Authors.
-- * SeriesService (app/services/series.py): the rows of series; `add_series_from_provider` stands in
--   Adding, `refresh_metadata`, which goes through Merger, in Refresh. What a source or a metadata
--   provider answers, how the database compares titles and the cache of covers are parameters.
-- * ChapterService (app/services/chapter.py): the rows of chapters and their files, and the second
--   download, which goes through Queue.
-- * Settings (app/core/setup_state.py, app/services/settings_api.py, app/scheduler/jobs.py): the file
--   of runtime settings as a dictionary, the patch of the settings, the health of the providers, and
--   the cleanup of old jobs. What a setting accepts is a parameter.
-- * Search (app/services/search.py) and HealthCheck (app/services/health.py): the search over the
--   providers, which goes through Sources, and the sweep over the domains, which goes through Domains.
--   What a source answers is a parameter.
-- * Cookies (app/scrapers/cookies.py): the file of the cookies of a source.
-- * Base and Text: helpers that the parts share. A text is a list of code points; upper and lower
--   case are those of ASCII and Latin-1. Tests: runs, and the theorems at concrete inputs.
--
-- The registration of the scheduled jobs, the solvers of Cloudflare challenges, the backups and the
-- catalogue are not modelled.
--
-- Time counts seconds and is an argument. Dates come out of SQLite without a time zone. A header
-- "Retry-After" that reads as an infinite number or as none is not modelled. A rollback of the
-- session after an error is not modelled: an operation that fails gives no database. Not modelled
-- are the site scrapers and the metadata clients, which read HTML and JSON through parsers that
-- are not in the repository, the HTTP routes, the set-up of the application and of SQLAlchemy,
-- and what only touches the disk.
pub mod Base
pub mod Cbz
pub mod ChapterService
pub mod ComicInfo
pub mod Cookies
pub mod Domains
pub mod Download
pub mod Errors
pub mod Events
pub mod FolderStrategy
pub mod Follow
pub mod Gate
pub mod HealthCheck
pub mod Http
pub mod Languages
pub mod Libraries
pub mod Limiter
pub mod Merger
pub mod Models
pub mod Package
pub mod Paths
pub mod Queue
pub mod Search
pub mod SeriesService
pub mod Settings
pub mod Setup
pub mod Sources
pub mod Tests
pub mod Text
pub mod Worker
