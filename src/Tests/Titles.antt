-- ===== src/Tests/Titles.antt =====
-- The service of series.
use mangasama.Base.{
  ℕ, String, ◌≡◌, refl, Bool, true, false, Option, none, some, List, [], ◌∷◌, map, ◌==◌, arith, inl,
  inr,
}
use mangasama.Base.{All, nat_eq}
use mangasama.Text.{Text, codes, text_eq}
use mangasama.Errors.{Result, ok, err, raised, series_not_found_db}
use mangasama.Models.{Series, Chapter, Database}
use mangasama.Merger.{MetadataRecord, nothing_merged}
use mangasama.SeriesService.{
  SeriesUpdate, get_series, sort_title, update_series, soft_delete_series, set_followed,
  list_series, with_followed, with_deleted,
}
use mangasama.SeriesService.Rows.{
  IsFollowConsistent, get_series-soft_delete, update-IsFollowConsistent,
}
use mangasama.SeriesService.Adding.{ScrapedSeries, add_series_from_provider}
use mangasama.SeriesService.Mapped.{IsMapped}
use mangasama.SeriesService.Added.{
  add_series_from_provider-IsMapped, add_series_from_provider-again,
}
use mangasama.SeriesService.Refresh.{RefreshResult, refresh_metadata}
use mangasama.Errors.{chapter_not_found_db}
use mangasama.ChapterService.{get_chapter, download_chapter_file, delete_chapter}
use mangasama.ChapterService.Files.{get_chapter-delete}
use mangasama.Tests.{series, registry, database}
use mangasama.Tests.Merges.{from_anilist}

abbrev naruto : ScrapedSeries
naruto = record {
  url = "https://www.mangaworld.mx/naruto";
  title = codes " The Naruto ";
  alt_titles = [];
  summary = none;
  year = none;
  status = none;
}

abbrev scrape : String → String → Result ScrapedSeries
scrape provider ext = ok naruto

abbrev same : Text → Text → Bool
same s t = s == t

abbrev add : Database → Result (Series × Database)
add db = add_series_from_provider same registry scrape 50 1 "mangaworld" "99" (codes "it") db

abbrev value_of : Result (Series × Database) → Series × Database
value_of (ok x) = x
value_of (err e) = (series, database)

abbrev no_change : SeriesUpdate
no_change = record {
  title = none;
  sort_title = none;
  alt_titles = none;
  status = none;
  summary = none;
  year = none;
  language = none;
  cover_path = none;
  source_priority = none;
  followed = none;
}

articles : sort_title (codes "The Promised Neverland") ≡ codes "Promised Neverland"
unfolding sort_title mangasama.SeriesService.strip_article mangasama.Text.starts_with
    mangasama.Text.lower mangasama.Base.nat_eq
articles = refl

unfollow_update :
    set_followed 60 7 false database
    ≡ ok (with_followed 60 false series, (value_of (set_followed 60 7 false database)).1)
unfolding set_followed get_series mangasama.Models.Query.one_or_none mangasama.Base.nat_eq
unfollow_update = refl

soft_deleted_run :
    (get_series 7 (value_of (soft_delete_series 7 database)).1 ≡ err (raised series_not_found_db))
    × ((j : ℕ)
        → (7 == j) ≡ false
        → get_series j (value_of (soft_delete_series 7 database)).1 ≡ get_series j database)
unfolding soft_delete_series get_series mangasama.Models.Query.one_or_none nat_eq
soft_deleted_run =
    get_series-soft_delete 7 database {s = with_deleted series}
      {db' = (value_of (soft_delete_series 7 database)).1} refl

update-IsFollowConsistent_example :
    All IsFollowConsistent (value_of (set_followed 60 7 false database)).1.series
unfolding set_followed get_series mangasama.Models.Query.one_or_none mangasama.Base.nat_eq
update-IsFollowConsistent_example =
    update-IsFollowConsistent 60 7 false no_change database {s = with_followed 60 false series}
      {db' = (value_of (set_followed 60 7 false database)).1} (λ e. cc) (refl, tt) (inl refl)

added_id_run : IsMapped "mangaworld" "99" 8 (value_of (add database)).1.external_ids
unfolding add_series_from_provider mangasama.Models.Query.one_or_none mangasama.Base.nat_eq
    mangasama.Sources.get mangasama.Base.Dict.lookup mangasama.Base.string_eq mangasama.Text.strip
    mangasama.Text.is_space mangasama.SeriesService.Adding.same_title text_eq
    mangasama.SeriesService.Adding.store_series mangasama.SeriesService.Adding.map_external_id
    mangasama.SeriesService.Adding.maps_elsewhere mangasama.SeriesService.Adding.maps_here
    mangasama.SeriesService.Adding.new_series mangasama.Models.Query.fresh
added_id_run =
    add_series_from_provider-IsMapped same registry scrape 50 1 "mangaworld" "99" (codes "it")
      database {s = (value_of (add database)).0} {db' = (value_of (add database)).1} refl refl

same_self : (t : Text) → same t t ≡ true
same_self t = ground arith

add_series_from_provider-again_example :
    (db' : Database) × (add (value_of (add database)).1 ≡ ok ((value_of (add database)).0, db'))
    × (db'.series ≡ (value_of (add database)).1.series)
unfolding add_series_from_provider mangasama.Models.Query.one_or_none nat_eq mangasama.Sources.get
    mangasama.Base.Dict.lookup mangasama.Base.string_eq mangasama.Text.strip mangasama.Text.is_space
    mangasama.SeriesService.Adding.same_title text_eq mangasama.SeriesService.Adding.store_series
    mangasama.SeriesService.Adding.map_external_id mangasama.SeriesService.Adding.maps_elsewhere
    mangasama.SeriesService.Adding.maps_here mangasama.SeriesService.Adding.new_series
    mangasama.Models.Query.fresh
add_series_from_provider-again_example =
    add_series_from_provider-again same registry scrape 50 50 1 "mangaworld" "99" (codes "it")
      database {s = (value_of (add database)).0} {db' = (value_of (add database)).1} same_self refl

abbrev records : String → String → Result MetadataRecord
records provider ext = ok from_anilist

abbrev cache : String → String → String → Result String
cache provider ext url = ok "cover.jpg"

abbrev followed_by_anilist : Database
followed_by_anilist = record database {
  external_ids =
      record {
        series_id = 7;
        provider = "anilist";
        external_id = "30002";
        url = none;
        fetched_at = none;
      }
      ∷ [];
}

abbrev refresh : Result (RefreshResult × Database)
refresh = refresh_metadata records cache false 7 none true followed_by_anilist

abbrev refreshed_titles : Result (RefreshResult × Database) → Text
refreshed_titles (ok (r, db)) = r.series.row.title
refreshed_titles (err e) = []

abbrev refreshed_value : Result (RefreshResult × Database) → RefreshResult × Database
refreshed_value (ok x) = x
refreshed_value (err e) = (
  record {
    series = record { row = series; external_ids = []; volume_count = 0 };
    merged = nothing_merged;
    cover_cached = false;
    sources_used = [];
  },
  database,
)

refreshed_title : refreshed_titles refresh ≡ codes "Berserk"
unfolding refresh_metadata get_series mangasama.Models.Query.one_or_none mangasama.Base.nat_eq
    mangasama.SeriesService.Refresh.fetch_records mangasama.SeriesService.Refresh.succeeded
    mangasama.SeriesService.Refresh.build_metadata_providers mangasama.Base.Dict.lookup
    mangasama.Follow.by_provider mangasama.Follow.by_provider_from mangasama.Base.Dict.insert
    mangasama.Base.string_eq mangasama.SeriesService.to_series_read mangasama.Merger.Scalars.given
    mangasama.Merger.Merge.merge mangasama.Base.Sort.sort mangasama.Base.Sort.insert
    mangasama.Merger.Merge.merge_sorted mangasama.SeriesService.Refresh.refreshed
    mangasama.SeriesService.Refresh.apply_merged_to_series mangasama.Merger.Scalars.longest_nonempty
    mangasama.Merger.Scalars.longest mangasama.Merger.Scalars.max_by
    mangasama.Merger.Scalars.max_from mangasama.Text.strip mangasama.Text.strip_by
    mangasama.Text.lstrip_by mangasama.Text.rstrip_by mangasama.Text.is_space
    mangasama.Merger.Scalars.choose_cover mangasama.Merger.Scalars.cover_of
    mangasama.SeriesService.save_series mangasama.Models.Query.update_where
refreshed_title = refl

-- A chapter with a file, on a disk that has every file.
abbrev there : Text → Bool
there p = true

abbrev with_file : Chapter → Chapter
with_file ch = record ch { file_path = some (codes "a.cbz") }

abbrev on_disk : Database
on_disk = record database { chapters = map with_file database.chapters }

abbrev after_delete : Result (Option Text × Database) → Database
after_delete (ok x) = x.1
after_delete (err e) = database

file_there : download_chapter_file there (codes "/data") 9 on_disk ≡ ok (codes "/data/a.cbz")
unfolding download_chapter_file get_chapter mangasama.Models.Query.one_or_none nat_eq
    mangasama.ChapterService.file_of mangasama.ChapterService.absolute mangasama.Text.starts_with
file_there = refl

get_chapter-delete_example :
    (get_chapter 9 (after_delete (delete_chapter there there (codes "/data") 9 on_disk))
      ≡ err (raised chapter_not_found_db))
    × (download_chapter_file there
          (codes "/data")
          9
          (after_delete (delete_chapter there there (codes "/data") 9 on_disk))
        ≡ err (raised chapter_not_found_db))
    × ((j : ℕ)
        → (9 == j) ≡ false
        → get_chapter j (after_delete (delete_chapter there there (codes "/data") 9 on_disk))
          ≡ get_chapter j on_disk)
unfolding delete_chapter get_chapter mangasama.Models.Query.one_or_none nat_eq
    mangasama.ChapterService.file_of mangasama.ChapterService.absolute mangasama.Text.starts_with
get_chapter-delete_example =
    get_chapter-delete there there (codes "/data") 9 on_disk {file = some (codes "/data/a.cbz")}
      {db' = after_delete (delete_chapter there there (codes "/data") 9 on_disk)} refl
