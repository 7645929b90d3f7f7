-- ===== src/SeriesService/Refreshed.antt =====
-- The row after its metadata are refreshed (app/services/series.py).
use mangasama.Base.{ℕ, ◌≡◌, String, Bool, Option, List, [], ◌⊎◌, ◌≢◌, map}
use mangasama.Base.{nat_eq, string_eq}
use mangasama.Base.Dict.{Dict}
use mangasama.Errors.{Result}
use mangasama.Text.{Text, text_eq}
use mangasama.Models.{Series, Database}
use mangasama.Follow.{by_provider}
use mangasama.Merger.{MetadataRecord}
use mangasama.Merger.Unions.{Distinct}
use mangasama.SeriesService.Rows.{IsSaved}
use mangasama.SeriesService.Refresh.{RefreshResult, build_metadata_providers, fetch_records}

-- No value of the lists stands twice.
abbrev pub AreDistinct : Series → Type 0
AreDistinct s = Distinct (λ t. t) [] s.genres × Distinct (λ t. t) [] s.tags

module _ (get_record : String → String → Result MetadataRecord)
    (fetch_and_cache : String → String → String → Result String) where
  -- What the providers that the series has an external id of answer.
  abbrev pub answered : Bool → ℕ → Option (List String) → Database → List MetadataRecord
  answered google_books_enabled id providers db =
      fetch_records get_record fetch_and_cache (by_provider db.external_ids id)
        (build_metadata_providers google_books_enabled providers)

  -- The result is what the database holds, no other series has changed, and the sources are those
  -- that answered. If there are none, nothing has changed at all; else no value of the lists stands
  -- twice.
  abbrev pub IsRefreshed : ℕ → List MetadataRecord → Database → RefreshResult × Database → Type 0
  IsRefreshed id records db x =
      IsSaved id x.0.series.row db x.1
      × (x.0.sources_used ≡ map (λ r. r.provider) records)
      × (((records ≡ []) × (x.1 ≡ db)) ⊎ ((records ≢ []) × AreDistinct x.0.series.row))
