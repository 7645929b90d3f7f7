-- ===== src/Merger/Merge.antt =====
-- `MetadataMerger.merge` (app/metadata/merger.py).
use mathlib.Core.Option
use mangasama.Base.{
  ℕ, zero, suc, ◌+◌, ◌*◌, ◌/◌, ◌%◌, String, not, Option, none, some, List, [], ◌∷◌, ◌++◌, map,
}
use mangasama.Base.{if◌then◌else◌, ◌==◌, string_eq, nat_eq, option_eq, ltb, get_or, filterb}
use mangasama.Base.Dict.{Dict}
use mangasama.Base.Sort.{sort}
use mangasama.Text.{Text, text_eq, is_empty, lower}
use mangasama.Merger.{MetadataRecord, MergedMetadata, nothing_merged, record_leb, winner}
use mangasama.Merger.Scalars.{present, longest, longest_nonempty, median, vote_attr, choose_cover}
use mangasama.Merger.Authors.{add_records, merge_authors}

-- Values and their attributions: what a field is set to, and the entry that it adds.
abbrev pub entry {ℓ} :
    {A : Type ℓ} → String → Option A → Option String → Dict String (Option String)
entry field none provider = []
entry field (some v) provider = (field, provider) ∷ []

abbrev pub voted : Option (String × Option String) → Option String × Option String
voted none = (none, none)
voted (some (v, p)) = (some v, p)

unfoldable pub sum : List ℕ → ℕ
sum [] = 0
sum (n ∷ ns) = n + sum ns

-- `round(a / b, 3)`, where `a` counts millionths and `b` thousandths: ties go to the even neighbour.
unfoldable pub round_div : ℕ → ℕ → ℕ
round_div a zero = 0
round_div a (suc b) =
    let d = suc b in
    let q = a / d in
    let r = a % d in
    if ltb (r + r) d then q else if ltb d (r + r) then q + 1 else if q % 2 == 0 then q else q + 1

unfoldable pub merged_confidence : List MetadataRecord → ℕ
merged_confidence rs =
    let cs = map (λ r. r.confidence) rs in round_div (sum (map (λ c. c * c) cs)) (sum cs)

-- `[r.summary for r in rs if r.summary]`
unfoldable pub summaries_of : List MetadataRecord → List Text
summaries_of rs = filterb (λ s. not (is_empty s)) (present (map (λ r. r.summary) rs))

abbrev pub titles_seen : Text → List Text
titles_seen title = if is_empty title then [] else lower title ∷ []

-- The merge of a list that is sorted and not empty.
unfoldable pub merge_sorted : Option String → MetadataRecord → List MetadataRecord → MergedMetadata
merge_sorted preferred_cover top others =
    let rs = top ∷ others in
    let title = get_or (longest_nonempty (map (λ r. r.title) rs)) [] in
    let summary = longest (summaries_of rs) in
    let year = median (present (map (λ r. r.year) rs)) in
    let (status, status_by) = voted (vote_attr (λ r. r.status) rs) in
    let (country, country_by) = voted (vote_attr (λ r. r.country) rs) in
    let (type', type_by) = voted (vote_attr (λ r. r.type) rs) in
    let (publisher, publisher_by) = voted (vote_attr (λ r. r.publisher) rs) in
    let cover = choose_cover preferred_cover rs in
    record {
      title = title;
      alt_titles = (add_records lower (λ r. r.alt_titles) rs (titles_seen title) []).1;
      summary = summary;
      year = year;
      status = status;
      cover_url = Option.map (λ c. c.0) cover;
      country = country;
      type = type';
      authors = merge_authors rs;
      genres = (add_records (λ t. t) (λ r. r.genres) rs [] []).1;
      tags = (add_records (λ t. t) (λ r. r.tags) rs [] []).1;
      publisher = publisher;
      available_languages = (add_records (λ t. t) (λ r. r.available_languages) rs [] []).1;
      source_records = rs;
      attribution =
          ("title", winner (λ r. r.title == title) rs)
          ∷ (entry "summary" summary (winner (λ r. r.summary == summary) rs)
              ++ (entry "year" year (winner (λ r. r.year == year) rs)
                  ++ (entry "status" status status_by
                      ++ (entry "country" country country_by
                          ++ (entry "type" type' type_by
                              ++ (entry "publisher" publisher publisher_by
                                  ++ entry "cover_url" cover (Option.map (λ c. c.1) cover)))))));
      confidence = merged_confidence rs;
      metadata = get_or top.metadata [];
    }

abbrev pub merge_ordered : Option String → List MetadataRecord → MergedMetadata
merge_ordered preferred_cover [] = nothing_merged
merge_ordered preferred_cover (top ∷ others) = merge_sorted preferred_cover top others

unfoldable pub merge : List MetadataRecord → Option String → MergedMetadata
merge records preferred_cover = merge_ordered preferred_cover (sort record_leb records)
