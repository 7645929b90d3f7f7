-- ===== src/Tests/Merges.antt =====
-- The merge of metadata records.
use mangasama.Base.{ℕ, String, ◌≡◌, refl, Option, none, some, List, [], ◌∷◌, arith}
use mangasama.Text.{Text, codes}
use mangasama.Merger.{MetadataAuthor, MetadataRecord, MergedMetadata}
use mathlib.Core.List.Perm
use mangasama.Base.{◌≤◌, ◌==◌, true, is_some, string_eq, option_eq}
use mangasama.Merger.{winner}
use mangasama.Merger.Merge.{merge}
use mangasama.Merger.Winner.{support, vote_attr-top}
use mangasama.Merger.Unions.{AreUnions, merge-AreUnions}
use mangasama.Merger.Stable.{merge-perm}
use mangasama.Merger.Bounds.{IsWithin, merge-confidence}

abbrev writer : Text → MetadataAuthor
writer name = record { role = codes "writer"; name = name; provider = none }

abbrev pub from_anilist : MetadataRecord
from_anilist = record {
  provider = "anilist";
  external_id = "1";
  url = none;
  title = codes " Berserk ";
  alt_titles = codes "BERSERK" ∷ codes "Kenpuu" ∷ codes "kenpuu" ∷ [];
  summary = some (codes "Short");
  year = some 1989;
  status = some "ongoing";
  cover_url = none;
  country = some "JP";
  type = some "manga";
  authors = writer (codes "Miura") ∷ writer (codes "Miura") ∷ [];
  genres = codes "Action" ∷ codes "Drama" ∷ [];
  tags = [];
  publisher = none;
  available_languages = codes "en" ∷ [];
  confidence = 900;
  metadata = none;
}

abbrev from_mangadex : MetadataRecord
from_mangadex = record {
  provider = "mangadex";
  external_id = "2";
  url = none;
  title = codes "Bersk";
  alt_titles = [];
  summary = some (codes "A longer text");
  year = some 1990;
  status = some "completed";
  cover_url = some "https://uploads/2.jpg";
  country = none;
  type = some "manga";
  authors = writer (codes "K. Miura") ∷ [];
  genres = codes "Drama" ∷ codes "Horror" ∷ [];
  tags = [];
  publisher = none;
  available_languages = codes "it" ∷ codes "en" ∷ [];
  confidence = 850;
  metadata = none;
}

abbrev both : MergedMetadata
both = merge (from_mangadex ∷ from_anilist ∷ []) none

merged_title : both.title ≡ codes "Berserk"
unfolding merge mangasama.Base.Sort.sort mangasama.Merger.record_leb mangasama.Base.nat_eq
    mangasama.Merger.Merge.merge_sorted mangasama.Merger.Scalars.longest_nonempty
    mangasama.Merger.Scalars.longest mangasama.Merger.Scalars.max_by mangasama.Text.strip
    mangasama.Text.is_space mangasama.Merger.Scalars.max_from
merged_title = refl

merged_alt : both.alt_titles ≡ codes "Kenpuu" ∷ []
unfolding merge mangasama.Base.Sort.sort mangasama.Merger.record_leb mangasama.Base.nat_eq
    mangasama.Merger.Merge.merge_sorted mangasama.Merger.Authors.add_records
    mangasama.Merger.Authors.add_new mangasama.Merger.Scalars.longest_nonempty
    mangasama.Merger.Scalars.longest mangasama.Merger.Scalars.max_by mangasama.Text.strip
    mangasama.Text.is_space mangasama.Merger.Scalars.max_from mangasama.Text.text_eq
    mangasama.Text.lower
merged_alt = refl

merged_year : both.year ≡ some 1989
unfolding merge mangasama.Base.Sort.sort mangasama.Merger.record_leb mangasama.Base.nat_eq
    mangasama.Merger.Merge.merge_sorted mangasama.Merger.Scalars.median
    mangasama.Merger.Scalars.present
merged_year = refl

merged_status : both.status ≡ some "ongoing"
unfolding merge mangasama.Base.Sort.sort mangasama.Merger.record_leb mangasama.Base.nat_eq
    mangasama.Merger.Merge.merge_sorted mangasama.Merger.Scalars.vote_attr
    mangasama.Merger.Scalars.max_by mangasama.Base.Dict.keys mangasama.Merger.Scalars.weigh
    mangasama.Merger.Scalars.given mangasama.Base.string_eq mangasama.Base.Dict.insert
    mangasama.Merger.Scalars.max_from mangasama.Merger.Scalars.vote_less mangasama.Base.Dict.lookup
merged_status = refl

merged_cover : both.cover_url ≡ some "https://uploads/2.jpg"
unfolding merge mangasama.Base.Sort.sort mangasama.Merger.record_leb mangasama.Base.nat_eq
    mangasama.Merger.Merge.merge_sorted mangasama.Merger.Scalars.choose_cover
    mangasama.Merger.Scalars.cover_of mangasama.Merger.Scalars.given mangasama.Base.string_eq
merged_cover = refl

merged_genres : both.genres ≡ codes "Action" ∷ codes "Drama" ∷ codes "Horror" ∷ []
unfolding merge mangasama.Base.Sort.sort mangasama.Merger.record_leb mangasama.Base.nat_eq
    mangasama.Merger.Merge.merge_sorted mangasama.Merger.Authors.add_records
    mangasama.Merger.Authors.add_new mangasama.Text.text_eq
merged_genres = refl

merged_conf : both.confidence ≡ 876
unfolding merge mangasama.Base.Sort.sort mangasama.Merger.record_leb mangasama.Base.nat_eq
    mangasama.Merger.Merge.merge_sorted mangasama.Merger.Merge.merged_confidence
    mangasama.Merger.Merge.round_div mangasama.Merger.Merge.sum
merged_conf = refl

merged_authors :
    both.authors
    ≡ record { role = codes "writer"; name = codes "Miura"; provider = some "anilist" } ∷ []
unfolding merge mangasama.Base.Sort.sort mangasama.Base.Sort.insert mangasama.Merger.record_leb
    mangasama.Base.nat_eq mangasama.Merger.Merge.merge_sorted mangasama.Merger.Authors.merge_authors
    mangasama.Merger.Authors.authors_of_roles mangasama.Merger.Authors.group_by_role
    mangasama.Merger.Authors.group_authors mangasama.Base.Dict.insert mangasama.Base.string_eq
    mangasama.Merger.Authors.authors_of_role mangasama.Merger.Authors.distinct
    mangasama.Merger.Authors.chosen_provider mangasama.Merger.Authors.priority_of
    mangasama.Base.Dict.lookup mangasama.Text.text_eq mangasama.Merger.provider_rank
merged_authors = refl

vote_attr-top_example :
    ((w : String)
      → support (λ r. r.type) (from_anilist ∷ from_mangadex ∷ []) w
        ≤ support (λ r. r.type) (from_anilist ∷ from_mangadex ∷ []) "manga")
    × (is_some {A = String} (some "anilist") ≡ true)
    × (some "anilist" ≡ winner (λ r. r.type == some "manga") (from_anilist ∷ from_mangadex ∷ []))
unfolding mangasama.Merger.Scalars.vote_attr mangasama.Merger.Scalars.max_by
    mangasama.Base.Dict.keys mangasama.Merger.Scalars.weigh mangasama.Merger.Scalars.given string_eq
    mangasama.Base.Dict.insert mangasama.Merger.Scalars.max_from winner option_eq
vote_attr-top_example =
    vote_attr-top (λ r. r.type) (from_anilist ∷ from_mangadex ∷ []) "manga" (some "anilist") refl

merge-AreUnions_example : AreUnions (from_mangadex ∷ from_anilist ∷ []) both
merge-AreUnions_example = merge-AreUnions (from_mangadex ∷ from_anilist ∷ []) none

merge-perm_example : both ≡ merge (from_anilist ∷ from_mangadex ∷ []) none
unfolding mangasama.Merger.record_leb mangasama.Base.nat_eq
merge-perm_example =
    merge-perm (from_mangadex ∷ from_anilist ∷ []) (from_anilist ∷ from_mangadex ∷ []) none
      ((refl, tt), (tt, tt)) (Perm.swap from_anilist from_mangadex [])

merge-confidence_example : IsWithin 850 900 both.confidence
merge-confidence_example =
    merge-confidence 850 900 (from_mangadex ∷ from_anilist ∷ []) none (omega arith)
      ((omega arith, omega arith), ((omega arith, omega arith), tt))
