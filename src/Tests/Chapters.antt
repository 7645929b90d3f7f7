-- ===== src/Tests/Chapters.antt =====
-- The order of languages, one chapter for each number, and what is missing.
use mangasama.Base.{
  ◌≡◌, refl, String, Bool, true, false, Option, none, some, List, [], ◌∷◌, filterb, ◌==◌, All,
  find_first,
}
use mangasama.Base.Sort
use mathlib.Core.List.{Perm}
use mangasama.Text.{Text, codes, lower, text_eq}
use mangasama.Languages.{ScrapedChapter, select_chapters, chapter_leb, priority_for, allows}
use mangasama.Languages.Order.{select_chapters_sorts}
use mangasama.Follow.{list_selected, list_missing}
use mangasama.Follow.Dedup.{
  UniqueNumbers, Best, allowed, list_selected-UniqueNumbers, list_selected-Best,
  list_selected_italian,
}
use mangasama.Follow.Missing.{AreNew, list_missing-AreNew}
use mangasama.Tests.{
  ch1_en, ch1_it, ch2_en, ch2_fr, source_chapters, library, series, policy, answers, database,
}

-- French is not allowed, and Italian stands first.
listed : list_selected library source_chapters none ≡ ch1_it ∷ ch2_en ∷ []
unfolding list_selected mangasama.Follow.dedup select_chapters Sort.sort mangasama.Text.text_eq
    lower mangasama.Languages.language_rank mangasama.Languages.index_of priority_for
    mangasama.Languages.text_leb
listed = refl

abbrev fr_first : Option (List Text)
fr_first = some (codes " FR" ∷ codes "it" ∷ [])

french_first :
    select_chapters source_chapters fr_first none ≡ ch2_fr ∷ ch1_it ∷ ch1_en ∷ ch2_en ∷ []
unfolding select_chapters Sort.sort mangasama.Languages.language_rank mangasama.Languages.index_of
    priority_for mangasama.Text.is_space mangasama.Text.text_eq mangasama.Languages.text_leb
french_first = refl

select_chapters_sorts_example :
    Perm (select_chapters source_chapters fr_first none) (filterb (allows none) source_chapters)
    × Sort.IsSorted
        (chapter_leb (priority_for fr_first))
        (select_chapters source_chapters fr_first none)
    × ((lang : Text)
        → filterb (λ c. lower c.language == lang) (select_chapters source_chapters fr_first none)
          ≡ filterb (λ c. lower c.language == lang) (filterb (allows none) source_chapters))
select_chapters_sorts_example = select_chapters_sorts source_chapters fr_first none

list_selected-UniqueNumbers_run : UniqueNumbers (list_selected library source_chapters none)
list_selected-UniqueNumbers_run = list_selected-UniqueNumbers library source_chapters none

list_selected-Best_example :
    All
      (Best (priority_for none) (list_selected library source_chapters none))
      (filterb (allows (allowed library)) source_chapters)
list_selected-Best_example = list_selected-Best library source_chapters none

list_selected_italian_example :
    All
      (λ c.
        (d : ScrapedChapter) × (filterb
            (λ x. c.number == x.number)
            (list_selected library source_chapters none)
          ≡ d ∷ [])
        × (lower d.language ≡ codes "it"))
      (filterb
        (λ c. lower c.language == codes "it")
        (filterb (allows (allowed library)) source_chapters))
list_selected_italian_example = list_selected_italian library source_chapters

list_missing-AreNew_example : AreNew database series "mangaworld" (ch2_en ∷ [])
unfolding mangasama.Follow.load_series mangasama.Models.Query.one_or_none mangasama.Base.nat_eq
    list_missing mangasama.Follow.library_of mangasama.Follow.pick_provider
    mangasama.Follow.first_usable mangasama.Base.Dict.lookup mangasama.Follow.by_provider
    mangasama.Follow.by_provider_from mangasama.Base.Dict.insert mangasama.Base.string_eq
    mangasama.Sources.is_scraper_available mangasama.Sources.has mangasama.Sources.is_source_enabled
    mangasama.Sources.gate mangasama.Sources.get mangasama.Base.pair_eq mangasama.Base.Sort.insert
    mangasama.Base.Sort.sort mangasama.Follow.dedup mangasama.Follow.existing_keys
    mangasama.Follow.in_series mangasama.Follow.list_selected mangasama.Languages.index_of
    mangasama.Languages.language_rank mangasama.Languages.priority_for
    mangasama.Languages.select_chapters mangasama.Languages.text_leb mangasama.Text.is_space
    mangasama.Text.lower mangasama.Text.lower_char mangasama.Text.lstrip_by mangasama.Text.rstrip_by
    mangasama.Text.strip mangasama.Text.strip_by mangasama.Text.text_eq
list_missing-AreNew_example =
    list_missing-AreNew policy answers database series none "mangaworld" (ch2_en ∷ []) refl
