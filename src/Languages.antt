-- ===== src/Languages.antt =====
-- app/core/italian.py (`is_italian_language`) and app/services/language_picker.py: the filter and the
-- stable sort that put the preferred language first. `ScrapedChapter` is that of
-- app/scrapers/base.py.
pub mod Order
use mangasama.Base.{
  ℕ, zero, suc, String, Bool, true, false, not, ◌&&◌, ◌||◌, Option, none, some, List, [], ◌∷◌, map,
}
use mangasama.Base.{
  ◌==◌, nat_eq, contains, if◌then◌else◌, ltb, leb, length, filterb, get_or, is_some,
}
use mangasama.Base.Sort
use mangasama.Text.{Text, codes, text_eq, strip, lower, is_empty}

pub record ScrapedChapter : Type 0 where
  pub source : String
  pub external_id : String
  pub url : String
  pub number : Text
  pub title : Option Text
  pub language : Text
  pub volume_number : Option Text
  pub scanlation_group : Option String

-- `is_italian_language`, which `is_italian` calls with `language or ""`
unfoldable pub is_italian_language : Option Text → Bool
unfolding lower strip text_eq
is_italian_language none = false
is_italian_language (some lang) =
    not (is_empty lang)
    && contains
        (codes "it"
          ∷ codes "ita"
          ∷ codes "it-it"
          ∷ codes "italian"
          ∷ codes "italiano"
          ∷ codes "italiana"
          ∷ [])
        (strip (lower lang))

abbrev pub default_priority : List Text
default_priority = codes "it" ∷ codes "en" ∷ []

abbrev or_default : List Text → List Text
or_default [] = default_priority
or_default (l ∷ ls) = l ∷ ls

unfoldable pub priority_for : Option (List Text) → List Text
unfolding lower strip
priority_for none = default_priority
priority_for (some ls) =
    or_default (map (λ l. lower (strip l)) (filterb (λ l. not (is_empty (strip l))) ls))

-- `priority.index(lang)` where it is in, and the length of the list where it is not.
unfoldable pub index_of : List Text → Text → ℕ
index_of [] l = zero
index_of (p ∷ ps) l = let rest = index_of ps l in if l == p then zero else suc rest

-- Python's order of texts.
unfoldable pub text_leb : Text → Text → Bool
text_leb [] t = true
text_leb (c ∷ s) [] = false
text_leb (c ∷ s) (d ∷ t) =
    let rest = text_leb s t in if ltb c d then true else if ltb d c then false else rest

-- `_language_rank`: a pair, compared part by part.
unfoldable pub language_rank : List Text → Text → ℕ × Text
language_rank priority lang = (index_of priority (lower lang), lower lang)

abbrev pub rank_leb : ℕ × Text → ℕ × Text → Bool
rank_leb (m, s) (n, t) = if ltb m n then true else if ltb n m then false else text_leb s t

abbrev pub chapter_leb : List Text → ScrapedChapter → ScrapedChapter → Bool
chapter_leb prio c d = rank_leb (language_rank prio c.language) (language_rank prio d.language)

-- `languages`: `None` and the empty list allow every language.
abbrev pub allows : Option (List Text) → ScrapedChapter → Bool
allows none ch = true
allows (some []) ch = true
allows (some (l ∷ ls)) ch = contains (map lower (l ∷ ls)) (lower ch.language)

unfoldable pub select_chapters :
    List ScrapedChapter → Option (List Text) → Option (List Text) → List ScrapedChapter
select_chapters chapters language_priority languages =
    Sort.sort (chapter_leb (priority_for language_priority)) (filterb (allows languages) chapters)
