-- ===== src/Languages/Order.antt =====
-- The order and the content of what `select_chapters` of app/services/language_picker.py gives.
use mathlib.Core.List.{Perm}
use mangasama.Base.{ℕ, ◌≡◌, refl, Bool, true, false, Option, List, [], ◌∷◌, arith}
use mangasama.Base.{◌==◌, nat_eq, filterb}
use mangasama.Base.Sort
use mangasama.Text.{Text, text_eq, lower}
use mangasama.Languages.{
  ScrapedChapter, priority_for, text_leb, language_rank, rank_leb, chapter_leb, allows,
  select_chapters,
}

pub text_leb_total : (s t : Text) → text_leb s t ≡ false → text_leb t s ≡ true
unfolding text_leb
text_leb_total [] t h = cc
text_leb_total (c ∷ s) [] h = refl
text_leb_total (c ∷ s) (d ∷ t) h = ground (arith, text_leb_total s t)

pub text_leb_trans :
    (s t u : Text) → text_leb s t ≡ true → text_leb t u ≡ true → text_leb s u ≡ true
unfolding text_leb
text_leb_trans [] t u h k = refl
text_leb_trans (c ∷ s) [] u h k = cc
text_leb_trans (c ∷ s) (d ∷ t) [] h k = cc
text_leb_trans (c ∷ s) (d ∷ t) (e ∷ u) h k = ground (arith, text_leb_trans s t u)

text_leb_refl : (s : Text) → text_leb s s ≡ true
unfolding text_leb
text_leb_refl [] = refl
text_leb_refl (c ∷ s) = ground (arith, text_leb_refl s)

rank_leb_total : (p q : ℕ × Text) → rank_leb p q ≡ false → rank_leb q p ≡ true
rank_leb_total (m, s) (n, t) h = ground (arith, text_leb_total s t)

rank_leb_trans :
    (p q r : ℕ × Text) → rank_leb p q ≡ true → rank_leb q r ≡ true → rank_leb p r ≡ true
rank_leb_trans (m, s) (n, t) (o, u) h k = ground (arith, text_leb_trans s t u)

rank_leb_refl : (p : ℕ × Text) → rank_leb p p ≡ true
rank_leb_refl (m, s) = ground (arith, text_leb_refl s)

same_rank :
    (prio : List Text) (a b : Text)
    → lower a ≡ lower b
    → language_rank prio a ≡ language_rank prio b
unfolding language_rank
same_rank prio a b h = rw h

pub chapter_leb_same :
    (prio : List Text) (c d : ScrapedChapter)
    → lower c.language ≡ lower d.language
    → chapter_leb prio c d ≡ true
chapter_leb_same prio c d h =
    rw (same_rank prio _ _ h) (rank_leb_refl (language_rank prio d.language))

module _ (chapters : List ScrapedChapter) (prio languages : Option (List Text)) where
  abbrev le : ScrapedChapter → ScrapedChapter → Bool
  le = chapter_leb (priority_for prio)

  -- What `select_chapters` gives is a permutation of the chapters whose language is allowed.
  pub select_chapters-perm :
      Perm (select_chapters chapters prio languages) (filterb (allows languages) chapters)
  unfolding select_chapters
  select_chapters-perm = Sort.sort-perm le _

  -- The chapters that `select_chapters` gives are sorted by the rank of their languages.
  pub select_chapters-IsSorted : Sort.IsSorted le (select_chapters chapters prio languages)
  unfolding select_chapters
  select_chapters-IsSorted =
      Sort.sort-IsSorted le (λ c d. rank_leb_total (rank c) (rank d))
        (λ c d e. rank_leb_trans (rank c) (rank d) (rank e)) (filterb (allows languages) chapters)
    where
      rank : ScrapedChapter → ℕ × Text
      rank c = language_rank (priority_for prio) c.language

  -- The chapters of one language, in whatever case it is written, keep the order of the source
  -- in `select_chapters`.
  pub select_chapters_stable :
      (lang : Text)
      → filterb (λ c. lower c.language == lang) (select_chapters chapters prio languages)
        ≡ filterb (λ c. lower c.language == lang) (filterb (allows languages) chapters)
  unfolding select_chapters
  select_chapters_stable lang =
      Sort.filterb-sort le (λ c. lower c.language == lang)
        (λ c d h k. chapter_leb_same (priority_for prio) c d (ground arith))
        (filterb (allows languages) chapters)

  -- What `select_chapters` gives is a permutation of the chapters whose language is allowed, is
  -- sorted by the rank of the languages, and keeps the order of the source for the chapters of one
  -- language, in whatever case it is written.
  pub select_chapters_sorts :
      Perm (select_chapters chapters prio languages) (filterb (allows languages) chapters)
      × Sort.IsSorted le (select_chapters chapters prio languages)
      × ((lang : Text)
          → filterb (λ c. lower c.language == lang) (select_chapters chapters prio languages)
            ≡ filterb (λ c. lower c.language == lang) (filterb (allows languages) chapters))
  select_chapters_sorts = (select_chapters-perm, select_chapters-IsSorted, select_chapters_stable)
