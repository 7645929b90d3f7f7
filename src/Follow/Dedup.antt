-- ===== src/Follow/Dedup.antt =====
-- One chapter for each number: `_list_selected` of app/services/follow.py.
use mangasama.Base.{
  ℕ, ◌≤◌, ◌≡◌, refl, ◌≢◌, ◌∙◌, ap, sym, Bool, true, Option, none, some, List, [], ◌∷◌, arith,
}
use mangasama.Base.{
  ◌==◌, nat_eq, contains, if◌then◌else◌, filterb, find_first, All, All-imp, All-zip, All-filterb,
  filterb-All, Bool-cases, inl, inr,
}
use mathlib.Core.Path.{subst}
use mathlib.Core.Option.{some-injective}
use mangasama.Base.Sort
use mangasama.Text.{Text, codes, text_eq, lower}
use mangasama.Models.{Library}
use mangasama.Languages.{
  ScrapedChapter, priority_for, index_of, language_rank, rank_leb, chapter_leb, allows,
  select_chapters,
}
use mangasama.Languages.Order.{chapter_leb_same, select_chapters-IsSorted}
use mangasama.Follow.{dedup, list_selected, it_en}

-- No two chapters of the list have the same number.
abbrev pub UniqueNumbers : List ScrapedChapter → Type 0
UniqueNumbers [] = Unit
UniqueNumbers (c ∷ cs) = All (λ d. d.number ≢ c.number) cs × UniqueNumbers cs

abbrev pub with_number : Text → List ScrapedChapter → Option ScrapedChapter
with_number n = find_first (λ d. n == d.number)

find_first-dedup :
    (n : Text) (seen : List Text) (cs : List ScrapedChapter)
    → with_number n (dedup seen cs) ≡ (if contains seen n then none else with_number n cs)
unfolding dedup
find_first-dedup n seen [] = ground arith
find_first-dedup n seen (c ∷ cs) =
    ground (arith, find_first-dedup n seen cs, find_first-dedup n (c.number ∷ seen) cs)

dedup-All :
    (n : Text) (seen : List Text) (cs : List ScrapedChapter)
    → contains seen n ≡ true
    → All (λ d. d.number ≢ n) (dedup seen cs)
unfolding dedup
dedup-All n seen [] h = tt
dedup-All n seen (c ∷ cs) h = elim (Bool-cases (contains seen c.number)) [
  | inl e ↦ rw e (dedup-All n seen cs h)
  | inr e ↦ rw e (λ z. cc (rw z at e), dedup-All n (c.number ∷ seen) cs (ground arith))
]

dedup-UniqueNumbers : (seen : List Text) (cs : List ScrapedChapter) → UniqueNumbers (dedup seen cs)
unfolding dedup
dedup-UniqueNumbers seen [] = tt
dedup-UniqueNumbers seen (c ∷ cs) = elim (Bool-cases (contains seen c.number)) [
  | inl e ↦ rw e (dedup-UniqueNumbers seen cs)
  | inr e ↦ rw e (
    dedup-All c.number (c.number ∷ seen) cs (ground arith),
    dedup-UniqueNumbers (c.number ∷ seen) cs,
  )
]

-- The first chapter with the number of `c` does not rank behind `c`.
abbrev pub FirstBest : List Text → List ScrapedChapter → ScrapedChapter → Type 0
FirstBest prio cs c =
    (d : ScrapedChapter) × (with_number c.number cs ≡ some d) × (chapter_leb prio d c ≡ true)

extend :
    (prio : List Text) (c : ScrapedChapter) (cs : List ScrapedChapter) (d : ScrapedChapter)
    → (chapter_leb prio c d ≡ true) × FirstBest prio cs d
    → FirstBest prio (c ∷ cs) d
extend prio c cs d (h, (e, found, k)) = elim (Bool-cases (d.number == c.number)) [
  | inl same ↦ (c, rw same, h)
  | inr other ↦ (e, rw other found, k)
]

same_number : (c : ScrapedChapter) → (c.number == c.number) ≡ true
same_number c = ground arith

sorted-FirstBest :
    (prio : List Text) (cs : List ScrapedChapter)
    → Sort.IsSorted (chapter_leb prio) cs
    → All (FirstBest prio cs) cs
sorted-FirstBest prio [] s = tt
sorted-FirstBest prio (c ∷ cs) s = (
  (c, rw (same_number c), chapter_leb_same prio c c refl),
  All-imp (λ d. (chapter_leb prio c d ≡ true) × FirstBest prio cs d) (FirstBest prio (c ∷ cs)) cs
      (extend prio c cs)
      (All-zip (λ d. chapter_leb prio c d ≡ true) (FirstBest prio cs) cs s.0
        (sorted-FirstBest prio cs s.1)),
)

abbrev pub allowed : Library → Option (List Text)
allowed l = if l.italian_priority then some it_en else none

-- No two chapters that are listed for a series have the same number.
pub list_selected-UniqueNumbers :
    (l : Library) (chapters : List ScrapedChapter) (priority : Option (List Text))
    → UniqueNumbers (list_selected l chapters priority)
unfolding list_selected
list_selected-UniqueNumbers l chapters priority =
    dedup-UniqueNumbers [] (select_chapters chapters priority (allowed l))

module _ (l : Library) (chapters : List ScrapedChapter) (priority : Option (List Text)) where
  abbrev selected : List ScrapedChapter
  selected = select_chapters chapters priority (allowed l)

  dedup-FirstBest :
      (c : ScrapedChapter)
      → FirstBest (priority_for priority) selected c
      → FirstBest (priority_for priority) (list_selected l chapters priority) c
  unfolding list_selected
  dedup-FirstBest c (d, found, h) = (d, find_first-dedup c.number [] selected ∙ found, h)

  list_selected_first :
      All
        (FirstBest (priority_for priority) (list_selected l chapters priority))
        (filterb (allows (allowed l)) chapters)
  unfolding select_chapters
  list_selected_first =
      Sort.All-of_sort (chapter_leb (priority_for priority)) _
        (filterb (allows (allowed l)) chapters)
        (All-imp (FirstBest (priority_for priority) selected) _ selected dedup-FirstBest (
          sorted-FirstBest (priority_for priority) selected
            (select_chapters-IsSorted chapters priority (allowed l))))

none_with_number :
    (n : Text) (cs : List ScrapedChapter)
    → All (λ d. d.number ≢ n) cs
    → filterb (λ d. n == d.number) cs ≡ []
none_with_number n [] h = refl
none_with_number n (c ∷ cs) h = elim (Bool-cases (n == c.number)) [
  | inl e ↦ let same : n ≡ c.number = ground arith in absurd (h.0 (sym same))
  | inr e ↦ rw e (none_with_number n cs h.1)
]

-- Where numbers are unique, the first chapter with a number is the only one.
one_with_number :
    (n : Text) (cs : List ScrapedChapter) (d : ScrapedChapter)
    → UniqueNumbers cs
    → with_number n cs ≡ some d
    → filterb (λ x. n == x.number) cs ≡ d ∷ []
one_with_number n [] d u h = cc
one_with_number n (c ∷ cs) d u h = elim (Bool-cases (n == c.number)) [
  | inl e ↦
      let same : n ≡ c.number = ground arith in
      let first : c ≡ d = some-injective c d (rw e at h) in
      rw e (
        ap (λ r. c ∷ r)
          (subst (λ m. filterb (λ x. m == x.number) cs ≡ []) (sym same)
            (none_with_number c.number cs u.0))
        ∙ ap (λ x. x ∷ []) first)
  | inr e ↦ rw e (one_with_number n cs d u.1 (rw e at h))
]

-- Just one chapter of the list has the number of `c`, and it does not rank behind `c`.
abbrev pub Best : List Text → List ScrapedChapter → ScrapedChapter → Type 0
Best prio cs c =
    (d : ScrapedChapter) × (filterb (λ x. c.number == x.number) cs ≡ d ∷ [])
    × (chapter_leb prio d c ≡ true)

-- For every chapter of the source in a language that is allowed, just one chapter with its number
-- is listed, and that one does not rank behind it in the order of languages.
pub list_selected-Best :
    (l : Library) (chapters : List ScrapedChapter) (priority : Option (List Text))
    → All
        (Best (priority_for priority) (list_selected l chapters priority))
        (filterb (allows (allowed l)) chapters)
list_selected-Best l chapters priority =
    let listed = list_selected l chapters priority in
    All-imp (FirstBest (priority_for priority) listed) (Best (priority_for priority) listed)
      (filterb (allows (allowed l)) chapters)
      (λ c b. (
        b.0,
        one_with_number c.number listed b.0 (list_selected-UniqueNumbers l chapters priority) b.1,
        b.2,
      ))
      (list_selected_first l chapters priority)

rank_leb→le : (p q : ℕ × Text) → rank_leb p q ≡ true → p.0 ≤ q.0
rank_leb→le (m, s) (n, t) h = ground arith

index_of_it : index_of (priority_for none) (codes "it") ≡ 0
unfolding index_of priority_for text_eq
index_of_it = refl

it_of_index : (s : Text) → index_of (priority_for none) s ≡ 0 → s ≡ codes "it"
unfolding index_of priority_for
it_of_index s h = ground arith

best_italian :
    (c d : ScrapedChapter)
    → chapter_leb (priority_for none) d c ≡ true
    → lower c.language ≡ codes "it"
    → lower d.language ≡ codes "it"
unfolding language_rank
best_italian c d h e = it_of_index (lower d.language) (
    omega (
      arith,
      rank_leb→le (language_rank (priority_for none) d.language)
          (language_rank (priority_for none) c.language) h,
      ap (index_of (priority_for none)) e,
      index_of_it,
    ))

is_italian : ScrapedChapter → Bool
is_italian c = lower c.language == codes "it"

is_italian→it : (c : ScrapedChapter) → is_italian c ≡ true → lower c.language ≡ codes "it"
unfolding is_italian
is_italian→it c h = ground arith

-- With the default order of languages, for every chapter of the source whose code of language is
-- "it", in capitals or not, and that the library allows, just one chapter with its number is
-- listed, and the code of that one is "it".
pub list_selected_italian :
    (l : Library) (chapters : List ScrapedChapter)
    → All
        (λ c.
          (d : ScrapedChapter) × (filterb
              (λ x. c.number == x.number)
              (list_selected l chapters none)
            ≡ d ∷ [])
          × (lower d.language ≡ codes "it"))
        (filterb (λ c. lower c.language == codes "it") (filterb (allows (allowed l)) chapters))
unfolding is_italian
list_selected_italian l chapters =
    let source = filterb (allows (allowed l)) chapters in
    let best = Best (priority_for none) (list_selected l chapters none) in
    All-imp (λ c. best c × (is_italian c ≡ true)) _ (filterb is_italian source)
      (λ c b. (b.0.0, b.0.1, best_italian c b.0.0 b.0.2 (is_italian→it c b.1)))
      (All-zip best (λ c. is_italian c ≡ true) (filterb is_italian source)
        (All-filterb best is_italian source (list_selected-Best l chapters none))
        (filterb-All is_italian source))
