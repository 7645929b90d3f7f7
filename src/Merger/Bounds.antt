-- ===== src/Merger/Bounds.antt =====
-- The title, the year and the confidence of a merge (app/metadata/merger.py).
use mangasama.Base.{
  ℕ, String, zero, suc, ◌-◌, ◌*◌, ◌/◌, ◌%◌, ◌≤◌, ◌<◌, ◌≡◌, Bool, false, not, Option, none, some,
  List, [], ◌∷◌, map, arith, inl, inr,
}
use mangasama.Base.{
  nat_eq, ltb, leb, length, filterb, get_or, get_elem?, All, All-imp, Bool-cases, Option-cases,
}
use mathlib.Core.Path.{subst}
use native.Mathlib.Nat.{
  mul-add, mul_comm, mul-le-mul_right, le-div_iff_mul-le, div-le_of_le-mul, div-add-mod,
  lt_of_mul-lt-mul_left,
}
use mangasama.Base.Sort.{sort, sort-All, All-of_sort, length-sort}
use mangasama.Text.{Text, is_empty, strip}
use mangasama.Merger.{MetadataRecord, record_leb}
use mangasama.Merger.Scalars.{max_by, present, longest, longest_nonempty, median}
use mangasama.Merger.Winner.{max_from-greatest}
use mangasama.Merger.Merge.{merge, merge_sorted, merge_ordered, sum, round_div, merged_confidence}

-- A text of `vs` is at most as long as the longest one.
longest-greatest : (vs : List Text) → All (λ v. length v ≤ length (get_or (longest vs) [])) vs
unfolding longest max_by
longest-greatest [] = tt
longest-greatest (v ∷ vs) =
    All-imp _ _ (v ∷ vs) (λ w h. ground (arith, h))
      (max_from-greatest (λ s t. ltb (length s) (length t)) (λ s t h. ground arith)
        (λ s t u h k. ground arith) v vs)

-- What holds of the elements that a condition keeps holds of all, up to that condition.
kept-All {ℓ κ} :
    {A : Type ℓ} (p : A → Bool) (P : A → Type κ) (xs : List A)
    → ((x : A) → p x ≡ false → P x)
    → All P (filterb p xs)
    → All P xs
kept-All p P [] f h = tt
kept-All p P (x ∷ xs) f h = elim (Bool-cases (p x)) [
  | inl e ↦ let k = rw e at h in (k.0, kept-All p P xs f k.1)
  | inr e ↦ (f x e, kept-All p P xs f (rw e at h))
]

mapped-All {ℓ κ μ} :
    {A : Type ℓ} {B : Type κ} (f : A → B) (P : B → Type μ) (xs : List A)
    → All P (map f xs)
    → All (λ x. P (f x)) xs
mapped-All f P [] h = tt
mapped-All f P (x ∷ xs) h = (h.0, mapped-All f P xs h.1)

empty_short : (s : Text) (n : ℕ) → not (is_empty s) ≡ false → length s ≤ n
empty_short [] n h = omega arith
empty_short (c ∷ s) n h = cc

abbrev pub IsLongest : Text → List MetadataRecord → Type 0
IsLongest title rs = All (λ r. length (strip r.title) ≤ length title) rs

merge_ordered-title :
    (p : Option String) (rs : List MetadataRecord) → IsLongest (merge_ordered p rs).title rs
unfolding merge_sorted longest_nonempty
merge_ordered-title p [] = tt
merge_ordered-title p (top ∷ others) =
    let rs = top ∷ others in
    let titles = map strip (map (λ r. r.title) rs) in
    let best = get_or (longest (filterb (λ v. not (is_empty v)) titles)) [] in
    mapped-All (λ r. r.title) (λ t. length (strip t) ≤ length best) rs
      (mapped-All strip (λ t. length t ≤ length best) (map (λ r. r.title) rs)
        (kept-All (λ v. not (is_empty v)) (λ t. length t ≤ length best) titles
          (λ t e. empty_short t (length best) e)
          (longest-greatest (filterb (λ v. not (is_empty v)) titles))))

-- No record has a title that is longer, without the spaces around it, than that of the merge.
pub merge-title :
    (rs : List MetadataRecord) (preferred_cover : Option String)
    → IsLongest (merge rs preferred_cover).title rs
unfolding merge
merge-title rs p = All-of_sort record_leb _ rs (merge_ordered-title p (sort record_leb rs))

abbrev pub IsWithin : ℕ → ℕ → ℕ → Type 0
IsWithin lo hi n = (lo ≤ n) × (n ≤ hi)

get-All {ℓ κ} :
    {A : Type ℓ} (P : A → Type κ) (xs : List A) (i : ℕ) (d : A)
    → i < length xs
    → All P xs
    → P (get_or (get_elem? xs i) d)
get-All P [] i d lt h = absurd (omega (arith, lt))
get-All P (x ∷ xs) zero d lt h = h.0
get-All P (x ∷ xs) (suc i) d lt h = get-All P xs i d (omega (arith, lt)) h.1

median-IsWithin :
    (lo hi : ℕ) (years : List ℕ) (y : ℕ)
    → All (IsWithin lo hi) years
    → median years ≡ some y
    → IsWithin lo hi y
unfolding median
median-IsWithin lo hi [] y h e = ground (arith, e)
median-IsWithin lo hi (x ∷ xs) y h e =
    let ys = sort leb (x ∷ xs) in
    let n = length (x ∷ xs) in
    let same : length ys ≡ n = length-sort leb (x ∷ xs) in
    let all = sort-All leb (IsWithin lo hi) (x ∷ xs) h in
    let upper = get-All (IsWithin lo hi) ys (n / 2) 0 (omega (arith, same)) all in
    let lower = get-All (IsWithin lo hi) ys (n / 2 - 1) 0 (omega (arith, same)) all in
    ground (arith, upper, lower, e)

squares-IsWithin :
    (lo hi : ℕ) (cs : List ℕ)
    → All (IsWithin lo hi) cs
    → IsWithin (lo * sum cs) (hi * sum cs) (sum (map (λ c. c * c) cs))
unfolding sum
squares-IsWithin lo hi [] h = (omega arith, omega arith)
squares-IsWithin lo hi (c ∷ cs) ((l, u), h) =
    let (a, b) = squares-IsWithin lo hi cs h in
    (
      omega (arith, a, mul-add lo c (sum cs), mul-le-mul_right c l),
      omega (arith, b, mul-add hi c (sum cs), mul-le-mul_right c u),
    )

round_div-IsWithin :
    (lo hi a d : ℕ) → 0 < d → IsWithin (lo * d) (hi * d) a → IsWithin lo hi (round_div a d)
unfolding round_div
round_div-IsWithin lo hi a zero pos h = absurd (omega (arith, pos))
round_div-IsWithin lo hi a (suc b) pos (l, u) =
    let d = suc b in
    let below = (le-div_iff_mul-le {x = lo} {y = a} pos).1 l in
    let above = div-le_of_le-mul d {m = a} {n = hi} (rw (mul_comm d hi) u) in
    let whole = div-add-mod a d in
    let inside : 0 < a % d → a / d < hi =
      λ r. lt_of_mul-lt-mul_left d (omega (arith, whole, r, u, mul_comm hi d)) in
    ground (arith, below, above, inside)

least-le_sum : (lo hi : ℕ) (cs : List ℕ) → 0 < length cs → All (IsWithin lo hi) cs → lo ≤ sum cs
unfolding sum
least-le_sum lo hi [] some_number h = absurd (omega (arith, some_number))
least-le_sum lo hi (c ∷ cs) some_number h = omega (arith, h.0.0)

ratio-IsWithin :
    (lo hi : ℕ) (cs : List ℕ)
    → 0 < length cs
    → All (IsWithin lo hi) cs
    → IsWithin lo hi (round_div (sum (map (λ c. c * c) cs)) (sum cs))
unfolding round_div
ratio-IsWithin lo hi cs some_number h = elim (Bool-cases (ltb 0 (sum cs))) [
  | inl e ↦
      round_div-IsWithin lo hi (sum (map (λ c. c * c) cs)) (sum cs) (ground arith)
        (squares-IsWithin lo hi cs h)
  | inr e ↦
      let none_left : 0 ≡ sum cs = ground arith in
      let least = least-le_sum lo hi cs some_number h in
      subst (λ n. IsWithin lo hi (round_div (sum (map (λ c. c * c) cs)) n)) none_left
        (omega (arith, none_left, least), omega arith)
]

map-All {ℓ κ μ} :
    {A : Type ℓ} {B : Type κ} (f : A → B) (P : B → Type μ) (xs : List A)
    → All (λ x. P (f x)) xs
    → All P (map f xs)
map-All f P [] h = tt
map-All f P (x ∷ xs) h = (h.0, map-All f P xs h.1)

merge_ordered-confidence :
    (lo hi : ℕ) (p : Option String) (rs : List MetadataRecord)
    → 0 < length rs
    → All (λ r. IsWithin lo hi r.confidence) rs
    → IsWithin lo hi (merge_ordered p rs).confidence
unfolding merge_sorted merged_confidence
merge_ordered-confidence lo hi p [] some_record h = absurd (omega (arith, some_record))
merge_ordered-confidence lo hi p (r ∷ rs) some_record h =
    ratio-IsWithin lo hi (map (λ q. q.confidence) (r ∷ rs)) (omega arith)
      (map-All (λ q. q.confidence) (IsWithin lo hi) (r ∷ rs) h)

-- If there is a record and the confidences of all lie between two bounds, then so does the
-- confidence of the merge.
pub merge-confidence :
    (lo hi : ℕ) (rs : List MetadataRecord) (preferred_cover : Option String)
    → 0 < length rs
    → All (λ r. IsWithin lo hi r.confidence) rs
    → IsWithin lo hi (merge rs preferred_cover).confidence
unfolding merge
merge-confidence lo hi rs p some_record h =
    merge_ordered-confidence lo hi p (sort record_leb rs)
      (rw (length-sort record_leb rs) some_record)
      (sort-All record_leb (λ r. IsWithin lo hi r.confidence) rs h)

abbrev pub YearWithin : ℕ → ℕ → Option ℕ → Type 0
YearWithin lo hi none = Unit
YearWithin lo hi (some y) = IsWithin lo hi y

present-All :
    (lo hi : ℕ) (years : List (Option ℕ))
    → All (YearWithin lo hi) years
    → All (IsWithin lo hi) (present years)
unfolding present
present-All lo hi [] h = tt
present-All lo hi (none ∷ years) h = present-All lo hi years h.1
present-All lo hi (some y ∷ years) h = (h.0, present-All lo hi years h.1)

merge_ordered-year :
    (lo hi : ℕ) (p : Option String) (rs : List MetadataRecord)
    → All (λ r. YearWithin lo hi r.year) rs
    → YearWithin lo hi (merge_ordered p rs).year
unfolding merge_sorted
merge_ordered-year lo hi p [] h = tt
merge_ordered-year lo hi p (r ∷ rs) h =
    let years = present (map (λ q. q.year) (r ∷ rs)) in
    let all =
      present-All lo hi (map (λ q. q.year) (r ∷ rs))
        (map-All (λ q. q.year) (YearWithin lo hi) (r ∷ rs) h) in
    elim (Option-cases (median years)) [
      | inl e ↦ rw e tt
      | inr (y, e) ↦ rw e (median-IsWithin lo hi years y all e)
    ]

-- If the years that the records give lie between two bounds, then so does the year of the merge.
pub merge-year :
    (lo hi : ℕ) (rs : List MetadataRecord) (preferred_cover : Option String)
    → All (λ r. YearWithin lo hi r.year) rs
    → YearWithin lo hi (merge rs preferred_cover).year
unfolding merge
merge-year lo hi rs p h =
    merge_ordered-year lo hi p (sort record_leb rs)
      (sort-All record_leb (λ r. YearWithin lo hi r.year) rs h)
