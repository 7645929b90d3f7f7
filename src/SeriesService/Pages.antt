-- ===== src/SeriesService/Pages.antt =====
-- The pages of a listing of series (app/services/series.py).
use mangasama.Base.{
  ℕ, zero, suc, ◌+◌, ◌≡◌, refl, ap, ◌∙◌, sym, Bool, true, false, Option, none, some, List, [], ◌∷◌,
  ◌++◌, arith,
}
use mangasama.Base.{nat_eq, All, All-imp, take, drop, filterb-All}
use mangasama.Base.Sort
use mangasama.Text.{Text}
use mangasama.Languages.Order.{text_leb_total, text_leb_trans}
use mangasama.Models.{Database}
use mangasama.SeriesService.{null_last_leb, series_leb, query_rows, list_series}

module _ {ℓ} {A : Type ℓ} where
  take-nil : (n : ℕ) → take {A = A} n [] ≡ []
  take-nil zero = refl
  take-nil (suc n) = refl

  drop-nil : (n : ℕ) → drop {A = A} n [] ≡ []
  drop-nil zero = refl
  drop-nil (suc n) = refl

  take-add : (m n : ℕ) (xs : List A) → take (m + n) xs ≡ take m xs ++ take n (drop m xs)
  take-add zero n xs = ap (λ k. take k xs) (omega arith)
  take-add (suc m) n [] = take-nil (suc m + n) ∙ sym (take-nil n)
  take-add (suc m) n (x ∷ xs) =
      ap (λ k. take k (x ∷ xs)) {y = suc (m + n)} (omega arith) ∙ ap (λ r. x ∷ r) (take-add m n xs)

  drop-add : (m n : ℕ) (xs : List A) → drop (m + n) xs ≡ drop n (drop m xs)
  drop-add zero n xs = ap (λ k. drop k xs) (omega arith)
  drop-add (suc m) n [] = drop-nil (suc m + n) ∙ sym (drop-nil n)
  drop-add (suc m) n (x ∷ xs) =
      ap (λ k. drop k (x ∷ xs)) {y = suc (m + n)} (omega arith) ∙ drop-add m n xs

null_last_leb_total :
    (s t : Option Text) (i j : ℕ) → null_last_leb s t i j ≡ false → null_last_leb t s j i ≡ true
null_last_leb_total none none i j h = ground arith
null_last_leb_total none (some t) i j h = refl
null_last_leb_total (some s) none i j h = cc
null_last_leb_total (some s) (some t) i j h = ground (arith, text_leb_total s t)

null_last_leb_trans :
    (s t u : Option Text) (i j k : ℕ)
    → null_last_leb s t i j ≡ true
    → null_last_leb t u j k ≡ true
    → null_last_leb s u i k ≡ true
null_last_leb_trans none none none i j k h h' = ground arith
null_last_leb_trans none none (some u) i j k h h' = cc
null_last_leb_trans none (some t) u i j k h h' = cc
null_last_leb_trans (some s) none none i j k h h' = refl
null_last_leb_trans (some s) none (some u) i j k h h' = cc
null_last_leb_trans (some s) (some t) none i j k h h' = refl
null_last_leb_trans (some s) (some t) (some u) i j k h h' =
    ground (arith, text_leb_trans s t u, text_leb_trans t u s, text_leb_trans u s t)

module _ (ilike : Text → Text → Bool) (dumps : List Text → Text) (library_id : Option ℕ)
    (followed : Option Bool) (q : Option Text) (db : Database) where
  -- The pages of a listing, one after the other, are the listing in one page: none is passed over and
  -- none comes twice.
  pub list_series-pages :
      (m n offset : ℕ)
      → list_series ilike dumps library_id followed q (m + n) offset db
        ≡ list_series ilike dumps library_id followed q m offset db
          ++ list_series ilike dumps library_id followed q n (offset + m) db
  unfolding list_series
  list_series-pages m n offset =
      let all = query_rows ilike dumps library_id followed q db in
      take-add m n (drop offset all)
      ∙ ap (λ r. take m (drop offset all) ++ take n r) (sym (drop-add offset m all))

  -- What a query selects is listed by the title to sort by, those without one last, and then by the
  -- key, and holds no deleted series.
  pub query_rows-IsSorted :
      Sort.IsSorted series_leb (query_rows ilike dumps library_id followed q db)
      × All (λ s. s.deleted ≡ false) (query_rows ilike dumps library_id followed q db)
  unfolding query_rows series_leb
  query_rows-IsSorted = (
    Sort.sort-IsSorted series_leb (λ a b. null_last_leb_total a.sort_title b.sort_title a.id b.id)
        (λ a b c. null_last_leb_trans a.sort_title b.sort_title c.sort_title a.id b.id c.id) _,
    Sort.sort-All series_leb (λ s. s.deleted ≡ false) _
        (All-imp _ (λ s. s.deleted ≡ false) _ (λ s h. ground (arith, h)) (filterb-All _ db.series)),
  )
