-- ===== src/Merger/Unions.antt =====
-- The fields of the merge that are unions (app/metadata/merger.py).
use mangasama.Base.{
  ◌≡◌, refl, ap, sym, ◌∙◌, true, false, ◌||◌, Option, List, [], ◌∷◌, ◌++◌, map, String, arith, inl,
  inr,
}
use mangasama.Base.{if◌then◌else◌, contains, All, All-append_inv, All-imp, Bool-cases}
use mathlib.Core.Path.{subst}
use mathlib.Core.List.{append_assoc, append-nil}
use mangasama.Base.Sort.{sort, All-of_sort}
use mangasama.Text.{Text, text_eq, is_empty, lower}
use mangasama.Merger.{MetadataRecord, MergedMetadata, record_leb}
use mangasama.Merger.Authors.{add_new, add_records}
use mangasama.Merger.Merge.{merge, merge_sorted, merge_ordered, titles_seen}

module _ (key : Text → Text) where
  -- No two texts of the list have the same key, and none has a key of `seen`.
  abbrev pub Distinct : List Text → List Text → Type 0
  Distinct seen [] = Unit
  Distinct seen (t ∷ ts) = (contains seen (key t) ≡ false) × Distinct (key t ∷ seen) ts

  -- The texts that `add_new` adds.
  added : List Text → List Text → List Text
  added seen [] = []
  added seen (t ∷ ts) =
      let old = added seen ts in
      let new = added (key t ∷ seen) ts in
      if is_empty t || contains seen (key t) then old else t ∷ new

  add_new-added : (ts seen out : List Text) → (add_new key ts seen out).1 ≡ out ++ added seen ts
  unfolding add_new added
  add_new-added [] seen out = sym (append-nil out)
  add_new-added (t ∷ ts) seen out = ground (
    arith,
    add_new-added ts seen out,
    add_new-added ts (key t ∷ seen) (out ++ (t ∷ [])),
    append_assoc out (t ∷ []) (added (key t ∷ seen) ts),
  )

  -- One pass over all records is a pass over all their texts.
  all_texts : (MetadataRecord → List Text) → List MetadataRecord → List Text
  all_texts field [] = []
  all_texts field (r ∷ rs) = field r ++ all_texts field rs

  add_new-append :
      (ts us seen out : List Text)
      → add_new key (ts ++ us) seen out
        ≡ (let (seen', out') = add_new key ts seen out in add_new key us seen' out')
  unfolding add_new
  add_new-append [] us seen out = refl
  add_new-append (t ∷ ts) us seen out =
      ground (
        arith,
        add_new-append ts us seen out,
        add_new-append ts us (key t ∷ seen) (out ++ (t ∷ [])),
      )

  add_records-all_texts :
      (field : MetadataRecord → List Text) (rs : List MetadataRecord) (seen out : List Text)
      → add_records key field rs seen out ≡ add_new key (all_texts field rs) seen out
  unfolding add_records all_texts add_new
  add_records-all_texts field [] seen out = refl
  add_records-all_texts field (r ∷ rs) seen out =
      let x = add_new key (field r) seen out in
      add_records-all_texts field rs x.0 x.1
      ∙ sym (add_new-append (field r) (all_texts field rs) seen out)

  added-Distinct : (ts seen : List Text) → Distinct seen (added seen ts)
  unfolding added
  added-Distinct [] seen = tt
  added-Distinct (t ∷ ts) seen = elim (Bool-cases (is_empty t || contains seen (key t))) [
    | inl e ↦ rw e (added-Distinct ts seen)
    | inr e ↦ rw e (ground (arith, e), added-Distinct ts (key t ∷ seen))
  ]

  -- The text is empty, or its key is one of `seen` or of the texts of the list.
  abbrev pub IsCovered : List Text → List Text → Text → Type 0
  IsCovered seen out t =
      is_empty t ≡ false → (contains seen (key t) || contains (map key out) (key t)) ≡ true

  IsCovered-cons :
      (seen out : List Text) (t u : Text)
      → IsCovered (key t ∷ seen) out u
      → IsCovered seen (t ∷ out) u
  IsCovered-cons seen out t u h e = ground (arith, h e)

  added-IsCovered : (ts seen : List Text) → All (IsCovered seen (added seen ts)) ts
  unfolding added
  added-IsCovered [] seen = tt
  added-IsCovered (t ∷ ts) seen = elim (Bool-cases (is_empty t || contains seen (key t))) [
    | inl e ↦
        subst (λ out. All (IsCovered seen out) (t ∷ ts)) (rw e refl)
          (λ full. ground (arith, e, full), added-IsCovered ts seen)
    | inr e ↦
        subst (λ out. All (IsCovered seen out) (t ∷ ts)) {x = t ∷ added (key t ∷ seen) ts}
          (rw e refl)
          (
            λ full. ground arith,
            All-imp (IsCovered (key t ∷ seen) (added (key t ∷ seen) ts))
                (IsCovered seen (t ∷ added (key t ∷ seen) ts)) ts
                (IsCovered-cons seen (added (key t ∷ seen) ts) t)
                (added-IsCovered ts (key t ∷ seen)),
          )
  ]

  -- A union of the texts that the records give: without repetition, none with a key of `seen`, and
  -- with every text of a record that is not empty, up to its key.
  abbrev pub IsUnion :
      List Text → (MetadataRecord → List Text) → List MetadataRecord → List Text → Type 0
  IsUnion seen field rs out = Distinct seen out × All (λ r. All (IsCovered seen out) (field r)) rs

  all_texts-All {ℓ} :
      (P : Text → Type ℓ) (field : MetadataRecord → List Text) (rs : List MetadataRecord)
      → All P (all_texts field rs)
      → All (λ r. All P (field r)) rs
  unfolding all_texts
  all_texts-All P field [] h = tt
  all_texts-All P field (r ∷ rs) h =
      let (a, b) = All-append_inv P (field r) (all_texts field rs) h in
      (a, all_texts-All P field rs b)

  add_records-IsUnion :
      (field : MetadataRecord → List Text) (rs : List MetadataRecord) (seen : List Text)
      → IsUnion seen field rs (add_records key field rs seen []).1
  add_records-IsUnion field rs seen =
      subst (IsUnion seen field rs)
        (sym (
          ap (λ x. x.1) (add_records-all_texts field rs seen [])
          ∙ add_new-added (all_texts field rs) seen []))
        (
          added-Distinct (all_texts field rs) seen,
          all_texts-All (IsCovered seen (added seen (all_texts field rs))) field rs
              (added-IsCovered (all_texts field rs) seen),
        )

  IsUnion-of_sort :
      (field : MetadataRecord → List Text) (rs : List MetadataRecord) (seen out : List Text)
      → IsUnion seen field (sort record_leb rs) out
      → IsUnion seen field rs out
  IsUnion-of_sort field rs seen out (d, c) = (d, All-of_sort record_leb _ rs c)

-- The fields of a merge that are unions of those of the records; alternative titles are compared
-- up to case, with the title among them.
abbrev pub AreUnions : List MetadataRecord → MergedMetadata → Type 0
AreUnions rs m =
    IsUnion (λ t. t) [] (λ r. r.genres) rs m.genres
    × IsUnion (λ t. t) [] (λ r. r.tags) rs m.tags
    × IsUnion (λ t. t) [] (λ r. r.available_languages) rs m.available_languages
    × IsUnion lower (titles_seen m.title) (λ r. r.alt_titles) rs m.alt_titles

merge_ordered-AreUnions :
    (preferred_cover : Option String) (rs : List MetadataRecord)
    → AreUnions rs (merge_ordered preferred_cover rs)
unfolding merge_sorted
merge_ordered-AreUnions p [] = ((tt, tt), (tt, tt), (tt, tt), (tt, tt))
merge_ordered-AreUnions p (r ∷ rs) = (
  add_records-IsUnion (λ t. t) (λ r. r.genres) (r ∷ rs) [],
  add_records-IsUnion (λ t. t) (λ r. r.tags) (r ∷ rs) [],
  add_records-IsUnion (λ t. t) (λ r. r.available_languages) (r ∷ rs) [],
  add_records-IsUnion lower (λ r. r.alt_titles) (r ∷ rs)
      (titles_seen (merge_ordered p (r ∷ rs)).title),
)

-- The genres, the tags and the languages of a merge contain no text twice, and contain every text
-- of a record that is not empty. The alternative titles do the same up to case, with the title
-- among the texts that are there already.
pub merge-AreUnions :
    (rs : List MetadataRecord) (preferred_cover : Option String)
    → AreUnions rs (merge rs preferred_cover)
unfolding merge
merge-AreUnions rs p =
    let m = merge_ordered p (sort record_leb rs) in
    let (g, t, l, a) = merge_ordered-AreUnions p (sort record_leb rs) in
    (
      IsUnion-of_sort (λ t. t) (λ r. r.genres) rs [] m.genres g,
      IsUnion-of_sort (λ t. t) (λ r. r.tags) rs [] m.tags t,
      IsUnion-of_sort (λ t. t) (λ r. r.available_languages) rs [] m.available_languages l,
      IsUnion-of_sort lower (λ r. r.alt_titles) rs (titles_seen m.title) m.alt_titles a,
    )
