-- ===== src/Merger/Stable.antt =====
-- The order in which the providers answer (app/metadata/merger.py).
use mathlib.Core.List.{Perm}
use mathlib.Core.List.{Permᴰ}
use mathlib.Core.Path.{subst}
use mathlib.Core.HLevel.{hedberg}
use mathlib.Core.Logic.{∥∥₁_elim}
use mangasama.Base.{
  ◌≡◌, refl, ap, ◌∙◌, String, Bool, true, false, ◌&&◌, Option, List, [], ◌∷◌, arith,
}
use mangasama.Base.{string_eq, nat_eq, All}
use mangasama.Base.Sort
use mangasama.Base.Sort.{sort}
use mangasama.Merger.{MetadataRecord, record_leb}
use mangasama.Merger.Merge.{merge, merge_ordered}

record_leb_trans :
    (a b c : MetadataRecord) → record_leb a b ≡ true → record_leb b c ≡ true → record_leb a c ≡ true
unfolding record_leb
record_leb_trans a b c h k = ground arith

record_leb_total : (a b : MetadataRecord) → record_leb a b ≡ false → record_leb b a ≡ true
unfolding record_leb
record_leb_total a b h = ground arith

All-permuted {ℓ κ} :
    {A : Type ℓ} (P : A → Type κ) {xs ys : List A} → Permᴰ xs ys → All P xs → All P ys
All-permuted P Permᴰ.nil h = tt
All-permuted P (Permᴰ.cons e p) h = (subst P e h.0, All-permuted P p h.1)
All-permuted P (Permᴰ.swap e e') h = (subst P e' h.1.0, (subst P e h.0, h.1.1))
All-permuted P (Permᴰ.trans p q) h = All-permuted P q (All-permuted P p h)

module _ {ℓ} {A : Type ℓ} (le : A → A → Bool) where
  -- The sort tells the two apart.
  abbrev pub Differ : A → A → Type 0
  Differ a b = (le a b && le b a) ≡ false

  abbrev pub AllDiffer : List A → Type 0
  AllDiffer [] = Unit
  AllDiffer (x ∷ xs) = All (Differ x) xs × AllDiffer xs

  module _ (trans : (a b c : A) → le a b ≡ true → le b c ≡ true → le a c ≡ true)
      (total : (a b : A) → le a b ≡ false → le b a ≡ true) where
    insert_comm :
        (a b : A) (xs : List A)
        → Differ a b
        → Sort.insert le a (Sort.insert le b xs) ≡ Sort.insert le b (Sort.insert le a xs)
    unfolding Sort.insert
    insert_comm a b [] h = ground (arith, total a b)
    insert_comm a b (x ∷ xs) h =
        ground (arith, insert_comm a b xs h, trans a b x, trans b a x, total a b)

    Differ-symm : (a b : A) → Differ a b → Differ b a
    Differ-symm a b h = ground arith

    AllDiffer-permuted : {xs ys : List A} → Permᴰ xs ys → AllDiffer xs → AllDiffer ys
    AllDiffer-permuted Permᴰ.nil d = tt
    AllDiffer-permuted (Permᴰ.cons {l₂ = ys} e p) d =
        (subst (λ x. All (Differ x) ys) e (All-permuted (Differ _) p d.0), AllDiffer-permuted p d.1)
    AllDiffer-permuted (Permᴰ.swap {a = a} {b = b} {a' = a'} {b' = b'} {l = l} e e') d =
        let both =
          subst (λ x. Differ x b') e' (subst (λ y. Differ b y) e (Differ-symm a b d.0.0)) in
        (
          (both, subst (λ x. All (Differ x) l) e' d.1.0),
          (subst (λ x. All (Differ x) l) e d.0.1, d.1.1),
        )
    AllDiffer-permuted (Permᴰ.trans p q) d = AllDiffer-permuted q (AllDiffer-permuted p d)

    sort-permuted : {xs ys : List A} → Permᴰ xs ys → AllDiffer xs → sort le xs ≡ sort le ys
    unfolding Sort.sort
    sort-permuted Permᴰ.nil d = refl
    sort-permuted (Permᴰ.cons e p) d =
        let q = sort-permuted p d.1 in λ i. Sort.insert le (e i) (q i)
    sort-permuted (Permᴰ.swap {a = a} {b = b} {l = l} e e') d =
        insert_comm a b (sort le l) d.0.0 ∙ λ i.
        Sort.insert le (e' i) (Sort.insert le (e i) (sort le l))
    sort-permuted (Permᴰ.trans p q) d = sort-permuted p d ∙ sort-permuted q (AllDiffer-permuted p d)

String-set : IsSet String
String-set = hedberg string_eq.dec

records_set : IsSet (List MetadataRecord)
records_set = hlevel (String-set)

-- If no two records have both the same confidence and the same rank of their provider, then the
-- merge does not depend on the order in which the records come.
pub merge-perm :
    (rs rs' : List MetadataRecord) (preferred_cover : Option String)
    → AllDiffer record_leb rs
    → Perm rs rs'
    → merge rs preferred_cover ≡ merge rs' preferred_cover
unfolding merge
merge-perm rs rs' p differ perm = ap (merge_ordered p) (
    ∥∥₁_elim perm (records_set (sort record_leb rs) (sort record_leb rs'))
      (λ d. sort-permuted record_leb record_leb_trans record_leb_total d differ))
