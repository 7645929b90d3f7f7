-- ===== src/Base/Sort.antt =====
-- `list.sort(key=...)`: a stable sort, by a Boolean comparison `le` of the keys.
use mathlib.Core.List.{Perm}
use mathlib.Core.List.Perm
use mangasama.Base.Tests.{if◌then◌else◌, Bool-cases}
use mangasama.Base.Lists.{All, filterb, length}
use Prim.Native.Nat.{◌+◌}
use mathlib.Core.Path.{◌≡◌, refl}
use mathlib.Core.Logic.{inl, inr}
use mathlib.Core.Bool.{Bool, true, false}
use mathlib.Core.List.{List, [], ◌∷◌}
use native.Mathlib.Omega.{arith}

module _ {ℓ} {A : Type ℓ} (le : A → A → Bool) where
  -- In front of the first element that is not smaller: equal keys keep their order.
  unfoldable pub insert : A → List A → List A
  insert x [] = x ∷ []
  insert x (y ∷ ys) = let rest = insert x ys in if le x y then x ∷ y ∷ ys else y ∷ rest

  unfoldable pub sort : List A → List A
  unfolding insert
  sort [] = []
  sort (x ∷ xs) = insert x (sort xs)

  abbrev pub IsSorted : List A → Type ℓ
  IsSorted [] = Unit
  IsSorted (x ∷ xs) = All (λ y. le x y ≡ true) xs × IsSorted xs

  insert-perm : (x : A) (ys : List A) → Perm (insert x ys) (x ∷ ys)
  unfolding insert
  insert-perm x [] = Perm.refl (x ∷ [])
  insert-perm x (y ∷ ys) = elim (Bool-cases (le x y)) [
    | inl h ↦ rw h (Perm.refl _)
    | inr h ↦ rw h (Perm.trans (Perm.cons y (insert-perm x ys)) (Perm.swap x y ys))
  ]

  length-insert : (x : A) (ys : List A) → length (insert x ys) ≡ length ys + 1
  unfolding insert
  length-insert x [] = omega arith
  length-insert x (y ∷ ys) = ground (arith, length-insert x ys)

  pub length-sort : (xs : List A) → length (sort xs) ≡ length xs
  unfolding sort
  length-sort [] = refl
  length-sort (x ∷ xs) = omega (arith, length-insert x (sort xs), length-sort xs)

  pub sort-perm : (xs : List A) → Perm (sort xs) xs
  unfolding sort
  sort-perm [] = Perm.refl []
  sort-perm (x ∷ xs) = Perm.trans (insert-perm x (sort xs)) (Perm.cons x (sort-perm xs))

  module _ {κ} (P : A → Type κ) where
    insert-All : (x : A) (ys : List A) → P x → All P ys → All P (insert x ys)
    unfolding insert
    insert-All x [] h k = (h, tt)
    insert-All x (y ∷ ys) h k = elim (Bool-cases (le x y)) [
      | inl e ↦ rw e (h, k)
      | inr e ↦ rw e (k.0, insert-All x ys h k.1)
    ]

    pub sort-All : (xs : List A) → All P xs → All P (sort xs)
    unfolding sort
    sort-All [] h = tt
    sort-All (x ∷ xs) h = insert-All x (sort xs) h.0 (sort-All xs h.1)

  -- A class of elements whose keys do not fall comes out in the order in which it came.
  module _ (p : A → Bool) (flat : (x y : A) → p x ≡ true → p y ≡ true → le x y ≡ true) where
    filterb-insert : (x : A) (ys : List A) → filterb p (insert x ys) ≡ filterb p (x ∷ ys)
    unfolding insert
    filterb-insert x [] = refl
    filterb-insert x (y ∷ ys) = ground (arith, flat x y, filterb-insert x ys)

    pub filterb-sort : (xs : List A) → filterb p (sort xs) ≡ filterb p xs
    unfolding sort
    filterb-sort [] = refl
    filterb-sort (x ∷ xs) = ground (arith, filterb-insert x (sort xs), filterb-sort xs)

  module _ (total : (x y : A) → le x y ≡ false → le y x ≡ true)
      (trans : (x y z : A) → le x y ≡ true → le y z ≡ true → le x z ≡ true) where
    All-le_trans :
        (x y : A) (zs : List A)
        → le x y ≡ true
        → All (λ z. le y z ≡ true) zs
        → All (λ z. le x z ≡ true) zs
    All-le_trans x y [] h k = tt
    All-le_trans x y (z ∷ zs) h k = (trans x y z h k.0, All-le_trans x y zs h k.1)

    insert-IsSorted : (x : A) (ys : List A) → IsSorted ys → IsSorted (insert x ys)
    unfolding insert
    insert-IsSorted x [] s = (tt, tt)
    insert-IsSorted x (y ∷ ys) s = elim (Bool-cases (le x y)) [
      | inl h ↦ rw h ((h, All-le_trans x y ys h s.0), s)
      | inr h ↦
          rw h (insert-All (λ z. le y z ≡ true) x ys (total x y h) s.0, insert-IsSorted x ys s.1)
    ]

    pub sort-IsSorted : (xs : List A) → IsSorted (sort xs)
    unfolding sort
    sort-IsSorted [] = tt
    sort-IsSorted (x ∷ xs) = insert-IsSorted x (sort xs) (sort-IsSorted xs)

  module _ {κ} (P : A → Type κ) where
    All-of_insert : (x : A) (ys : List A) → All P (insert x ys) → All P (x ∷ ys)
    unfolding insert
    All-of_insert x [] h = h
    All-of_insert x (y ∷ ys) h = elim (Bool-cases (le x y)) [
      | inl e ↦ rw e at h
      | inr e ↦
          let k : P y × All P (insert x ys) = rw e at h in
          let r = All-of_insert x ys k.1 in (r.0, (k.0, r.1))
    ]

    -- What holds of every element of the sorted list holds of every element.
    pub All-of_sort : (xs : List A) → All P (sort xs) → All P xs
    unfolding sort
    All-of_sort [] h = tt
    All-of_sort (x ∷ xs) h = let r = All-of_insert x (sort xs) h in (r.0, All-of_sort xs r.1)
