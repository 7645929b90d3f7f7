-- ===== src/Base/Dict.antt =====
-- Python's `dict`, in insertion order, as an association list with the operations the program uses.
use mathlib.Core.Path.{◌≡◌, refl}
use mathlib.Core.Logic.{◌≢◌}
use mathlib.Core.Option.{Option, none, some}
use mathlib.Core.List.{List, [], ◌∷◌}
use native.Mathlib.Omega.{arith}
use mathlib.Core.Path.{subst}
use mathlib.Core.Logic.{inl, inr}
use mathlib.Core.Option.{none-ne-some, some-injective}
use mangasama.Base.Tests.{if◌then◌else◌, Bool-cases}
use mangasama.Base.Lists.{All}
use mangasama.Base.Equality.{Eq, ◌==◌}

abbrev pub Dict {ℓ κ} : Type ℓ → Type κ → Type (ℓ ⊔ κ)
Dict K V = List (K × V)

module _ {ℓ κ} {K : Type ℓ} {V : Type κ} where
  unfoldable pub keys : Dict K V → List K
  keys [] = []
  keys ((k, v) ∷ d) = k ∷ keys d

  unfoldable pub values : Dict K V → List V
  values [] = []
  values ((k, v) ∷ d) = v ∷ values d

module _ {ℓ κ} {K : Type ℓ} {V : Type κ} ⦃e : Eq K⦄ where
  -- `d.get(k)`
  unfoldable pub lookup : K → Dict K V → Option V
  lookup k [] = none
  lookup k ((j, v) ∷ d) = if k == j then some v else lookup k d

  -- `d[k] = v`: an old key keeps its place.
  unfoldable pub insert : K → V → Dict K V → Dict K V
  insert k v [] = (k, v) ∷ []
  insert k v ((j, w) ∷ d) = if k == j then (k, v) ∷ d else (j, w) ∷ insert k v d

  pub lookup-insert :
      (j k : K) (v : V) (d : Dict K V)
      → lookup j (insert k v d) ≡ (if j == k then some v else lookup j d)
  unfolding insert lookup
  lookup-insert j k v [] = ground arith
  lookup-insert j k v (_ ∷ d) = ground (arith, lookup-insert j k v d)

  pub lookup-insert_self : (k : K) (v : V) (d : Dict K V) → lookup k (insert k v d) ≡ some v
  lookup-insert_self k v d = ground (arith, lookup-insert k k v d)

  pub lookup-insert_ne :
      (j k : K) (v : V) (d : Dict K V) → j ≢ k → lookup j (insert k v d) ≡ lookup j d
  lookup-insert_ne j k v d h = ground (arith, lookup-insert j k v d)

  abbrev pub NodupKeys : Dict K V → Type κ
  NodupKeys [] = Unit
  NodupKeys ((k, _) ∷ d) = (lookup k d ≡ none) × NodupKeys d

  pub insert-NodupKeys : (k : K) (v : V) (d : Dict K V) → NodupKeys d → NodupKeys (insert k v d)
  unfolding insert lookup
  insert-NodupKeys k v [] _ = (refl, tt)
  insert-NodupKeys k v ((j, _) ∷ d) (fresh, u) =
      ground (arith, insert-NodupKeys k v d u, lookup-insert j k v d)

-- What holds of every value of a dictionary holds of the one that is found.
pub lookup-All {ℓ κ μ} :
    {K : Type ℓ} {V : Type κ} ⦃e : Eq K⦄ (P : V → Type μ) (k : K) (d : Dict K V) {v : V}
    → All (λ x. P x.1) d
    → lookup k d ≡ some v
    → P v
unfolding lookup
lookup-All P k [] h found = absurd (none-ne-some _ found)
lookup-All ⦃e⦄ P k ((j, w) ∷ d) h found = elim (Bool-cases (k == j)) [
  | inl same ↦ subst P (some-injective _ _ (rw same at found)) h.0
  | inr other ↦ lookup-All P k d h.1 (rw other at found)
]
