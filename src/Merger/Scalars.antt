-- ===== src/Merger/Scalars.antt =====
-- The fields of the merge that hold one value (app/metadata/merger.py).
use mangasama.Base.{
  ℕ, ◌+◌, ◌-◌, ◌/◌, ◌%◌, String, Bool, true, false, not, ◌&&◌, ◌||◌, Option, none, some, List, [],
  ◌∷◌, map,
}
use mangasama.Base.{
  if◌then◌else◌, ◌==◌, string_eq, nat_eq, option_eq, ltb, leb, length, filterb, get_or, get_elem?,
}
use mangasama.Base.Dict.{Dict, lookup, insert, keys}
use mangasama.Base.Sort.{sort}
use mangasama.Text.{Text, text_eq, is_empty, strip}
use mangasama.Merger.{MetadataRecord, winner}

-- `max(xs, key=...)`, which keeps the first of several largest; `less x y` compares the keys.
module _ {ℓ} {A : Type ℓ} (less : A → A → Bool) where
  unfoldable pub max_from : A → List A → A
  max_from x [] = x
  max_from x (y ∷ ys) = max_from (if less x y then y else x) ys

  unfoldable pub max_by : List A → Option A
  max_by [] = none
  max_by (x ∷ xs) = some (max_from x xs)

-- `[v for v in values if v is not None]`
unfoldable pub present {ℓ} : {A : Type ℓ} → List (Option A) → List A
present [] = []
present (none ∷ vs) = present vs
present (some v ∷ vs) = v ∷ present vs

-- `max(texts, key=len)`
unfoldable pub longest : List Text → Option Text
longest texts = max_by (λ s t. ltb (length s) (length t)) texts

unfoldable pub longest_nonempty : List Text → Option Text
longest_nonempty values = longest (filterb (λ v. not (is_empty v)) (map strip values))

-- A field that is given and is not the empty string.
unfoldable pub given : Option String → Option String
given none = none
given (some v) = if v == "" then none else some v

-- `int(statistics.median(years))`, of at least one year.
unfoldable pub median : List ℕ → Option ℕ
median years =
    let sorted = sort leb years in
    let n = length years in
    let upper = get_or (get_elem? sorted (n / 2)) 0 in
    let lower = get_or (get_elem? sorted (n / 2 - 1)) 0 in
    if n == 0 then none else if n % 2 == 1 then some upper else some ((lower + upper) / 2)

module _ (getter : MetadataRecord → Option String) where
  -- `weighted[v] = weighted.get(v, 0.0) + r.confidence`
  abbrev pub add_weight : Option String → ℕ → Dict String ℕ → Dict String ℕ
  add_weight none confidence weighted = weighted
  add_weight (some v) confidence weighted =
      insert v (get_or (lookup v weighted) 0 + confidence) weighted

  unfoldable pub weigh : List MetadataRecord → Dict String ℕ → Dict String ℕ
  weigh [] weighted = weighted
  weigh (r ∷ rs) weighted = weigh rs (add_weight (given (getter r)) r.confidence weighted)

  unfoldable pub first_index : List MetadataRecord → String → ℕ
  first_index [] v = 0
  first_index (r ∷ rs) v = let rest = first_index rs v + 1 in if getter r == some v then 0 else rest

  -- `(weighted[v], -first_index(v)) < (weighted[w], -first_index(w))`
  unfoldable pub vote_less : List MetadataRecord → Dict String ℕ → String → String → Bool
  vote_less rs weighted v w =
      let a = get_or (lookup v weighted) 0 in
      let b = get_or (lookup w weighted) 0 in
      ltb a b || a == b && ltb (first_index rs w) (first_index rs v)

  unfoldable pub vote_attr : List MetadataRecord → Option (String × Option String)
  vote_attr rs =
      let weighted = weigh rs [] in
      elim (max_by (vote_less rs weighted) (keys weighted)) [
        | none ↦ none
        | some v ↦ some (v, winner (λ r. getter r == some v) rs)
      ]

-- The cover and the provider that gives it.
unfoldable pub cover_of : (MetadataRecord → Bool) → List MetadataRecord → Option (String × String)
cover_of p [] = none
cover_of p (r ∷ rs) =
    let rest = cover_of p rs in
    elim (given r.cover_url) [
      | none ↦ rest
      | some url ↦ if p r then some (url, r.provider) else rest
    ]

abbrev pub or_else {ℓ} : {A : Type ℓ} → Option A → Option A → Option A
or_else none d = d
or_else (some a) d = some a

abbrev preferred : Option String → MetadataRecord → Bool
preferred none r = false
preferred (some p) r = if p == "" then false else r.provider == p

unfoldable pub choose_cover : Option String → List MetadataRecord → Option (String × String)
choose_cover preferred_cover rs =
    or_else (cover_of (preferred preferred_cover) rs) (cover_of (λ r. true) rs)
