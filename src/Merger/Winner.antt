-- ===== src/Merger/Winner.antt =====
-- The vote on a field (app/metadata/merger.py).
use mangasama.Base.{
  ℕ, ◌+◌, ◌≤◌, ◌≡◌, refl, String, Bool, true, false, Option, none, some, List, [], ◌∷◌, arith, inl,
  inr,
}
use mangasama.Base.{
  if◌then◌else◌, ◌==◌, string_eq, option_eq, get_or, is_some, find_first, All, All-imp, Bool-cases,
  Option-cases,
}
use mathlib.Core.Path.{subst}
use mathlib.Core.Option.{some-injective, none-ne-some}
use mangasama.Base.Dict.{Dict, lookup, insert, keys, lookup-insert}
use mangasama.Merger.{MetadataRecord, winner}
use mangasama.Merger.Scalars.{max_from, max_by, given, add_weight, weigh, vote_less, vote_attr}

module _ {ℓ} {A : Type ℓ} (less : A → A → Bool) where
  pub max_from-All {κ} :
      (P : A → Type κ) (x : A) (ys : List A) → P x → All P ys → P (max_from less x ys)
  unfolding max_from
  max_from-All P x [] h k = h
  max_from-All P x (y ∷ ys) h k = elim (Bool-cases (less x y)) [
    | inl e ↦ rw e (max_from-All P y ys k.0 k.1)
    | inr e ↦ rw e (max_from-All P x ys h k.1)
  ]

  module _ (asym : (a b : A) → less a b ≡ true → less b a ≡ false)
      (trans : (a b c : A) → less a b ≡ false → less b c ≡ false → less a c ≡ false) where
    less_irrefl : (x : A) → less x x ≡ false
    less_irrefl x = elim (Bool-cases (less x x)) [ inl e ↦ asym x x e | inr e ↦ e ]

    -- No element is larger than the largest.
    pub max_from-greatest :
        (x : A) (ys : List A) → All (λ y. less (max_from less x ys) y ≡ false) (x ∷ ys)
    unfolding max_from
    max_from-greatest x [] = (less_irrefl x, tt)
    max_from-greatest x (y ∷ ys) = elim (Bool-cases (less x y)) [
      | inl e ↦
          let h = max_from-greatest y ys in
          subst (λ m. All (λ z. less m z ≡ false) (x ∷ y ∷ ys)) (rw e refl)
            (trans (max_from less y ys) y x h.0 (asym x y e), (h.0, h.1))
      | inr e ↦
          let h = max_from-greatest x ys in
          subst (λ m. All (λ z. less m z ≡ false) (x ∷ y ∷ ys)) (rw e refl)
            (h.0, (trans (max_from less x ys) x y h.0 e, h.1))
    ]

keys-All {ℓ} :
    (P : String → Type ℓ) (d : Dict String ℕ) (w : String) {n : ℕ}
    → All P (keys d)
    → lookup w d ≡ some n
    → P w
unfolding keys lookup
keys-All P [] w h k = cc
keys-All P ((v, m) ∷ d) w h k = elim (Bool-cases (w == v)) [
  | inl e ↦ let same : v ≡ w = ground arith in subst P same h.0
  | inr e ↦ keys-All P d w h.1 (rw e at k)
]

insert-keys_All {ℓ} :
    (P : String → Type ℓ) (d : Dict String ℕ) (w : String) (n : ℕ)
    → P w
    → All P (keys d)
    → All P (keys (insert w n d))
unfolding keys insert
insert-keys_All P [] w n h k = (h, tt)
insert-keys_All P ((v, m) ∷ d) w n h k = elim (Bool-cases (w == v)) [
  | inl e ↦ rw e (h, k.1)
  | inr e ↦ rw e (k.0, insert-keys_All P d w n h k.1)
]

module _ (getter : MetadataRecord → Option String) where
  -- What the records that give `w` weigh together.
  unfoldable pub support : List MetadataRecord → String → ℕ
  support [] w = 0
  support (r ∷ rs) w =
      let rest = support rs w in if given (getter r) == some w then r.confidence + rest else rest

  add_weight-lookup :
      (o : Option String) (n : ℕ) (d : Dict String ℕ) (w : String)
      → get_or (lookup w (add_weight getter o n d)) 0
        ≡ (if o == some w then n + get_or (lookup w d) 0 else get_or (lookup w d) 0)
  unfolding option_eq
  add_weight-lookup none n d w = ground arith
  add_weight-lookup (some v) n d w = ground (arith, lookup-insert w v (get_or (lookup v d) 0 + n) d)

  weigh-lookup :
      (rs : List MetadataRecord) (d : Dict String ℕ) (w : String)
      → get_or (lookup w (weigh getter rs d)) 0 ≡ get_or (lookup w d) 0 + support rs w
  unfolding weigh support
  weigh-lookup [] d w = omega arith
  weigh-lookup (r ∷ rs) d w = ground (
    arith,
    weigh-lookup rs (add_weight getter (given (getter r)) r.confidence d) w,
    add_weight-lookup (given (getter r)) r.confidence d w,
  )

  -- What holds of every value that a record gives holds of every value that has a weight.
  weigh-keys_All {ℓ} :
      (P : String → Type ℓ) (rs : List MetadataRecord) (d : Dict String ℕ)
      → All (λ r. (w : String) → given (getter r) ≡ some w → P w) rs
      → All P (keys d)
      → All P (keys (weigh getter rs d))
  unfolding weigh
  weigh-keys_All P [] d h k = k
  weigh-keys_All P (r ∷ rs) d (h, hs) k = elim (Option-cases (given (getter r))) [
    | inl e ↦ rw e (weigh-keys_All P rs d hs k)
    | inr (w, e) ↦ rw e (
        weigh-keys_All P rs (insert w (get_or (lookup w d) 0 + r.confidence) d) hs
          (insert-keys_All P d w (get_or (lookup w d) 0 + r.confidence) (h w e) k))
  ]

  given-some : (o : Option String) (w : String) → given o ≡ some w → (o == some w) ≡ true
  unfolding given option_eq
  given-some none w h = cc
  given-some (some v) w h = ground arith

  -- A value that some record gives has a first record that gives it.
  abbrev HasGiver : List MetadataRecord → String → Type 0
  HasGiver rs w = is_some (find_first (λ r. getter r == some w) rs) ≡ true

  all_have_givers :
      (rs : List MetadataRecord)
      → All (λ r. (w : String) → given (getter r) ≡ some w → HasGiver rs w) rs
  all_have_givers [] = tt
  all_have_givers (r ∷ rs) = (
    λ w h. ground (arith, given-some (getter r) w h),
    All-imp _ _ rs (λ q k w h. ground (arith, k w h)) (all_have_givers rs),
  )

  vote_less_asym :
      (rs : List MetadataRecord) (d : Dict String ℕ) (v w : String)
      → vote_less getter rs d v w ≡ true
      → vote_less getter rs d w v ≡ false
  unfolding vote_less
  vote_less_asym rs d v w h = ground arith

  vote_less_trans :
      (rs : List MetadataRecord) (d : Dict String ℕ) (u v w : String)
      → vote_less getter rs d u v ≡ false
      → vote_less getter rs d v w ≡ false
      → vote_less getter rs d u w ≡ false
  unfolding vote_less
  vote_less_trans rs d u v w h k = ground arith

  top_value :
      (rs : List MetadataRecord) (d : Dict String ℕ) (ks : List String) (v : String)
      → max_by (vote_less getter rs d) ks ≡ some v
      → All (HasGiver rs) ks
      → All (λ w. vote_less getter rs d v w ≡ false) ks × HasGiver rs v
  unfolding max_by
  top_value rs d [] v h g = cc
  top_value rs d (k ∷ ks) v h g =
      subst (λ m. All (λ w. vote_less getter rs d m w ≡ false) (k ∷ ks) × HasGiver rs m)
        (some-injective _ _ h)
        (
          max_from-greatest (vote_less getter rs d) (vote_less_asym rs d) (vote_less_trans rs d) k
              ks,
          max_from-All (vote_less getter rs d) (HasGiver rs) k ks g.0 g.1,
        )

  weight_le :
      (rs : List MetadataRecord) (d : Dict String ℕ) (v w : String)
      → All (λ u. vote_less getter rs d v u ≡ false) (keys d)
      → get_or (lookup w d) 0 ≤ get_or (lookup v d) 0
  unfolding vote_less
  weight_le rs d v w h = elim (Option-cases (lookup w d)) [
    | inl e ↦ rw e (omega arith)
    | inr (n, e) ↦ ground (arith, keys-All (λ u. vote_less getter rs d v u ≡ false) d w h e)
  ]

  weight_of :
      (rs : List MetadataRecord) (w : String)
      → get_or (lookup w (weigh getter rs [])) 0 ≡ support rs w
  unfolding lookup
  weight_of rs w = ground (arith, weigh-lookup rs [] w)

  -- The value that wins a vote on a field has at least the weight of every other value, where a
  -- value weighs the confidences of the records that give it; and the vote is attributed to the
  -- provider of the first record that gives the value.
  pub vote_attr-top :
      (rs : List MetadataRecord) (v : String) (p : Option String)
      → vote_attr getter rs ≡ some (v, p)
      → ((w : String) → support rs w ≤ support rs v)
        × (is_some p ≡ true)
        × (p ≡ winner (λ r. getter r == some v) rs)
  unfolding vote_attr winner keys
  vote_attr-top rs v p h =
      let d = weigh getter rs [] in
      elim (Option-cases (max_by (vote_less getter rs d) (keys d))) [
        | inl e ↦ absurd (none-ne-some _ (rw (e, vote_attr) at h))
        | inr (u, e) ↦
            let (greatest, giver) =
              top_value rs d (keys d) u e
                (weigh-keys_All (HasGiver rs) rs [] (all_have_givers rs) tt) in
            subst
              (λ x.
                ((w : String) → support rs w ≤ support rs x.0)
                × (is_some x.1 ≡ true)
                × (x.1 ≡ winner (λ r. getter r == some x.0) rs))
              (some-injective _ _ (rw (e, vote_attr) at h))
              (
                λ w. omega (arith, weight_le rs d u w greatest, weight_of rs w, weight_of rs u),
                ground (arith, giver),
                refl,
              )
      ]
