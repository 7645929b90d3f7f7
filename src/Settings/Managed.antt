-- ===== src/Settings/Managed.antt =====
-- What the file of settings and a patch may change (app/core/setup_state.py,
-- app/services/settings_api.py).
use mangasama.Base.{
  ◌≡◌, refl, ap, ◌∙◌, sym, String, Bool, true, false, not, ◌&&◌, Option, none, some, List, [], ◌∷◌,
  arith, inl, inr,
}
use mangasama.Base.{
  ◌==◌, string_eq, contains, filterb, if◌then◌else◌, All, All-imp, Bool-cases, Option-cases,
}
use mathlib.Core.Path.{subst}
use mangasama.Base.Dict.{Dict, lookup, insert, keys, lookup-insert, NodupKeys}
use mangasama.Errors.{Result, ok, ok-injective}
use mangasama.Settings.{
  Value, SettingsFile, is_managed, only_managed, read_runtime_settings, write_runtime_settings,
  apply_one, apply_all, apply_runtime_settings, patchable, set_all, unless_bad, patch_settings,
}

module _ (accepts : String → Value → Bool) where
  -- The value of a key after the file is applied: the file's, if the key is managed, the settings
  -- have it and accept it.
  abbrev pub effective : String → Option Value → Option Value → Option Value
  effective k none old = old
  effective k (some v) none = none
  effective k (some v) (some old) = if is_managed k && accepts k v then some v else some old

  lookup-apply_self :
      (k : String) (v : Value) (settings : Dict String Value)
      → lookup k (apply_one accepts k v settings) ≡ effective k (some v) (lookup k settings)
  unfolding apply_one
  lookup-apply_self k v settings = elim (Option-cases (lookup k settings)) [
    | inl e ↦ ground (arith, e, lookup-insert k k v settings)
    | inr (w, e) ↦ ground (arith, e, lookup-insert k k v settings)
  ]

  lookup-apply_other :
      (k j : String) (v : Value) (settings : Dict String Value)
      → (k == j) ≡ false
      → lookup k (apply_one accepts j v settings) ≡ lookup k settings
  unfolding apply_one
  lookup-apply_other k j v settings h = ground (arith, h, lookup-insert k j v settings)

  lookup-apply_one :
      (k j : String) (v : Value) (settings : Dict String Value)
      → lookup k (apply_one accepts j v settings)
        ≡ (if k == j then effective k (some v) (lookup k settings) else lookup k settings)
  lookup-apply_one k j v settings = elim (Bool-cases (k == j)) [
    | inl e ↦
        let same : k ≡ j = ground arith in
        rw e (
          subst
            (λ i.
              lookup k (apply_one accepts i v settings) ≡ effective k (some v) (lookup k settings))
            same (lookup-apply_self k v settings))
    | inr e ↦ rw e (lookup-apply_other k j v settings e)
  ]

  lookup-apply_all :
      (k : String) (file settings : Dict String Value)
      → NodupKeys file
      → lookup k (apply_all accepts file settings) ≡ effective k (lookup k file) (lookup k settings)
  unfolding apply_all lookup
  lookup-apply_all k [] settings u = refl
  lookup-apply_all k ((j, v) ∷ file) settings (fresh, u) = elim (Bool-cases (k == j)) [
    | inl e ↦
        let same : k ≡ j = ground arith in
        let absent = subst (λ i. lookup i file ≡ none) (sym same) fresh in
        rw
          (
            lookup-apply_all k file (apply_one accepts j v settings) u,
            absent,
            lookup-apply_one k j v settings,
            e,
          )
          refl
    | inr e ↦
        rw
          (
            lookup-apply_all k file (apply_one accepts j v settings) u,
            lookup-apply_one k j v settings,
            e,
          )
          refl
  ]

apply_one-unmanaged :
    (accepts : String → Value → Bool) (k j : String) (v : Value) (settings : Dict String Value)
    → is_managed k ≡ false
    → lookup k (apply_one accepts j v settings) ≡ lookup k settings
unfolding apply_one
apply_one-unmanaged accepts k j v settings h = elim (Bool-cases (k == j)) [
  | inl e ↦
      let same : k ≡ j = ground arith in
      let out : is_managed j ≡ false = ap is_managed (sym same) ∙ h in apply_one_out j v out
  | inr e ↦ lookup-apply_other accepts k j v settings e
]
  where
    apply_one_out :
        (j : String) (v : Value)
        → is_managed j ≡ false
        → lookup k (apply_one accepts j v settings) ≡ lookup k settings
    apply_one_out j v out = rw out refl

lookup-apply_unmanaged :
    (accepts : String → Value → Bool) (k : String) (file settings : Dict String Value)
    → is_managed k ≡ false
    → lookup k (apply_all accepts file settings) ≡ lookup k settings
unfolding apply_all
lookup-apply_unmanaged accepts k [] settings h = refl
lookup-apply_unmanaged accepts k ((j, v) ∷ file) settings h =
    lookup-apply_unmanaged accepts k file (apply_one accepts j v settings) h
    ∙ apply_one-unmanaged accepts k j v settings h

lookup-filterb :
    (k : String) (p : String → Bool) (d : Dict String Value)
    → lookup k (filterb (λ x. p x.0) d) ≡ (if p k then lookup k d else none)
unfolding lookup
lookup-filterb k p [] = ground arith
lookup-filterb k p ((j, v) ∷ d) = elim (Bool-cases (k == j)) [
  | inl e ↦ let same : k ≡ j = ground arith in ground (arith, e, ap p same, lookup-filterb k p d)
  | inr e ↦ ground (arith, e, lookup-filterb k p d)
]

filterb-NodupKeys :
    (p : String → Bool) (d : Dict String Value) → NodupKeys d → NodupKeys (filterb (λ x. p x.0) d)
filterb-NodupKeys p [] u = tt
filterb-NodupKeys p ((j, v) ∷ d) (fresh, u) =
    ground (arith, lookup-filterb j p d, filterb-NodupKeys p d u, fresh)

effective_managed :
    (accepts : String → Value → Bool) (k : String) (o old : Option Value)
    → effective accepts k (if is_managed k then o else none) old ≡ effective accepts k o old
effective_managed accepts k none old = elim (Bool-cases (is_managed k)) [
  | inl e ↦ rw e refl
  | inr e ↦ rw e refl
]
effective_managed accepts k (some v) none = elim (Bool-cases (is_managed k)) [
  | inl e ↦ rw e refl
  | inr e ↦ rw e refl
]
effective_managed accepts k (some v) (some w) = ground arith

-- If settings without repeated keys are written to the file and the file is then applied to
-- settings, each key has afterwards the value that was written, if it is managed and the settings
-- have it and accept the value, and else the value that it had.
pub apply_runtime_settings-write :
    (accepts : String → Value → Bool) (writable : Bool) (saved settings : Dict String Value)
    {file : SettingsFile} (k : String)
    → NodupKeys saved
    → write_runtime_settings writable saved ≡ ok file
    → lookup k (apply_runtime_settings accepts file settings)
      ≡ effective accepts k (lookup k saved) (lookup k settings)
unfolding write_runtime_settings apply_runtime_settings read_runtime_settings only_managed
apply_runtime_settings-write accepts false saved settings k u h = cc
apply_runtime_settings-write accepts true saved settings {file} k u h =
    subst
      (λ f.
        lookup k (apply_all accepts (read_runtime_settings f) settings)
        ≡ effective accepts k (lookup k saved) (lookup k settings))
      (ok-injective _ file h)
      (lookup-apply_all accepts k (only_managed saved) settings
          (filterb-NodupKeys is_managed saved u)
        ∙ (rw (lookup-filterb k is_managed saved)
            (effective_managed accepts k (lookup k saved) (lookup k settings))))

-- A setting that is not managed is never written to the file of runtime settings, and whatever a
-- file holds, applying it leaves such a setting as it is.
pub apply_runtime_settings-unmanaged :
    (accepts : String → Value → Bool) (file : SettingsFile) (settings : Dict String Value)
    (saved : Dict String Value) {written : SettingsFile} (k : String)
    → is_managed k ≡ false
    → write_runtime_settings true saved ≡ ok written
    → (lookup k (apply_runtime_settings accepts file settings) ≡ lookup k settings)
      × (lookup k (read_runtime_settings written) ≡ none)
unfolding write_runtime_settings apply_runtime_settings read_runtime_settings only_managed
apply_runtime_settings-unmanaged accepts file settings saved {written} k h w = (
  lookup-apply_unmanaged accepts k (read_runtime_settings file) settings h,
  subst (λ f. lookup k (read_runtime_settings f) ≡ none) (ok-injective _ written w)
      (lookup-filterb k is_managed saved ∙ rw h refl),
)

lookup-set_all :
    (k : String) (patch : Dict String (Option Value)) (settings : Dict String Value)
    → All (λ j. (k == j) ≡ false) (keys patch)
    → lookup k (set_all patch settings) ≡ lookup k settings
unfolding set_all keys
lookup-set_all k [] settings h = refl
lookup-set_all k ((j, none) ∷ patch) settings h = lookup-set_all k patch settings h.1
lookup-set_all k ((j, some v) ∷ patch) settings h = ground (
  arith,
  h.0,
  lookup-set_all k patch settings h.1,
  lookup-set_all k patch (insert j v settings) h.1,
  lookup-insert k j v settings,
)

all_patchable :
    (ks : List String)
    → filterb (λ k. not (contains patchable k)) ks ≡ []
    → All (λ k. contains patchable k ≡ true) ks
all_patchable [] h = tt
all_patchable (k ∷ ks) h = elim (Bool-cases (contains patchable k)) [
  | inl e ↦ (e, all_patchable ks (rw e at h))
  | inr e ↦ let h' = rw e at h in cc
]

unless_bad-nil :
    (bad : List String) (r : Result (Dict String Value)) {s : Dict String Value}
    → unless_bad bad r ≡ ok s
    → (bad ≡ []) × (r ≡ ok s)
unless_bad-nil [] r h = (refl, h)
unless_bad-nil (k ∷ bad) r h = cc

-- A patch that is taken on names no setting but the log level and the rate limit, and changes no
-- other.
pub patch_settings-other :
    (patch : Dict String (Option Value)) (settings : Dict String Value)
    {settings' : Dict String Value}
    → patch_settings patch settings ≡ ok settings'
    → All (λ k. contains patchable k ≡ true) (keys patch)
      × ((k : String) → contains patchable k ≡ false → lookup k settings' ≡ lookup k settings)
unfolding patch_settings
patch_settings-other patch settings {settings'} h =
    let (no_bad, e) =
      unless_bad-nil (filterb (λ k. not (contains patchable k)) (keys patch))
        (ok (set_all patch settings)) h in
    let all = all_patchable (keys patch) no_bad in
    (
      all,
      λ k other.
          subst (λ s. lookup k s ≡ lookup k settings) (ok-injective _ settings' e)
            (lookup-set_all k patch settings
              (All-imp _ (λ j. (k == j) ≡ false) (keys patch) (λ j m. differs k j other m) all)),
    )
  where
    differs :
        (k j : String)
        → contains patchable k ≡ false
        → contains patchable j ≡ true
        → (k == j) ≡ false
    differs k j other m = elim (Bool-cases (k == j)) [
      | inl e ↦
          let same : k ≡ j = ground arith in
          let contradiction = sym (subst (λ i. contains patchable i ≡ true) (sym same) m) ∙ other in
          cc
      | inr e ↦ e
    ]
