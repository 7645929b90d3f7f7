-- ===== src/Models/Query.antt =====
-- How a session reads and writes a table: `scalar_one_or_none`, the update of the rows that a
-- condition names, and the next generated key.
use mangasama.Base.{
  ℕ, ◌+◌, ◌≤◌, ◌<◌, ◌≡◌, refl, ap, ◌∙◌, inl, inr, map, ◌++◌, Bool-cases, Bool, true, false, ◌&&◌,
  ◌==◌, nat_eq, arith,
}
use mangasama.Base.{Option, none, some, List, [], ◌∷◌}
use mangasama.Base.{if◌then◌else◌, leb, filterb, filterb-All, All, All-imp}
use mangasama.Errors.{Result, ok, err, raised, multiple_results_found}

module _ {ℓ} {A : Type ℓ} where
  one_of : List A → Result (Option A)
  one_of [] = ok none
  one_of (x ∷ []) = ok (some x)
  one_of (x ∷ y ∷ rows) = err (raised multiple_results_found)

  -- `(await session.execute(select(A).where(p))).scalar_one_or_none()`
  unfoldable pub one_or_none : (A → Bool) → List A → Result (Option A)
  unfolding one_of
  one_or_none p rows = one_of (filterb p rows)

  -- The attributes of the rows that `p` names are set.
  unfoldable pub update_where : (A → Bool) → (A → A) → List A → List A
  update_where p f [] = []
  update_where p f (x ∷ rows) = (if p x then f x else x) ∷ update_where p f rows

  unfoldable pub max_of : (A → ℕ) → List A → ℕ
  max_of key [] = 0
  max_of key (x ∷ rows) = let m = max_of key rows in if leb m (key x) then key x else m

  unfoldable pub fresh : (A → ℕ) → List A → ℕ
  unfolding max_of
  fresh key rows = max_of key rows + 1

  one_of-head : (rows : List A) (x : A) → one_of rows ≡ ok (some x) → rows ≡ x ∷ []
  unfolding one_of
  one_of-head [] x h = cc
  one_of-head (y ∷ []) x h = cc
  one_of-head (y ∷ z ∷ rows) x h = cc

  -- A row that is found satisfies the condition.
  pub one_or_none-holds :
      (p : A → Bool) (rows : List A) (x : A) → one_or_none p rows ≡ ok (some x) → p x ≡ true
  unfolding one_or_none
  one_or_none-holds p rows x h = (rw (one_of-head (filterb p rows) x h) at (filterb-All p rows)).0

  max_of-All : (key : A → ℕ) (rows : List A) → All (λ x. key x ≤ max_of key rows) rows
  unfolding max_of
  max_of-All key [] = tt
  max_of-All key (x ∷ rows) = (
    ground arith,
    All-imp (λ y. key y ≤ max_of key rows) _ rows (λ y h. ground arith) (max_of-All key rows),
  )

  -- A generated key is larger than every key of the table.
  pub fresh_above : (key : A → ℕ) (rows : List A) → All (λ x. key x < fresh key rows) rows
  unfolding fresh
  fresh_above key rows =
      All-imp (λ y. key y ≤ max_of key rows) _ rows (λ y h. omega arith) (max_of-All key rows)

  filterb-append_one :
      (p : A → Bool) (rows : List A) (x : A)
      → p x ≡ true
      → filterb p (rows ++ (x ∷ [])) ≡ filterb p rows ++ (x ∷ [])
  filterb-append_one p [] x h = rw h refl
  filterb-append_one p (y ∷ rows) x h = ground (arith, filterb-append_one p rows x h)

  one_of-none : (rows : List A) → one_of rows ≡ ok none → rows ≡ []
  unfolding one_of
  one_of-none [] h = refl
  one_of-none (y ∷ []) h = cc
  one_of-none (y ∷ z ∷ rows) h = cc

  -- The first row that a condition names is found.
  pub one_or_none-append :
      (p : A → Bool) (rows : List A) (x : A)
      → p x ≡ true
      → one_or_none p rows ≡ ok none
      → one_or_none p (rows ++ (x ∷ [])) ≡ ok (some x)
  unfolding one_or_none one_of
  one_or_none-append p rows x h k =
      ap one_of
        (filterb-append_one p rows x h ∙ ap (λ r. r ++ (x ∷ [])) (one_of-none (filterb p rows) k))

  filterb-update_where :
      (p : A → Bool) (f : A → A) (rows : List A)
      → ((x : A) → p x ≡ true → p (f x) ≡ true)
      → filterb p (update_where p f rows) ≡ map f (filterb p rows)
  unfolding update_where
  filterb-update_where p f [] h = refl
  filterb-update_where p f (x ∷ rows) h = elim (Bool-cases (p x)) [
    | inl e ↦ rw (e, h x e) (ap (λ r. f x ∷ r) (filterb-update_where p f rows h))
    | inr e ↦ rw e (rw e (filterb-update_where p f rows h))
  ]

  -- A row that is updated is found again, as updated.
  pub one_or_none-update :
      (p : A → Bool) (f : A → A) (rows : List A) (x : A)
      → ((y : A) → p y ≡ true → p (f y) ≡ true)
      → one_or_none p rows ≡ ok (some x)
      → one_or_none p (update_where p f rows) ≡ ok (some (f x))
  unfolding one_or_none one_of
  one_or_none-update p f rows x h k =
      ap one_of (filterb-update_where p f rows h ∙ ap (map f) (one_of-head (filterb p rows) x k))

  filterb-skip :
      (p : A → Bool) (rows : List A) (x : A)
      → p x ≡ false
      → filterb p (rows ++ (x ∷ [])) ≡ filterb p rows
  filterb-skip p [] x h = rw h refl
  filterb-skip p (y ∷ rows) x h = ground (arith, filterb-skip p rows x h)

  -- A further row that the condition does not name changes nothing.
  pub one_or_none-skip :
      (p : A → Bool) (rows : List A) (x : A)
      → p x ≡ false
      → one_or_none p (rows ++ (x ∷ [])) ≡ one_or_none p rows
  unfolding one_or_none
  one_or_none-skip p rows x h = ap one_of (filterb-skip p rows x h)

  filterb-apart :
      (p q : A → Bool) (f : A → A) (rows : List A)
      → ((x : A) → q x ≡ true → p x ≡ false)
      → ((x : A) → q x ≡ true → p (f x) ≡ false)
      → filterb p (update_where q f rows) ≡ filterb p rows
  unfolding update_where
  filterb-apart p q f [] h k = refl
  filterb-apart p q f (x ∷ rows) h k = ground (arith, h x, k x, filterb-apart p q f rows h k)

  -- Nor does a change of other rows that leaves them other.
  pub one_or_none-apart :
      (p q : A → Bool) (f : A → A) (rows : List A)
      → ((x : A) → q x ≡ true → p x ≡ false)
      → ((x : A) → q x ≡ true → p (f x) ≡ false)
      → one_or_none p (update_where q f rows) ≡ one_or_none p rows
  unfolding one_or_none
  one_or_none-apart p q f rows h k = ap one_of (filterb-apart p q f rows h k)

  filterb-none : (p : A → Bool) (rows : List A) → All (λ x. p x ≡ false) rows → filterb p rows ≡ []
  filterb-none p [] h = refl
  filterb-none p (x ∷ rows) h = rw h.0 (filterb-none p rows h.1)

  larger_key :
      (key : A → ℕ) (rows : List A) (x : A)
      → key x < fresh key rows
      → (key x == fresh key rows) ≡ false
  larger_key key rows x h = ground arith

  -- No row has a generated key yet.
  pub one_or_none-fresh :
      (key : A → ℕ) (rows : List A) → one_or_none (λ x. key x == fresh key rows) rows ≡ ok none
  unfolding one_or_none one_of
  one_or_none-fresh key rows = ap one_of (
      filterb-none (λ x. key x == fresh key rows) rows
        (All-imp (λ x. key x < fresh key rows) _ rows (larger_key key rows) (fresh_above key rows)))

  filterb-update_same :
      (p q : A → Bool) (f : A → A) (rows : List A)
      → ((x : A) → p (f x) ≡ p x)
      → filterb p (update_where q f rows) ≡ update_where q f (filterb p rows)
  unfolding update_where
  filterb-update_same p q f [] h = refl
  filterb-update_same p q f (x ∷ rows) h = ground (arith, h x, filterb-update_same p q f rows h)

  -- An update that does not touch the condition leaves a row that is found to be found.
  pub one_or_none-update_same :
      (p q : A → Bool) (f : A → A) (rows : List A) (x : A)
      → ((y : A) → p (f y) ≡ p y)
      → one_or_none p rows ≡ ok (some x)
      → one_or_none p (update_where q f rows) ≡ ok (some (if q x then f x else x))
  unfolding one_or_none one_of update_where
  one_or_none-update_same p q f rows x h k =
      ap one_of (
        filterb-update_same p q f rows h ∙ ap (update_where q f) (one_of-head (filterb p rows) x k))

  update_gone :
      (p q : A → Bool) (f : A → A) (rows : List A)
      → ((x : A) → p x ≡ true → q x ≡ true)
      → ((x : A) → q x ≡ true → p (f x) ≡ false)
      → filterb p (update_where q f rows) ≡ []
  unfolding update_where
  update_gone p q f [] h k = refl
  update_gone p q f (x ∷ rows) h k = ground (arith, h x, k x, update_gone p q f rows h k)

  -- A row that is updated so that the condition fails is not found any more.
  pub one_or_none-removed :
      (p q : A → Bool) (f : A → A) (rows : List A)
      → ((x : A) → p x ≡ true → q x ≡ true)
      → ((x : A) → q x ≡ true → p (f x) ≡ false)
      → one_or_none p (update_where q f rows) ≡ ok none
  unfolding one_or_none one_of
  one_or_none-removed p q f rows h k = ap one_of (update_gone p q f rows h k)

  larger_key_and :
      (key : A → ℕ) (q : A → Bool) (rows : List A) (x : A)
      → key x < fresh key rows
      → (key x == fresh key rows && q x) ≡ false
  larger_key_and key q rows x h = ground arith

  -- The same under a further condition.
  pub one_or_none-fresh_and :
      (key : A → ℕ) (q : A → Bool) (rows : List A)
      → one_or_none (λ x. key x == fresh key rows && q x) rows ≡ ok none
  unfolding one_or_none one_of
  one_or_none-fresh_and key q rows = ap one_of (
      filterb-none (λ x. key x == fresh key rows && q x) rows
        (All-imp (λ x. key x < fresh key rows) _ rows (larger_key_and key q rows)
          (fresh_above key rows)))
