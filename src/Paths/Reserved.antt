-- ===== src/Paths/Reserved.antt =====
-- Long names and the names that Windows reserves (`safe_filename` of app/core/paths.py).
use mangasama.Base.{
  ℕ, zero, suc, ◌+◌, ◌≤◌, ◌<◌, ◌≡◌, refl, ◌∙◌, true, false, [], ◌∷◌, ◌++◌, arith, ap,
}
use mangasama.Base.{lt→ltb, length, take}
use mangasama.Text.{Text, codes, rstrip_by}
use mangasama.Paths.{is_edge, is_reserved, clean, truncate, finish, safe_filename}

-- `"_" * k`
abbrev pub underscores : ℕ → Text
underscores zero = []
underscores (suc k) = b'_' ∷ underscores k

rstrip_underscores : (j : ℕ) → rstrip_by is_edge (underscores j) ≡ []
unfolding rstrip_by is_edge
rstrip_underscores zero = refl
rstrip_underscores (suc j) = ground (arith, rstrip_underscores j)

take-underscores : (j k : ℕ) (rest : Text) → j ≤ k → take j (underscores k ++ rest) ≡ underscores j
take-underscores zero k rest h = refl
take-underscores (suc j) zero rest h = absurd (omega arith)
take-underscores (suc j) (suc k) rest h =
    ap (λ s. b'_' ∷ s) (take-underscores j k rest (omega arith))

rstrip-con : (j : ℕ) → rstrip_by is_edge (codes "CON" ++ underscores j) ≡ codes "CON"
unfolding rstrip_by is_edge
rstrip-con j = ground (arith, rstrip_underscores j)

abbrev pub con_name : ℕ → Text → Text
con_name k rest = codes "CON" ++ (underscores k ++ rest)

truncate-con :
    (j k : ℕ) (rest : Text)
    → j ≤ k
    → 3 + j < length (con_name k rest)
    → truncate (3 + j) (con_name k rest) ≡ codes "CON"
unfolding truncate
truncate-con j k rest h l =
    let e : 3 + j ≡ suc (suc (suc j)) = omega arith in
    rw (lt→ltb _ _ l) (rw e (rw (take-underscores j k rest h) (rstrip-con j)))

finish-con :
    (j k : ℕ) (rest : Text)
    → is_reserved (con_name k rest) ≡ false
    → truncate (3 + j) (con_name k rest) ≡ codes "CON"
    → finish (3 + j) (con_name k rest) ≡ codes "CON"
unfolding finish
finish-con j k rest r t = rw r (rw t)

-- If "CON", k underscores and some rest is a name that the cleaning leaves as it is, that is not
-- reserved and that is longer than 3 + j with j at most k, then `safe_filename` with the limit 3 +
-- j cuts it back to "CON", which Windows reserves.
pub safe_filename_reserved :
    (nfc : Text → Text) (j k : ℕ) (rest : Text)
    → clean nfc (con_name k rest) ≡ con_name k rest
    → is_reserved (con_name k rest) ≡ false
    → j ≤ k
    → 3 + j < length (con_name k rest)
    → (safe_filename nfc (3 + j) (con_name k rest) ≡ codes "CON")
      × (is_reserved (codes "CON") ≡ true)
unfolding safe_filename
safe_filename_reserved nfc j k rest c r h l =
    (ap (finish (3 + j)) c ∙ finish-con j k rest r (truncate-con j k rest h l), refl)
