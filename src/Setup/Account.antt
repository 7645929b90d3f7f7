-- ===== src/Setup/Account.antt =====
-- The account that the first run creates (app/core/setup_state.py).
use mangasama.Base.{ℕ, ◌≡◌, refl, ap, ◌∙◌, sym, Bool, true, false, not, some, [], ◌∷◌, ◌++◌, arith}
use mangasama.Base.{◌==◌, nat_eq, leb, length, Bool-cases, inl, inr, ◌⊎◌}
use mathlib.Core.Path.{subst}
use mangasama.Errors.{ok, err, raised, setup_error, >>=-eq-ok}
use mangasama.Text.{Text, codes, text_eq, lower, is_empty, before, after}
use mangasama.Setup.{
  Admin, Config, Crypto, is_setup_completed, is_user_char, all_user_chars, without_newline,
  username_pattern, require, validate_username, validate_password, read_admin, save, write_admin,
  check_credentials, check_decoded, check_header, verify_basic_auth,
}

-- A name of the pattern has no colon.
abbrev NoColon : Text → Type 0
NoColon u = (p : Text) → (before b':' (u ++ (b':' ∷ p)) ≡ u) × (after b':' (u ++ (b':' ∷ p)) ≡ p)

NoColon-cons : (c : ℕ) (u : Text) → (c == b':') ≡ false → NoColon u → NoColon (c ∷ u)
unfolding before after
NoColon-cons c u h n p = (rw h (ap (λ s. c ∷ s) (n p).0), rw h (n p).1)

user_char_colon : (c : ℕ) → is_user_char c ≡ true → (c == b':') ≡ false
unfolding is_user_char
user_char_colon c h = ground arith

NoColon-nil : NoColon []
unfolding before after nat_eq
NoColon-nil p = (refl, refl)

chars-NoColon : (u : Text) → all_user_chars (without_newline u) ≡ true → NoColon u
unfolding all_user_chars without_newline
chars-NoColon [] h = NoColon-nil
chars-NoColon (c ∷ []) h = elim (Bool-cases (c == 10)) [
  | inl e ↦ NoColon-cons c [] (ground arith) NoColon-nil
  | inr e ↦ let h' = rw e at h in NoColon-cons c [] (user_char_colon c (ground arith)) NoColon-nil
]
chars-NoColon (c ∷ d ∷ u) h =
    NoColon-cons c (d ∷ u) (user_char_colon c (ground arith)) (chars-NoColon (d ∷ u) (ground arith))

require-true : (b : Bool) {x : Unit} → require b ≡ ok x → b ≡ true
require-true true h = refl
require-true false h = cc

valid-NoColon : (u : Text) {x : Unit} → validate_username u ≡ ok x → NoColon u
unfolding validate_username username_pattern
valid-NoColon u h = let e = require-true _ h in chars-NoColon u (ground arith)

abbrev account : Crypto → Text → Text → Config
account K username password = record {
  admin_file =
      some (some (record { username = username; password_hash = K.hash_password password }));
}

save-account :
    (K : Crypto) (disk : Bool) (u p : Text) {c : Config}
    → save K disk u p ≡ ok c
    → c ≡ account K u p
save-account K false u p h = cc
save-account K true u p h = cc

check_credentials-own :
    (K : Crypto) (u p : Text)
    → NoColon u
    → K.checkpw p (K.hash_password p) ≡ true
    → check_credentials K
        (record { username = u; password_hash = K.hash_password p })
        (u ++ (b':' ∷ p))
      ≡ true
unfolding check_credentials
check_credentials-own K u p n h = rw ((n p).0, (n p).1) (ground (arith, h))

basic_header :
    (K : Crypto) (admin : Admin) (b64 decoded : Text)
    → is_empty b64 ≡ false
    → K.b64decode b64 ≡ some decoded
    → check_header K admin (codes "Basic " ++ b64) ≡ check_credentials K admin decoded
unfolding check_header before after nat_eq lower text_eq
basic_header K admin b64 decoded n d = rw n (ap (check_decoded K admin) d)

accepted :
    (K : Crypto) (u p b64 : Text)
    → NoColon u
    → K.checkpw p (K.hash_password p) ≡ true
    → K.b64decode b64 ≡ some (u ++ (b':' ∷ p))
    → is_empty b64 ≡ false
    → verify_basic_auth K (some (codes "Basic " ++ b64)) (account K u p) ≡ true
unfolding verify_basic_auth read_admin
accepted K u p b64 n own decoded nonempty =
    basic_header K _ b64 (u ++ (b':' ∷ p)) nonempty decoded ∙ check_credentials-own K u p n own

require-err : (b : Bool) → (require b ≡ ok tt) ⊎ (require b ≡ err (raised setup_error))
require-err true = inl refl
require-err false = inr refl

refused :
    (K : Crypto) (u p : Text) (disk : Bool) (v q : Text)
    → write_admin K disk v q (account K u p) ≡ err (raised setup_error)
unfolding write_admin validate_username validate_password is_setup_completed
refused K u p disk v q = elim (require-err (username_pattern v)) [
  | inl a ↦ elim (require-err (leb 8 (length q))) [
    | inl b ↦ rw a (rw b refl)
    | inr b ↦ rw a (rw b refl)
  ]
  | inr a ↦ rw a refl
]

-- If bcrypt accepts a password against its own hash and base64 decodes the text of the header,
-- which is not empty, to the name and the password, then the account that the first run creates
-- lets its own header in, and a later run with any name and password is refused.
pub verify_basic_auth-write_admin :
    (K : Crypto) (disk disk' : Bool) (u p v q b64 : Text) (c : Config) {c' : Config}
    → K.checkpw p (K.hash_password p) ≡ true
    → K.b64decode b64 ≡ some (u ++ (b':' ∷ p))
    → is_empty b64 ≡ false
    → write_admin K disk u p c ≡ ok c'
    → (verify_basic_auth K (some (codes "Basic " ++ b64)) c' ≡ true)
      × (write_admin K disk' v q c' ≡ err (raised setup_error))
unfolding write_admin
verify_basic_auth-write_admin K disk disk' u p v q b64 c {c'} own decoded nonempty h =
    let (_, valid, h₁) = >>=-eq-ok (validate_username u) _ h in
    let (_, _, h₂) = >>=-eq-ok (validate_password p) _ h₁ in
    let (_, _, h₃) = >>=-eq-ok (require (not (is_setup_completed c))) _ h₂ in
    subst
      (λ d.
        (verify_basic_auth K (some (codes "Basic " ++ b64)) d ≡ true)
        × (write_admin K disk' v q d ≡ err (raised setup_error)))
      (sym (save-account K disk u p h₃))
      (accepted K u p b64 (valid-NoColon u valid) own decoded nonempty, refused K u p disk' v q)
