-- ===== src/Tests/Accounts.antt =====
-- The account of the first run.
use mangasama.Base.{◌≡◌, refl, Bool, true, false, Option, none, some, [], ◌∷◌, ◌++◌, ◌==◌}
use mangasama.Errors.{err, raised, setup_error}
use mangasama.Text.{codes, text_eq}
use mangasama.Setup.{Config, Crypto, write_admin, verify_basic_auth, username_pattern}
use mangasama.Setup.Account.{verify_basic_auth-write_admin}

abbrev pub crypto : Crypto
crypto = record {
  hash_password = λ p. p;
  checkpw = λ p h. p == h;
  b64decode = λ s. some (codes "admin" ++ (b':' ∷ codes "correct horse"));
}

abbrev pub configured : Config
configured = record {
  admin_file =
      some (some (record { username = codes "admin"; password_hash = codes "correct horse" }));
}

-- A newline at the end of a name is let through.
newline_allowed : username_pattern (codes "admin" ++ (10 ∷ [])) ≡ true
unfolding username_pattern mangasama.Setup.without_newline mangasama.Base.nat_eq
    mangasama.Setup.all_user_chars mangasama.Setup.is_user_char
newline_allowed = refl

verify_basic_auth-write_admin_example :
    (verify_basic_auth crypto (some (codes "Basic " ++ codes "YWRtaW4=")) configured ≡ true)
    × (write_admin crypto true (codes "other") (codes "long enough") configured
        ≡ err (raised setup_error))
unfolding write_admin text_eq mangasama.Setup.validate_username username_pattern
    mangasama.Setup.without_newline mangasama.Setup.all_user_chars mangasama.Setup.is_user_char
    mangasama.Setup.validate_password mangasama.Setup.is_setup_completed
verify_basic_auth-write_admin_example =
    verify_basic_auth-write_admin crypto true true (codes "admin") (codes "correct horse")
      (codes "other") (codes "long enough") (codes "YWRtaW4=") (record { admin_file = none }) refl
      refl refl refl
