-- ===== src/Setup.antt =====
-- app/core/setup_state.py (the admin account) and app/core/auth.py. A file is missing, unreadable or
-- parsed; whether the disk can be written, bcrypt and base64 are parameters. The runtime settings
-- file is not modelled.
pub mod Account
use mangasama.Base.{
  ℕ, ◌+◌, String, Bool, true, false, not, ◌&&◌, ◌||◌, Option, none, some, List, [], ◌∷◌, ◌++◌,
}
use mangasama.Base.{if◌then◌else◌, ◌==◌, nat_eq, ltb, leb, length, is_some}
use mangasama.Errors.{Result, ok, err, raised, ◌>>=◌, setup_error, setup_state_error}
use mangasama.Text.{Text, codes, text_eq, lower, is_empty, before, after}

pub record Admin : Type 0 where
  pub username : Text
  pub password_hash : Text

-- `admin.json`: `none` if there is no file, `some none` if it cannot be read or parsed.
pub record Config : Type 0 where
  pub admin_file : Option (Option Admin)

pub record Crypto : Type 0 where
  pub hash_password : Text → Text
  pub checkpw : Text → Text → Bool
  pub b64decode : Text → Option Text

unfoldable pub is_setup_completed : Config → Bool
is_setup_completed c = is_some c.admin_file

-- `[a-zA-Z0-9_-]`
unfoldable pub is_user_char : ℕ → Bool
is_user_char c =
    (leb 97 c && leb c 122)
    || (leb 65 c && leb c 90)
    || (leb 48 c && leb c 57)
    || c == b'_'
    || c == b'-'

unfoldable pub all_user_chars : Text → Bool
all_user_chars [] = true
all_user_chars (c ∷ s) = is_user_char c && all_user_chars s

-- `$` matches before a newline at the end.
unfoldable pub without_newline : Text → Text
without_newline [] = []
without_newline (c ∷ []) = if c == 10 then [] else c ∷ []
without_newline (c ∷ d ∷ s) = c ∷ without_newline (d ∷ s)

-- `^[a-zA-Z0-9_-]{3,32}$`
unfoldable pub username_pattern : Text → Bool
username_pattern s =
    let t = without_newline s in leb 3 (length t) && leb (length t) 32 && all_user_chars t

abbrev pub require : Bool → Result (Unit {0})
require true = ok tt
require false = err (raised setup_error)

unfoldable pub validate_username : Text → Result (Unit {0})
validate_username username = require (username_pattern username)

unfoldable pub validate_password : Text → Result (Unit {0})
validate_password password = require (leb 8 (length password))

unfoldable pub read_admin : Config → Option Admin
read_admin c = elim c.admin_file [ none ↦ none | some a ↦ a ]

module _ (K : Crypto) where
  abbrev pub save : Bool → Text → Text → Result Config
  save false username password = err (raised setup_state_error)
  save true username password = ok (record {
    admin_file =
        some (some (record { username = username; password_hash = K.hash_password password }));
  })

  unfoldable pub write_admin : Bool → Text → Text → Config → Result Config
  write_admin disk_writable username password c = do
    u ← validate_username username
    p ← validate_password password
    free ← require (not (is_setup_completed c))
    save disk_writable username password

  -- The decoded credentials against the account.
  unfoldable pub check_credentials : Admin → Text → Bool
  check_credentials admin decoded =
      before b':' decoded == admin.username && K.checkpw (after b':' decoded) admin.password_hash

  abbrev pub check_decoded : Admin → Option Text → Bool
  check_decoded admin none = false
  check_decoded admin (some decoded) = check_credentials admin decoded

  unfoldable pub check_header : Admin → Text → Bool
  check_header admin header =
      let b64 = after b' ' header in
      if not (lower (before b' ' header) == codes "basic") || is_empty b64
      then false
      else check_decoded admin (K.b64decode b64)

  abbrev check_admin : Option Admin → Option Text → Bool
  check_admin none header = false
  check_admin (some admin) none = false
  check_admin (some admin) (some header) =
      if is_empty header then false else check_header admin header

  unfoldable pub verify_basic_auth : Option Text → Config → Bool
  verify_basic_auth header c = check_admin (read_admin c) header
