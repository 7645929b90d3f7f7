-- ===== src/FolderStrategy/PurePaths.antt =====
-- The paths that app/services/folder_strategy.py joins: Python's `PurePosixPath`, an anchor and the
-- parts below it, of which none is empty or a single dot.
use mangasama.Base.{ℕ, Bool, not, ◌||◌, List, [], ◌∷◌, ◌++◌}
use mangasama.Base.{◌==◌, nat_eq, if◌then◌else◌, filterb}
use mangasama.Text.{Text, codes, text_eq, is_empty, starts_with, join}

pub record PurePath : Type 0 where
  pub anchor : Text
  pub parts : List Text

abbrev pub prepend : ℕ → List Text → List Text
prepend c [] = (c ∷ []) ∷ []
prepend c (s ∷ ss) = (c ∷ s) ∷ ss

-- `s.split("/")`
unfoldable pub split_slashes : Text → List Text
split_slashes [] = [] ∷ []
split_slashes (c ∷ s) =
    let rest = split_slashes s in if c == b'/' then [] ∷ rest else prepend c rest

unfoldable pub is_part : Text → Bool
is_part s = not (is_empty s || s == codes ".")

unfoldable pub parts_of : Text → List Text
parts_of s = filterb is_part (split_slashes s)

-- Two slashes at the front, and no third, are an anchor of their own.
unfoldable pub anchor_of : Text → Text
anchor_of s =
    if starts_with s (codes "///")
    then codes "/"
    else if starts_with s (codes "//")
    then codes "//"
    else if starts_with s (codes "/")
    then codes "/"
    else []

-- `Path(s)`
unfoldable pub parse_path : Text → PurePath
parse_path s = record { anchor = anchor_of s; parts = parts_of s }

-- `p / name`: a name that begins with a slash replaces the path.
infixl 68 ◌/◌
unfoldable pub ◌/◌ : PurePath → Text → PurePath
p / name =
    if starts_with name (codes "/")
    then parse_path name
    else record p { parts = p.parts ++ parts_of name }

abbrev or_dot : Text → Text
or_dot [] = codes "."
or_dot (c ∷ s) = c ∷ s

-- `str(p)`
unfoldable pub show_path : PurePath → Text
show_path p = or_dot (p.anchor ++ join (codes "/") p.parts)
