-- ===== src/Paths.antt =====
-- app/core/paths.py: the names of files and folders. Unicode normalisation (NFC) is
-- the parameter `nfc`: its tables are not the repository's. A path is a text with `/` between its
-- parts, and `ensure_dir` only touches the disk.
pub mod Safe
pub mod Reserved
pub mod Padding
use mangasama.Base.{
  ℕ, ◌+◌, String, Bool, true, false, ◌||◌, Option, none, some, List, [], ◌∷◌, ◌++◌,
}
use mangasama.Base.{◌==◌, nat_eq, contains, if◌then◌else◌, ltb, leb, length, take, map}
use mangasama.Text.{
  Text, codes, text_eq, is_space, strip, strip_by, rstrip_by, upper, before, after,
}
use mangasama.Text.{is_empty, join}
use mangasama.Text.Number.{Integer, py_int, format_03d}

-- `_UNSAFE_RE`
unfoldable pub is_unsafe : ℕ → Bool
unfolding nat_eq
is_unsafe c =
    c == 92
    || c == b'/'
    || c == b':'
    || c == b'*'
    || c == b'?'
    || c == 34
    || c == b'<'
    || c == b'>'
    || c == b'|'
    || ltb c 32

-- `_WIN_RESERVED`
abbrev pub win_reserved : List Text
win_reserved =
    codes "CON"
    ∷ codes "PRN"
    ∷ codes "AUX"
    ∷ codes "NUL"
    ∷ codes "COM1"
    ∷ codes "COM2"
    ∷ codes "COM3"
    ∷ codes "COM4"
    ∷ codes "COM5"
    ∷ codes "COM6"
    ∷ codes "COM7"
    ∷ codes "COM8"
    ∷ codes "COM9"
    ∷ codes "LPT1"
    ∷ codes "LPT2"
    ∷ codes "LPT3"
    ∷ codes "LPT4"
    ∷ codes "LPT5"
    ∷ codes "LPT6"
    ∷ codes "LPT7"
    ∷ codes "LPT8"
    ∷ codes "LPT9"
    ∷ []

-- `_UNSAFE_RE.sub("_", s)`
unfoldable pub replace_unsafe : Text → Text
unfolding is_unsafe
replace_unsafe s = map (λ c. if is_unsafe c then b'_' else c) s

-- A run of characters that `p` names becomes one `by`: `_WHITESPACE_RE.sub(" ", s)`, and, since a
-- single dot stays a dot, `_DOTS_RE.sub(".", s)`.
module _ (p : ℕ → Bool) (by : ℕ) where
  unfoldable pub squeeze : Bool → Text → Text
  squeeze inside [] = []
  squeeze inside (c ∷ s) =
      let rest = squeeze (p c) s in if p c then (if inside then rest else by ∷ rest) else c ∷ rest

unfoldable pub is_dot : ℕ → Bool
unfolding nat_eq
is_dot c = c == b'.'

-- The characters of `strip(" ._")`.
unfoldable pub is_edge : ℕ → Bool
unfolding nat_eq
is_edge c = c == b' ' || c == b'.' || c == b'_'

unfoldable pub is_reserved : Text → Bool
unfolding upper before nat_eq text_eq
is_reserved s = contains win_reserved (upper s) || contains win_reserved (upper (before b'.' s))

abbrev or_untitled : Text → Text
or_untitled [] = codes "untitled"
or_untitled (c ∷ s) = c ∷ s

-- Everything before the test for an empty name.
unfoldable pub collapse : (Text → Text) → Text → Text
unfolding strip replace_unsafe squeeze is_dot is_space
collapse nfc name =
    squeeze is_dot b'.' false (squeeze is_space b' ' false (replace_unsafe (strip (nfc name))))

unfoldable pub clean : (Text → Text) → Text → Text
clean nfc name = strip_by is_edge (collapse nfc name)

unfoldable pub truncate : ℕ → Text → Text
truncate max_length s =
    if ltb max_length (length s) then rstrip_by is_edge (take max_length s) else s

abbrev pub avoid_reserved : Text → Text
avoid_reserved s = if is_reserved s then b'_' ∷ s else s

unfoldable pub finish : ℕ → Text → Text
finish max_length [] = codes "untitled"
finish max_length (c ∷ s) = or_untitled (truncate max_length (avoid_reserved (c ∷ s)))

unfoldable pub safe_filename : (Text → Text) → ℕ → Text → Text
unfolding clean collapse strip_by is_edge finish truncate is_reserved
safe_filename nfc max_length name =
    if is_empty name then codes "untitled" else finish max_length (clean nfc name)

-- The part of `_pad` after the test for an empty number, which `_pad_vol` and `_pad_ch` share.
unfoldable pub pad_number : Text → Text
pad_number s =
    if contains s b'.'
    then elim (py_int (before b'.' s)) [ none ↦ s | some n ↦ format_03d n ++ (b'.' ∷ after b'.' s) ]
    else elim (py_int s) [ none ↦ s | some n ↦ format_03d n ]

-- `_pad`
unfoldable pub pad : Text → Text
pad num = let s = strip num in if is_empty s then codes "000" else pad_number s

-- The parts of a chapter's name: the title of the chapter stands last, if there is one.
unfoldable pub with_title : (Text → Text) → Text → Text → Option Text → List Text
with_title nfc series chapter none = series ∷ chapter ∷ []
with_title nfc series chapter (some t) =
    if is_empty t then series ∷ chapter ∷ [] else series ∷ chapter ∷ safe_filename nfc 200 t ∷ []

unfoldable pub with_language : Text → Option Text → Text
with_language base none = base
with_language base (some l) = if is_empty l then base else base ++ (codes " (" ++ (l ++ codes ")"))

unfoldable pub chapter_filename : (Text → Text) → Text → Text → Option Text → Option Text → Text
chapter_filename nfc series_title chapter_number chapter_title language =
    let parts =
      with_title nfc (safe_filename nfc 200 series_title) (codes "ch" ++ pad chapter_number)
        chapter_title in
    with_language (join (codes " - ") parts) language ++ codes ".cbz"

unfoldable pub volume_folder_name : Text → Text
volume_folder_name volume_number =
    if is_empty volume_number then codes "Volume 000" else codes "Volume " ++ pad volume_number
