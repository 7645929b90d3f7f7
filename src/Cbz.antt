-- ===== src/Cbz.antt =====
-- app/services/cbz.py: the archive of a chapter. The re-encoding of an image, the ZIP format, SHA-256
-- and the serialisation of ComicInfo.xml are the parameters in `Codecs`; the folder, the temporary
-- file and its replacement only touch the disk, and the duration is left out.
pub mod Names
use mangasama.Base.{
  ℕ, suc, ◌+◌, String, Bool, true, false, Option, none, some, List, [], ◌∷◌, ◌++◌, map,
}
use mangasama.Base.{if◌then◌else◌, ltb, length}
use mangasama.Errors.{Result, ok, err, raised, ◌>>=◌, value_error}
use mangasama.Text.{Text, codes}
use mangasama.Text.Number.{show_nat, zfill}
use mangasama.ComicInfo.{ComicInfo, Document, build_xml}

pub record PageBlob : Type 0 where
  pub bytes : String
  pub index : ℕ
  pub width : Option ℕ
  pub height : Option ℕ

-- An entry of the archive; a page is stored as it is, ComicInfo.xml is deflated.
pub record Entry : Type 0 where
  pub name : Text
  pub stored : Bool
  pub content : String

pub record CbzResult : Type 0 where
  pub path : Text
  pub sha256 : String
  pub size_bytes : ℕ
  pub page_count : ℕ

pub record Codecs : Type 0 where
  pub convert_to_jpg : String → Result String
  pub render : Document → String
  pub zip : List Entry → String
  pub sha256_bytes : String → String
  pub size : String → ℕ

-- `max(3, len(str(n)))`
unfoldable pub pad_width : ℕ → ℕ
pad_width n = let w = length (show_nat n) in if ltb w 3 then 3 else w

-- `f"page{index + 1:0{pad}d}.jpg"`
unfoldable pub page_name : ℕ → ℕ → Text
page_name width index = codes "page" ++ (zfill width (show_nat (index + 1)) ++ codes ".jpg")

unfoldable pub page_entries : Codecs → ℕ → List PageBlob → Result (List Entry)
page_entries C width [] = ok []
page_entries C width (p ∷ pages) = do
  jpg ← C.convert_to_jpg p.bytes
  rest ← page_entries C width pages
  ok (record { name = page_name width p.index; stored = true; content = jpg } ∷ rest)

-- The entries of the archive, ComicInfo.xml first, with the count of the pages patched in.
unfoldable pub archive : Codecs → List PageBlob → ComicInfo → Result (List Entry)
archive C pages info = do
  entries ← page_entries C (pad_width (length pages)) pages
  ok (
      record {
        name = codes "ComicInfo.xml";
        stored = false;
        content = C.render (build_xml (record info { page_count = length pages }));
      }
      ∷ entries)

unfoldable pub build : Codecs → List PageBlob → ComicInfo → Text → Result CbzResult
build C [] info out_path = err (raised value_error)
build C (p ∷ pages) info out_path = do
  entries ← archive C (p ∷ pages) info
  ok (record {
    path = out_path;
    sha256 = C.sha256_bytes (C.zip entries);
    size_bytes = C.size (C.zip entries);
    page_count = length (p ∷ pages);
  })
