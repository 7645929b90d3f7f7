-- ===== src/ComicInfo.antt =====
-- app/services/comicinfo.py: the fields of a ComicInfo.xml and the document that is built of them.
-- A document is the list of its elements and its pages; the serialisation to bytes is a parameter
-- where it is needed. The attributes with the two namespaces are constants and left out.
pub mod Roles
use mangasama.Base.{
  ℕ, String, Bool, true, false, not, ◌&&◌, ◌||◌, Option, none, some, List, [], ◌∷◌, ◌++◌, map,
}
use mangasama.Base.{if◌then◌else◌, ◌==◌, nat_eq, filterb}
use mangasama.Base.Dict.{Dict, lookup}
use mangasama.Text.{Text, codes, text_eq, is_empty, join}
use mangasama.Text.Number.{show_nat}
use mangasama.Paths.{pad}

pub record ComicPageInfo : Type 0 where
  pub index : ℕ
  pub width : Option ℕ
  pub height : Option ℕ

pub record ComicInfo : Type 0 where
  pub title : Text
  pub series : Text
  pub number : Text
  pub volume : Option Text
  pub summary : Option Text
  pub language_iso : Text
  pub page_count : ℕ
  pub web : Option Text
  pub publisher : Option Text
  pub manga : Bool
  pub right_to_left : Bool
  pub authors : Dict Text (List Text)
  pub genres : List Text
  pub tags : List Text
  pub translator : Option Text
  pub story_arc : Option Text
  pub story_arc_number : Option Text
  pub pages : List ComicPageInfo

pub record Element : Type 0 where
  pub tag : Text
  pub text : Text

pub record Document : Type 0 where
  pub elements : List Element
  pub pages : List ComicPageInfo

abbrev pub element : Text → Text → List Element
element tag text = record { tag = tag; text = text } ∷ []

unfoldable pub set_if_present : Text → Option Text → List Element
set_if_present tag none = []
set_if_present tag (some value) = if is_empty value then [] else element tag value

abbrev joined : Text → List Text → List Element
joined tag [] = []
joined tag (i ∷ items) = element tag (join (codes ", ") (i ∷ items))

unfoldable pub set_list : Text → List Text → List Element
set_list tag items = joined tag (filterb (λ i. not (is_empty i)) items)

unfoldable pub manga_value : Bool → Bool → Text
manga_value false rtl = codes "No"
manga_value true true = codes "YesAndRightToLeft"
manga_value true false = codes "Yes"

-- `info.volume not in (None, "", "0")`
unfoldable pub real_volume : Option Text → Option Text
real_volume none = none
real_volume (some v) = if is_empty v || v == codes "0" then none else some v

-- A role as it stands in the document, and in lower case.
abbrev pub roles : List (Text × Text)
roles =
    (codes "Writer", codes "writer")
    ∷ (codes "Penciller", codes "penciller")
    ∷ (codes "Inker", codes "inker")
    ∷ (codes "Colorist", codes "colorist")
    ∷ (codes "Letterer", codes "letterer")
    ∷ (codes "CoverArtist", codes "coverartist")
    ∷ (codes "Editor", codes "editor")
    ∷ []

abbrev names_or : Option (List Text) → List Text → List Text
names_or none other = other
names_or (some []) other = other
names_or (some (n ∷ ns)) other = n ∷ ns

unfoldable pub role_elements : Dict Text (List Text) → List (Text × Text) → List Element
role_elements authors [] = []
role_elements authors ((role, small) ∷ rest) =
    set_list role (names_or (lookup small authors) (names_or (lookup role authors) []))
    ++ role_elements authors rest

abbrev pub page_count_text : ℕ → Option Text
page_count_text n = if n == 0 then none else some (show_nat n)

unfoldable pub build_xml : ComicInfo → Document
build_xml info = record {
  elements =
      set_if_present (codes "Title") (some info.title)
      ++ set_if_present (codes "Series") (some info.series)
      ++ set_if_present (codes "Number") (some info.number)
      ++ set_if_present (codes "Volume") (real_volume info.volume)
      ++ set_if_present (codes "Summary") info.summary
      ++ set_if_present (codes "LanguageISO") (some info.language_iso)
      ++ set_if_present (codes "PageCount") (page_count_text info.page_count)
      ++ set_if_present (codes "Web") info.web
      ++ set_if_present (codes "Publisher") info.publisher
      ++ set_if_present (codes "Manga") (some (manga_value info.manga info.right_to_left))
      ++ role_elements info.authors roles
      ++ set_list (codes "Genre") info.genres
      ++ set_list (codes "Tags") info.tags
      ++ set_if_present (codes "Translator") info.translator
      ++ set_if_present (codes "StoryArc") info.story_arc
      ++ set_if_present (codes "StoryArcNumber") info.story_arc_number;
  pages = info.pages;
}

abbrev arc_with : Option Text → Text → Text
arc_with none chapter = pad chapter
arc_with (some v) chapter = v ++ (b'.' ∷ pad chapter)

unfoldable pub story_arc_number : Option Text → Text → Text
story_arc_number volume chapter = arc_with (real_volume volume) chapter
