-- ===== src/ComicInfo/Roles.antt =====
-- The roles of authors in the document of app/services/comicinfo.py.
use mangasama.Base.{◌≡◌, refl, Bool, false, List, [], ◌∷◌, arith}
use mangasama.Base.{◌==◌, nat_eq, anyb, ◌||◌}
use mangasama.Base.Dict.{Dict, insert, lookup-insert}
use mangasama.Text.{Text, text_eq}
use mangasama.ComicInfo.{ComicInfo, role_elements, roles, build_xml}

-- A name of a role that stands in the document.
abbrev pub is_role : Text → List (Text × Text) → Bool
is_role role rs = anyb (λ r. r.0 == role || r.1 == role) rs

role_elements-insert :
    (authors : Dict Text (List Text)) (role : Text) (people : List Text) (rs : List (Text × Text))
    → is_role role rs ≡ false
    → role_elements (insert role people authors) rs ≡ role_elements authors rs
unfolding role_elements
role_elements-insert authors role people [] h = refl
role_elements-insert authors role people ((r, small) ∷ rs) h = ground (
  arith,
  lookup-insert r role people authors,
  lookup-insert small role people authors,
  role_elements-insert authors role people rs,
)

-- Authors under any role but the seven of the document leave no trace in it.
pub build_xml_unknown_role :
    (info : ComicInfo) (role : Text) (people : List Text)
    → is_role role roles ≡ false
    → build_xml (record info { authors = insert role people info.authors }) ≡ build_xml info
unfolding build_xml
build_xml_unknown_role info role people h =
    rw (role_elements-insert info.authors role people roles h)
