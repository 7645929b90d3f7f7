-- ===== src/Merger/Authors.antt =====
-- The fields of the merge that hold several values (app/metadata/merger.py).
use mangasama.Base.{String, ◌||◌, Option, none, some, List, [], ◌∷◌, ◌++◌, map}
use mangasama.Base.{
  if◌then◌else◌, ◌==◌, string_eq, option_eq, contains, filterb, get_or, anyb, find_first,
}
use mangasama.Base.Dict.{Dict, lookup, insert}
use mangasama.Text.{codes, Text, text_eq, is_empty}
use mangasama.Merger.{MetadataAuthor, MetadataRecord}

-- `for x in xs: if x and key(x) not in seen: seen.add(key(x)); out.append(x)`
module _ (key : Text → Text) where
  unfoldable pub add_new : List Text → List Text → List Text → List Text × List Text
  add_new [] seen out = (seen, out)
  add_new (t ∷ ts) seen out =
      if is_empty t || contains seen (key t)
      then add_new ts seen out
      else add_new ts (key t ∷ seen) (out ++ (t ∷ []))

  unfoldable pub add_records :
      (MetadataRecord → List Text)
      → List MetadataRecord
      → List Text
      → List Text
      → List Text × List Text
  add_records field [] seen out = (seen, out)
  add_records field (r ∷ rs) seen out =
      let (seen', out') = add_new (field r) seen out in add_records field rs seen' out'

-- An author that a record names, and the provider of the record.
abbrev pub Candidate : Type 0
Candidate = MetadataAuthor × String

abbrev pub anilist_authoritative_roles : List Text
anilist_authoritative_roles = codes "writer" ∷ codes "cover_artist" ∷ []

abbrev pub mangadex_authoritative_roles : List Text
mangadex_authoritative_roles = codes "letterer" ∷ codes "colorist" ∷ codes "translator" ∷ []

-- `by_role.setdefault(a.role, []).append((a, r))`
unfoldable pub group_authors :
    String → List MetadataAuthor → Dict Text (List Candidate) → Dict Text (List Candidate)
group_authors provider [] by_role = by_role
group_authors provider (a ∷ authors) by_role =
    group_authors provider authors
      (insert a.role (get_or (lookup a.role by_role) [] ++ ((a, provider) ∷ [])) by_role)

unfoldable pub group_by_role :
    List MetadataRecord → Dict Text (List Candidate) → Dict Text (List Candidate)
group_by_role [] by_role = by_role
group_by_role (r ∷ rs) by_role = group_by_role rs (group_authors r.provider r.authors by_role)

unfoldable pub priority_of : Text → List String
priority_of role =
    if contains anilist_authoritative_roles role
    then "anilist" ∷ "mangadex" ∷ "google_books" ∷ []
    else if contains mangadex_authoritative_roles role
    then "mangadex" ∷ "anilist" ∷ "google_books" ∷ []
    else "anilist" ∷ "mangadex" ∷ "google_books" ∷ []

unfoldable pub chosen_provider : Text → List Candidate → Option String
chosen_provider role candidates =
    find_first (λ p. anyb (λ c. c.1 == p) candidates) (priority_of role)

abbrev pub names_of : List Candidate → List Text
names_of candidates = map (λ c. c.0.name) candidates

-- The names that the chosen provider gives, or all if there are none.
abbrev pub names_from : Option String → List Candidate → List Text
names_from none candidates = names_of candidates
names_from (some p) candidates =
    let own = filterb (λ c. c.1 == p) candidates in
    elim own [ [] ↦ names_of candidates | c ∷ cs ↦ names_of (c ∷ cs) ]

-- `for n in names: if n not in seen: ...`
unfoldable pub distinct : List Text → List Text → List Text
distinct seen [] = []
distinct seen (n ∷ names) =
    if contains seen n then distinct seen names else n ∷ distinct (n ∷ seen) names

unfoldable pub authors_of_role : Text → List Candidate → List MetadataAuthor
authors_of_role role candidates =
    let chosen = chosen_provider role candidates in
    map (λ n. record { role = role; name = n; provider = chosen })
      (distinct [] (names_from chosen candidates))

unfoldable pub authors_of_roles : Dict Text (List Candidate) → List MetadataAuthor
authors_of_roles [] = []
authors_of_roles ((role, candidates) ∷ by_role) =
    authors_of_role role candidates ++ authors_of_roles by_role

unfoldable pub merge_authors : List MetadataRecord → List MetadataAuthor
merge_authors rs = authors_of_roles (group_by_role rs [])
