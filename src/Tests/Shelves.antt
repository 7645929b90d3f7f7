-- ===== src/Tests/Shelves.antt =====
-- The service of libraries.
use mangasama.Base.{
  ◌<◌, ℕ, ◌≡◌, refl, String, Bool, true, false, Option, none, some, List, [], ◌∷◌, All,
}
use mangasama.Errors.{ok, err, raised, library_not_found}
use mangasama.Text.{codes}
use mangasama.Models.{Library, Database}
use mangasama.Sources.{is_scraper_available}
use mangasama.Libraries.{
  LibraryCreate, LibraryUpdate, get_library, new_library, create_library, update_library,
  soft_delete_library,
}
use mangasama.Libraries.Rows.{
  IsAsAsked, get_library-create, get_library-update, get_library-soft_delete,
}
use mangasama.Tests.{library, policy, database}

abbrev payload : LibraryCreate
payload = record {
  name = "Manhwa";
  type = "manhwa";
  root_path = codes "/data/manhwa";
  folder_strategy = "chapter_flat";
  cover_strategy = "first_volume";
  providers = "mangaworld" ∷ [];
  italian_priority = false;
  follow_interval_hours = 12;
  jpg_quality = 90;
}

abbrev created : Library
created = new_library payload database

abbrev with_created : Database
with_created = record database { libraries = library ∷ created ∷ [] }

get_library-create_example :
    (get_library false 2 with_created ≡ ok created)
    × All (λ m. m.id < created.id) database.libraries
    × IsAsAsked payload created
    × All (λ name. is_scraper_available policy name ≡ true) created.providers
unfolding create_library mangasama.Libraries.validate_providers is_scraper_available
    mangasama.Sources.has mangasama.Base.Dict.lookup mangasama.Base.string_eq
    mangasama.Sources.is_source_enabled mangasama.Sources.gate mangasama.Libraries.unique_names
    mangasama.Models.Query.fresh
get_library-create_example = get_library-create policy (λ path. true) payload database refl

abbrev patch : LibraryUpdate
patch = record {
  name = some "Manga IT";
  type = none;
  root_path = none;
  folder_strategy = none;
  cover_strategy = none;
  providers = none;
  italian_priority = some false;
  follow_interval_hours = none;
  jpg_quality = none;
}

abbrev changed : Library
changed = record library { name = "Manga IT"; italian_priority = false }

get_library-update_run :
    get_library false 1 (record database { libraries = changed ∷ [] }) ≡ ok changed
unfolding update_library get_library mangasama.Models.Query.one_or_none mangasama.Base.nat_eq
    mangasama.Libraries.unique_names mangasama.Models.Query.update_where mangasama.Libraries.patched
get_library-update_run = get_library-update policy (λ path. true) 1 patch database refl

get_library-soft_delete_run :
    get_library false 1 (record database { libraries = record library { deleted = true } ∷ [] })
    ≡ err (raised library_not_found)
unfolding soft_delete_library get_library mangasama.Models.Query.one_or_none mangasama.Base.nat_eq
    mangasama.Models.Query.update_where
get_library-soft_delete_run = get_library-soft_delete 1 database refl
