-- ===== src/Tests/Names.antt =====
-- Names and paths.
use mangasama.Base.{
  ℕ, ◌≤◌, ◌≡◌, refl, String, true, false, none, some, List, [], ◌∷◌, ◌++◌, arith, nat_eq, length,
}
use mangasama.Text.{Text, codes, text_eq, strip, strip_by, before, upper, is_space}
use mangasama.Text.Number.{py_int, show_nat}
use mangasama.Paths.{
  safe_filename, volume_folder_name, chapter_filename, pad, clean, collapse, replace_unsafe,
  squeeze, is_dot, is_edge, is_reserved, is_unsafe, finish, truncate,
}
use mangasama.Paths.Safe.{IsSafe, safe_filename-IsSafe, length-safe_filename-le}
use mangasama.Paths.Reserved.{con_name, safe_filename_reserved}
use mangasama.Paths.Padding.{py_int-pad, volume_folder_name_verbatim}
use mangasama.FolderStrategy.PurePaths.{parse_path, show_path, ◌/◌}
use mangasama.FolderStrategy.{SeriesVolumeChapter, resolve_path}
use mangasama.FolderStrategy.Layout.{InSeries, resolve_path-InSeries, resolve_path_onefile_collides}
use mangasama.Errors.{ok}
use mangasama.Tests.{same_text}

cleaned : safe_filename same_text 200 (codes "  Re:Zero / ... arc_1.") ≡ codes "Re_Zero _ . arc_1"
unfolding safe_filename
cleaned = refl

reserved_name : safe_filename same_text 200 (codes "con.txt") ≡ codes "_con.txt"
unfolding safe_filename
reserved_name = refl

safe_filename-IsSafe_example : IsSafe (safe_filename same_text 20 (codes "../a?b. "))
safe_filename-IsSafe_example = safe_filename-IsSafe same_text 20 (codes "../a?b. ")

length-safe_filename-le_run : length (safe_filename same_text 8 (codes "nul.long name")) ≤ 8
length-safe_filename-le_run =
    length-safe_filename-le same_text 8 (codes "nul.long name") (omega arith)

safe_filename_reserved_run :
    (safe_filename same_text 4 (con_name 2 (codes "x")) ≡ codes "CON")
    × (is_reserved (codes "CON") ≡ true)
unfolding clean collapse strip strip_by replace_unsafe squeeze is_dot is_edge is_space is_unsafe
    nat_eq is_reserved
safe_filename_reserved_run =
    safe_filename_reserved same_text 1 2 (codes "x") refl refl (omega arith) (omega arith)

py_int-pad_example :
    (py_int (pad (show_nat 12)) ≡ some (record { negative = false; magnitude = 12 }))
    × (3 ≤ length (pad (show_nat 12)))
    × (pad (show_nat 12 ++ (b'.' ∷ codes "5")) ≡ pad (show_nat 12) ++ (b'.' ∷ codes "5"))
unfolding show_nat strip is_space
py_int-pad_example = py_int-pad 12 (codes "5") refl

padded : pad (codes "1.5") ≡ codes "001.5"
unfolding pad strip is_space mangasama.Paths.pad_number nat_eq py_int before
    mangasama.Text.Number.format_03d mangasama.Text.after
padded = refl

volume_folder_name_verbatim_run :
    volume_folder_name (codes "../../x") ≡ codes "Volume " ++ codes "../../x"
unfolding strip before py_int nat_eq is_space
volume_folder_name_verbatim_run = volume_folder_name_verbatim (codes "../../x") (λ e. cc) refl refl

abbrev chapter : SeriesVolumeChapter
chapter = record {
  series_title = codes "One Piece";
  chapter_number = codes "12.5";
  chapter_title = some (codes "Romance/Dawn");
  language = some (codes "it");
  volume_number = none;
}

full_path :
    resolve_path same_text "series_volume_chapter" (codes "./lib//manga/") chapter
    ≡ ok (record {
      path = record {
        anchor = [];
        parts =
            codes "lib"
            ∷ codes "manga"
            ∷ codes "One Piece"
            ∷ codes "Volume 001"
            ∷ codes "One Piece - ch012.5 - Romance_Dawn (it).cbz"
            ∷ [];
      };
      parent = record {
        anchor = [];
        parts = codes "lib" ∷ codes "manga" ∷ codes "One Piece" ∷ codes "Volume 001" ∷ [];
      };
      folder_parts = codes "One Piece" ∷ codes "Volume 001" ∷ [];
    })
unfolding resolve_path mangasama.Base.Dict.lookup mangasama.Base.string_eq
    mangasama.FolderStrategy.strategy_series_volume_chapter ◌/◌
    mangasama.FolderStrategy.series_folder volume_folder_name mangasama.Text.starts_with
    safe_filename pad chapter_filename parse_path mangasama.Paths.pad_number
    mangasama.Paths.with_language mangasama.FolderStrategy.PurePaths.anchor_of
    mangasama.FolderStrategy.PurePaths.parts_of py_int mangasama.Text.join
    mangasama.FolderStrategy.PurePaths.split_slashes mangasama.Text.Number.format_03d
    mangasama.Paths.with_title mangasama.FolderStrategy.PurePaths.is_part mangasama.Text.after
full_path = refl

shown_path : show_path (parse_path (codes "/data//./x") / codes "a/b") ≡ codes "/data/x/a/b"
unfolding show_path ◌/◌ mangasama.Text.starts_with nat_eq parse_path
    mangasama.FolderStrategy.PurePaths.anchor_of mangasama.Text.join
    mangasama.FolderStrategy.PurePaths.parts_of mangasama.FolderStrategy.PurePaths.split_slashes
    mangasama.FolderStrategy.PurePaths.is_part text_eq
shown_path = refl

resolve_path-InSeries_example : InSeries same_text (codes "/data") (codes "One Piece") (record {
  path = record {
    anchor = codes "/";
    parts =
        codes "data" ∷ codes "One Piece" ∷ codes "One Piece - ch012.5 - Romance_Dawn (it).cbz" ∷ [];
  };
  parent = record { anchor = codes "/"; parts = codes "data" ∷ codes "One Piece" ∷ [] };
  folder_parts = codes "One Piece" ∷ [];
})
unfolding nat_eq resolve_path mangasama.Base.Dict.lookup mangasama.Base.string_eq
    mangasama.FolderStrategy.strategy_chapter_flat ◌/◌ mangasama.FolderStrategy.series_folder
    mangasama.Text.starts_with safe_filename chapter_filename parse_path
    mangasama.Paths.with_language mangasama.FolderStrategy.PurePaths.anchor_of
    mangasama.FolderStrategy.PurePaths.parts_of mangasama.Text.join
    mangasama.FolderStrategy.PurePaths.split_slashes mangasama.Paths.with_title
    mangasama.FolderStrategy.PurePaths.is_part pad mangasama.Paths.pad_number py_int
    mangasama.Text.Number.format_03d mangasama.Text.after
resolve_path-InSeries_example =
    resolve_path-InSeries same_text "chapter_flat" (codes "/data") chapter (refl, refl, refl) refl

resolve_path_onefile_collides_run :
    resolve_path same_text "onefile_per_volume" (codes "/data") chapter
    ≡ resolve_path same_text "onefile_per_volume"
        (codes "/data")
        (record chapter { chapter_title = none; language = some (codes "en") })
resolve_path_onefile_collides_run =
    resolve_path_onefile_collides same_text (codes "/data") chapter none (some (codes "en"))
