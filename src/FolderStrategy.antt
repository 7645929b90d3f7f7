-- ===== src/FolderStrategy.antt =====
-- app/services/folder_strategy.py: where the CBZ of a chapter goes. `PurePath` is that of `pathlib` on
-- POSIX. `ensure_dir` only touches the disk and is left out.
pub mod PurePaths
pub mod Components
pub mod Layout
use mangasama.Base.{String, Bool, true, false, Option, none, some, List, [], ◌∷◌, ◌++◌, get_or}
use mangasama.Base.{◌==◌, nat_eq, string_eq, contains, if◌then◌else◌}
use mangasama.Base.Dict.{Dict, lookup}
use mangasama.Errors.{Result, ok, err, raised, value_error}
use mangasama.Text.{Text, codes, strip, is_empty}
use mangasama.FolderStrategy.PurePaths.{PurePath, parse_path, ◌/◌}
use mangasama.Paths.{safe_filename, chapter_filename, volume_folder_name, pad_number}

pub record SeriesVolumeChapter : Type 0 where
  pub series_title : Text
  pub chapter_number : Text
  pub chapter_title : Option Text
  pub language : Option Text
  pub volume_number : Option Text

pub record ChapterPath : Type 0 where
  pub path : PurePath
  pub parent : PurePath
  pub folder_parts : List Text

-- `x or "1"`
abbrev pub or_one : Option Text → Text
or_one none = codes "1"
or_one (some s) = if is_empty s then codes "1" else s

-- `_pad_vol` and `_pad_ch`
unfoldable pub pad_vol : Text → Text
pad_vol num = let s = strip num in pad_number (if is_empty s then codes "1" else s)

unfoldable pub pad_ch : Text → Text
pad_ch num = let s = strip num in pad_number (if is_empty s then codes "1" else s)

abbrev pub Strategy : Type 0
Strategy = PurePath → SeriesVolumeChapter → ChapterPath

unfoldable pub run_strategy : Option Strategy → PurePath → SeriesVolumeChapter → Result ChapterPath
run_strategy none root ctx = err (raised value_error)
run_strategy (some f) root ctx = ok (f root ctx)

module _ (nfc : Text → Text) where
  unfoldable pub series_folder : Text → Text
  series_folder title = safe_filename nfc 200 title

  unfoldable pub strategy_series_volume_chapter : PurePath → SeriesVolumeChapter → ChapterPath
  strategy_series_volume_chapter root ctx =
      let series = series_folder ctx.series_title in
      let volume = volume_folder_name (or_one ctx.volume_number) in
      let parent = root / series / volume in
      let fname =
        chapter_filename nfc ctx.series_title ctx.chapter_number ctx.chapter_title ctx.language in
      record { path = parent / fname; parent = parent; folder_parts = series ∷ volume ∷ [] }

  unfoldable pub strategy_series_volume : PurePath → SeriesVolumeChapter → ChapterPath
  strategy_series_volume root ctx =
      let series = series_folder ctx.series_title in
      let volume = volume_folder_name (or_one ctx.volume_number) in
      let parent = root / series / volume in
      let fname = chapter_filename nfc ctx.series_title ctx.chapter_number none ctx.language in
      record { path = parent / fname; parent = parent; folder_parts = series ∷ volume ∷ [] }

  unfoldable pub strategy_chapter_flat : PurePath → SeriesVolumeChapter → ChapterPath
  strategy_chapter_flat root ctx =
      let series = series_folder ctx.series_title in
      let parent = root / series in
      let fname =
        chapter_filename nfc ctx.series_title ctx.chapter_number ctx.chapter_title ctx.language in
      record { path = parent / fname; parent = parent; folder_parts = series ∷ [] }

  unfoldable pub strategy_onefile_per_volume : PurePath → SeriesVolumeChapter → ChapterPath
  strategy_onefile_per_volume root ctx =
      let series = series_folder ctx.series_title in
      let volume_label = volume_folder_name (or_one ctx.volume_number) in
      let parent = root / series / volume_label in
      let fname =
        safe_filename nfc 200 ctx.series_title
        ++ (codes " - Vol"
            ++ (pad_vol (or_one ctx.volume_number)
                ++ (codes " Ch" ++ (pad_ch ctx.chapter_number ++ codes ".cbz")))) in
      record { path = parent / fname; parent = parent; folder_parts = series ∷ volume_label ∷ [] }

  -- `_STRATEGIES`
  abbrev pub strategies : Dict String Strategy
  strategies =
      ("series_volume_chapter", strategy_series_volume_chapter)
      ∷ ("series_volume", strategy_series_volume)
      ∷ ("chapter_flat", strategy_chapter_flat)
      ∷ ("onefile_per_volume", strategy_onefile_per_volume)
      ∷ []

  unfoldable pub resolve_path : String → Text → SeriesVolumeChapter → Result ChapterPath
  unfolding run_strategy
  resolve_path strategy root ctx = run_strategy (lookup strategy strategies) (parse_path root) ctx
