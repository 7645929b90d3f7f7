-- ===== src/FolderStrategy/Layout.antt =====
-- Where the strategies put a chapter.
use mangasama.Base.{◌≡◌, ◌≢◌, refl, ap, String, false, Option, none, some, [], ◌∷◌, ◌++◌}
use mangasama.Base.{nat_eq, string_eq, Bool-cases, inl, inr, ◌∙◌, List}
use mangasama.Base.Dict.{lookup, lookup-All}
use mangasama.Base.{All, All-append, contains}
use mathlib.Core.Path.{subst}
use mangasama.Errors.{ok}
use mangasama.Text.{Text, codes, is_empty, strip}
use mathlib.Core.List.{append_assoc}
use mangasama.Paths.{safe_filename}
use mangasama.FolderStrategy.PurePaths.{PurePath, parse_path, ◌/◌}
use mangasama.FolderStrategy.Components.{
  NoSlash, IsName, contains-NoSlash, join-IsName, IsName-not_up, IsName-append,
  safe_filename-IsName, pad_number-NoSlash, strip-NoSlash, volume_folder_name-IsName, or_nothing,
  chapter_filename-IsName,
}
use mangasama.FolderStrategy.{
  SeriesVolumeChapter, ChapterPath, pad_vol, pad_ch, or_one, series_folder,
  strategy_series_volume_chapter, strategy_series_volume, strategy_chapter_flat,
  strategy_onefile_per_volume, resolve_path, strategies, Strategy, run_strategy,
}

-- Two chapters that differ in title or language alone have one path under `onefile_per_volume`.
pub resolve_path_onefile_collides :
    (nfc : Text → Text) (root : Text) (ctx : SeriesVolumeChapter) (title language : Option Text)
    → resolve_path nfc "onefile_per_volume" root ctx
      ≡ resolve_path nfc "onefile_per_volume" root
          (record ctx { chapter_title = title; language = language })
unfolding resolve_path strategy_onefile_per_volume lookup string_eq
resolve_path_onefile_collides nfc root ctx title language = refl

-- The path lies below the root of the library, in the safe folder of the series: its parts are those
-- of the root, that folder, further folders and the name of the file, and none of these leads
-- upwards. The parent is the folder that the file stands in.
pub record InSeries (nfc : Text → Text) (root title : Text) (p : ChapterPath) : Type 0 where
  pub folders : List Text
  pub file : Text
  pub below :
      p.path.parts
      ≡ (parse_path root).parts ++ (safe_filename nfc 200 title ∷ (folders ++ (file ∷ [])))
  pub anchored : p.path.anchor ≡ (parse_path root).anchor
  pub in_parent : p.path ≡ record p.parent { parts = p.parent.parts ++ (file ∷ []) }
  pub downwards : All (λ s. s ≢ codes "..") (safe_filename nfc 200 title ∷ (folders ++ (file ∷ [])))

-- The numbers and the language of the chapter hold no slash.
abbrev pub HasNoSlashes : SeriesVolumeChapter → Type 0
HasNoSlashes ctx =
    (contains ctx.chapter_number b'/' ≡ false)
    × (contains (or_nothing ctx.language) b'/' ≡ false)
    × (contains (or_nothing ctx.volume_number) b'/' ≡ false)

or_one-NoSlash : (o : Option Text) → NoSlash (or_nothing o) → NoSlash (or_one o)
unfolding nat_eq
or_one-NoSlash none h = (refl, tt)
or_one-NoSlash (some s) h = elim (Bool-cases (is_empty s)) [
  | inl e ↦ rw e (refl, tt)
  | inr e ↦ rw e h
]

module _ (nfc : Text → Text) (root title : Text) where
  series-IsName : IsName (safe_filename nfc 200 title)
  series-IsName = safe_filename-IsName nfc 200 title

  in_flat :
      (f : Text) (parts : List Text)
      → IsName f
      → InSeries nfc root title (record {
        path = parse_path root / safe_filename nfc 200 title / f;
        parent = parse_path root / safe_filename nfc 200 title;
        folder_parts = parts;
      })
  in_flat f parts n =
      let s = safe_filename nfc 200 title in
      let at_series = join-IsName (parse_path root) s series-IsName in
      let at_file = join-IsName (parse_path root / s) f n in
      record {
        folders = [];
        file = f;
        below =
            ap (λ p. p.parts) at_file
            ∙ ap (λ p. p.parts ++ (f ∷ [])) at_series
            ∙ append_assoc (parse_path root).parts (s ∷ []) (f ∷ []);
        anchored = ap (λ p. p.anchor) at_file ∙ ap (λ p. p.anchor) at_series;
        in_parent = at_file;
        downwards = (IsName-not_up s series-IsName, (IsName-not_up f n, tt));
      }

  in_volume :
      (v f : Text) (parts : List Text)
      → IsName v
      → IsName f
      → InSeries nfc root title (record {
        path = parse_path root / safe_filename nfc 200 title / v / f;
        parent = parse_path root / safe_filename nfc 200 title / v;
        folder_parts = parts;
      })
  in_volume v f parts m n =
      let s = safe_filename nfc 200 title in
      let at_series = join-IsName (parse_path root) s series-IsName in
      let at_volume = join-IsName (parse_path root / s) v m in
      let at_file = join-IsName (parse_path root / s / v) f n in
      record {
        folders = v ∷ [];
        file = f;
        below =
            ap (λ p. p.parts) at_file
            ∙ ap (λ p. p.parts ++ (f ∷ [])) at_volume
            ∙ ap (λ p. (p.parts ++ (v ∷ [])) ++ (f ∷ [])) at_series
            ∙ simp append_assoc;
        anchored =
            ap (λ p. p.anchor) at_file
            ∙ ap (λ p. p.anchor) at_volume
            ∙ ap (λ p. p.anchor) at_series;
        in_parent = at_file;
        downwards = (IsName-not_up s series-IsName, (IsName-not_up v m, (IsName-not_up f n, tt)));
      }

pad_one-NoSlash : (s : Text) → NoSlash s → NoSlash (pad_vol s) × NoSlash (pad_ch s)
unfolding pad_vol pad_ch nat_eq
pad_one-NoSlash s h = elim (Bool-cases (is_empty (strip s))) [
  | inl e ↦
      rw e (pad_number-NoSlash (codes "1") (refl, tt), pad_number-NoSlash (codes "1") (refl, tt))
  | inr e ↦ rw e (
    pad_number-NoSlash (strip s) (strip-NoSlash s h),
    pad_number-NoSlash (strip s) (strip-NoSlash s h),
  )
]

onefile-IsName :
    (nfc : Text → Text) (title v c : Text)
    → NoSlash v
    → NoSlash c
    → IsName (
        safe_filename nfc 200 title
        ++ (codes " - Vol" ++ (pad_vol v ++ (codes " Ch" ++ (pad_ch c ++ codes ".cbz")))))
unfolding nat_eq
onefile-IsName nfc title v c h k = IsName-append _ _ (safe_filename-IsName nfc 200 title) (
    All-append _ (codes " - Vol") _ (refl, (refl, (refl, (refl, (refl, (refl, tt))))))
      (All-append _ (pad_vol v) _ (pad_one-NoSlash v h).0 (
        All-append _ (codes " Ch") _ (refl, (refl, (refl, tt)))
          (All-append _ (pad_ch c) _ (pad_one-NoSlash c k).1 (refl, (refl, (refl, (refl, tt))))))))

strategies-InSeries :
    (nfc : Text → Text) (root : Text) (ctx : SeriesVolumeChapter)
    → HasNoSlashes ctx
    → All (λ x. InSeries nfc root ctx.series_title (x.1 (parse_path root) ctx)) (strategies nfc)
unfolding strategy_series_volume_chapter strategy_series_volume strategy_chapter_flat
    strategy_onefile_per_volume series_folder
strategies-InSeries nfc root ctx (no_number, no_language, no_volume) =
    let number = contains-NoSlash _ no_number in
    let language = contains-NoSlash _ no_language in
    let volume = or_one-NoSlash ctx.volume_number (contains-NoSlash _ no_volume) in
    let folder = volume_folder_name-IsName (or_one ctx.volume_number) volume in
    (
      in_volume nfc root _ _ _ _ folder (chapter_filename-IsName nfc _ _ _ _ number language),
      (
        in_volume nfc root _ _ _ _ folder (chapter_filename-IsName nfc _ _ _ _ number language),
        (
          in_flat nfc root _ _ _ (chapter_filename-IsName nfc _ _ _ _ number language),
          (in_volume nfc root _ _ _ _ folder (onefile-IsName nfc _ _ _ volume number), tt),
        ),
      ),
    )

made :
    (Q : ChapterPath → Type 0) (o : Option Strategy) (root : PurePath) (ctx : SeriesVolumeChapter)
    → {p : ChapterPath} → ((f : Strategy) → o ≡ some f → Q (f root ctx))
    → run_strategy o root ctx ≡ ok p
    → Q p
unfolding run_strategy
made Q none root ctx k h = cc
made Q (some f) root ctx k h = subst Q (cc) (k f refl)

-- Whatever the strategy, the titles and the root, if the numbers and the language of the chapter
-- hold no slash, the path lies below the root of the library, in the safe folder of the series, no
-- part of it below the root leads upwards, and the file stands straight in the parent that is
-- created for it.
pub resolve_path-InSeries :
    (nfc : Text → Text) (strategy : String) (root : Text) (ctx : SeriesVolumeChapter)
    {p : ChapterPath}
    → HasNoSlashes ctx
    → resolve_path nfc strategy root ctx ≡ ok p
    → InSeries nfc root ctx.series_title p
unfolding resolve_path
resolve_path-InSeries nfc strategy root ctx slashes h =
    made (InSeries nfc root ctx.series_title) (lookup strategy (strategies nfc)) (parse_path root)
      ctx
      (λ f e.
        lookup-All (λ g. InSeries nfc root ctx.series_title (g (parse_path root) ctx)) strategy
          (strategies nfc) (strategies-InSeries nfc root ctx slashes) e)
      h
