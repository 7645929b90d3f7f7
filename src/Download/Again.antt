-- ===== src/Download/Again.antt =====
-- The row that a download leaves, and a second download (app/services/downloader.py).
use mangasama.Base.{
  ℕ, ◌≡◌, refl, ap, ◌∙◌, sym, String, Bool, true, false, Option, none, some, List, [], ◌∷◌, arith,
}
use mangasama.Base.{nat_eq, string_eq, option_eq, Bool-cases, inl, inr}
use mangasama.Errors.{ok, >>=-eq-ok, ok-injective}
use mathlib.Core.Path.{subst}
use mangasama.Text.{Text, text_eq}
use mangasama.Models.{Library, Series, Volume, Page, Chapter, Database}
use mangasama.Models.Query.{one_or_none, fresh, one_or_none-append, one_or_none-update}
use mangasama.Languages.{ScrapedChapter}
use mangasama.Cbz.{CbzResult}
use mangasama.Follow.{Floats}
use mangasama.Package.{Outside, ScrapedPage, distinct_pages}
use mangasama.Download.{
  is_volume, use_volume, get_or_create_volume, volume_number_of, is_chapter, has_file, fill,
  blank_chapter, store, is_kept, write_chapter, pack, persist, pack_and_store, keep_or_fetch,
  download_chapter,
}

-- The one row with the key of the chapter.
abbrev pub Stored : String → ScrapedChapter → Option Chapter → Database → Type 0
Stored provider scraped ch db = one_or_none (is_chapter provider scraped) db.chapters ≡ ok ch

use_volume-chapters :
    (F : Floats) (sid : ℕ) (num language : Text) (db : Database) (o : Option Volume)
    → (use_volume F sid num language db o).1.chapters ≡ db.chapters
use_volume-chapters F sid num language db none = refl
use_volume-chapters F sid num language db (some v) = refl

get_or_create_volume-chapters :
    (F : Floats) (sid : ℕ) (number : Option Text) (language : Text) (db : Database)
    {x : Volume × Database}
    → get_or_create_volume F sid number language db ≡ ok x
    → x.1.chapters ≡ db.chapters
unfolding get_or_create_volume
get_or_create_volume-chapters F sid number language db {x} h =
    let (o, _, e) =
      >>=-eq-ok (one_or_none (is_volume sid (volume_number_of number) language) db.volumes) _ h in
    ap (λ (y : Volume × Database). y.1.chapters) (sym (ok-injective _ x e))
    ∙ use_volume-chapters F sid (volume_number_of number) language db o

module _ (F : Floats) (now : ℕ) (scraped : ScrapedChapter) (provider : String) (volume_id : ℕ)
    (pages : List Page) (result : CbzResult) where
  abbrev filled : Chapter → Chapter
  filled = fill F now scraped volume_id pages result

  fill-key :
      (ch : Chapter)
      → is_chapter provider scraped ch ≡ true
      → is_chapter provider scraped (filled ch) ≡ true
  unfolding fill
  fill-key ch h = h

  blank-key :
      (id : ℕ) → is_chapter provider scraped (filled (blank_chapter id provider scraped)) ≡ true
  unfolding fill
  blank-key id = ground arith

  store-Stored :
      (existing : Option Chapter) (db : Database)
      → Stored provider scraped existing db
      → Stored provider scraped
          (some (store filled provider scraped existing db).0)
          (store filled provider scraped existing db).1
  store-Stored none db h =
      one_or_none-append (is_chapter provider scraped) db.chapters _
        (blank-key (fresh (λ c. c.id) db.chapters)) h
  store-Stored (some old) db h =
      one_or_none-update (is_chapter provider scraped) filled db.chapters old fill-key h

write_chapter-Stored :
    (F : Floats) (now : ℕ) (scraped : ScrapedChapter) (provider : String) (volume_id : ℕ)
    (pages : List Page) (result : CbzResult) (existing : Option Chapter) (db : Database) (b : Bool)
    {ch : Chapter} {db' : Database}
    → Stored provider scraped existing db
    → write_chapter (fill F now scraped volume_id pages result) provider scraped existing db b
      ≡ ok (some ch, db')
    → Stored provider scraped (some ch) db'
write_chapter-Stored F now scraped provider volume_id pages result existing db false h e = cc
write_chapter-Stored F now scraped provider volume_id pages result existing db true {ch} {db'} h e =
    subst {A = Option Chapter × Database} (λ x. Stored provider scraped x.0 x.1)
      (ok-injective _ (some ch, db') e)
      (store-Stored F now scraped provider volume_id pages result existing db h)

module _ (O : Outside) (now : ℕ) (s : Series) (scraped : ScrapedChapter) (provider : String)
    (l : Library) where
  persist-Stored :
      (existing : Option Chapter) (db : Database) (packed : List Page × CbzResult) {ch : Chapter}
      {db' : Database}
      → Stored provider scraped existing db
      → persist O now s scraped provider l existing db packed ≡ ok (some ch, db')
      → Stored provider scraped (some ch) db'
  unfolding persist
  persist-Stored existing db (pages, result) h e =
      let (found, v, e₁) =
        >>=-eq-ok (get_or_create_volume O.floats s.id scraped.volume_number scraped.language db) _
          e in
      let same =
        get_or_create_volume-chapters O.floats s.id scraped.volume_number scraped.language db v in
      write_chapter-Stored O.floats now scraped provider found.0.id pages result existing found.1
        (distinct_pages pages) (ap (one_or_none (is_chapter provider scraped)) same ∙ h) e₁

  pack_and_store-Stored :
      (existing : Option Chapter) (listed : List ScrapedPage) (db : Database) {ch : Chapter}
      {db' : Database}
      → Stored provider scraped existing db
      → pack_and_store O now s scraped provider l existing listed db ≡ ok (some ch, db')
      → Stored provider scraped (some ch) db'
  unfolding pack_and_store
  pack_and_store-Stored existing [] db h e = cc
  pack_and_store-Stored existing (sp ∷ listed) db h e =
      let (packed, _, e₁) = >>=-eq-ok (pack O now s scraped provider l (sp ∷ listed)) _ e in
      persist-Stored existing db packed h e₁

  -- A download that gives a chapter leaves it as the one row with its key, whether it was there
  -- before or not.
  pub download_chapter-Stored :
      (overwrite : Bool) (db : Database) {ch : Chapter} {db' : Database}
      → download_chapter O now s scraped provider l overwrite db ≡ ok (some ch, db')
      → Stored provider scraped (some ch) db'
  unfolding download_chapter
  download_chapter-Stored overwrite db {ch} {db'} h =
      let (existing, found, e) =
        >>=-eq-ok (one_or_none (is_chapter provider scraped) db.chapters) _ h in
      elim (Bool-cases (is_kept O.exists overwrite existing)) [
        | inl kept ↦
            let e' : ok (existing, db) ≡ ok (some ch, db') = rw kept at e in
            subst {A = Option Chapter × Database} (λ x. Stored provider scraped x.0 x.1)
              (ok-injective _ (some ch, db') e') found
        | inr fetch ↦
            let e' : keep_or_fetch O now s scraped provider l false existing db
                ≡ ok (some ch, db') =
              rw fetch at e in
            let (listed, _, e₁) = >>=-eq-ok (O.get_pages provider scraped.external_id) _ e' in
            pack_and_store-Stored existing listed db found e₁
      ]

-- A chapter that was downloaded and whose file is there is not downloaded again, at any later time
-- and whatever has become of the series, the library and the sources: the same row is given back,
-- and the database stays as it is.
pub download_chapter_again :
    (O O' : Outside) (now now' : ℕ) (s s' : Series) (scraped : ScrapedChapter) (provider : String)
    (l l' : Library) (overwrite : Bool) (db : Database) {ch : Chapter} {db' : Database}
    → download_chapter O now s scraped provider l overwrite db ≡ ok (some ch, db')
    → has_file O'.exists ch.file_path ≡ true
    → download_chapter O' now' s' scraped provider l' false db' ≡ ok (some ch, db')
unfolding download_chapter
download_chapter_again O O' now now' s s' scraped provider l l' overwrite db h there =
    rw (download_chapter-Stored O now s scraped provider l overwrite db h) (rw there)
