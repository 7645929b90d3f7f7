-- ===== src/Cbz/Names.antt =====
-- The names of the entries of an archive (app/services/cbz.py).
use mangasama.Base.{ℕ, ◌+◌, ◌≤◌, ◌<◌, ◌≡◌, refl, ◌≢◌, ◌∙◌, sym, ap, List, [], ◌∷◌, ◌++◌, map, arith}
use mangasama.Base.{length, length-append}
use mangasama.Errors.{ok, >>=-eq-ok, ok-injective}
use mangasama.Text.{Text, codes}
use mangasama.Text.Number.{show_nat, zfill, py_int}
use mangasama.Text.Number.RoundTrip.{py_int-zfill}
use mangasama.Cbz.{PageBlob, Entry, Codecs, pad_width, page_name, page_entries, archive}
use mangasama.ComicInfo.{ComicInfo}

page_entries-names :
    (C : Codecs) (width : ℕ) (pages : List PageBlob) (entries : List Entry)
    → page_entries C width pages ≡ ok entries
    → map (λ e. e.name) entries ≡ map (λ p. page_name width p.index) pages
unfolding page_entries
page_entries-names C width [] entries h = ap (map (λ e. e.name)) (sym (ok-injective [] entries h))
page_entries-names C width (p ∷ pages) entries h =
    let (jpg, _, h₁) = >>=-eq-ok (C.convert_to_jpg p.bytes) _ h in
    let (rest, e, h₂) = >>=-eq-ok (page_entries C width pages) _ h₁ in
    ap (map (λ e. e.name)) (sym (ok-injective _ entries h₂))
    ∙ ap (λ names. page_name width p.index ∷ names) (page_entries-names C width pages rest e)

-- The entries of an archive are ComicInfo.xml and the pages in their order, each with the name
-- that its index gives.
pub archive-names :
    (C : Codecs) (pages : List PageBlob) (info : ComicInfo) (entries : List Entry)
    → archive C pages info ≡ ok entries
    → map (λ e. e.name) entries
      ≡ codes "ComicInfo.xml" ∷ map (λ p. page_name (pad_width (length pages)) p.index) pages
unfolding archive
archive-names C pages info entries h =
    let (rest, e, h₁) = >>=-eq-ok (page_entries C (pad_width (length pages)) pages) _ h in
    ap (map (λ e. e.name)) (sym (ok-injective _ entries h₁))
    ∙ ap (λ names. codes "ComicInfo.xml" ∷ names)
        (page_entries-names C (pad_width (length pages)) pages rest e)

pad_width-le : (n : ℕ) → 3 ≤ pad_width n
unfolding pad_width
pad_width-le n = ground arith

append_cancel_right : (xs ys zs : Text) → xs ++ zs ≡ ys ++ zs → xs ≡ ys
append_cancel_right [] [] zs h = refl
append_cancel_right [] (y ∷ ys) zs h = absurd (omega (arith, ap length h, length-append {0} ys zs))
append_cancel_right (x ∷ xs) [] zs h = absurd (omega (arith, ap length h, length-append {0} xs zs))
append_cancel_right (x ∷ xs) (y ∷ ys) zs h =
    let e : x ≡ y = cc in
    let t : xs ++ zs ≡ ys ++ zs = cc in
    ap (λ s. x ∷ s) (append_cancel_right xs ys zs t) ∙ ap (λ c. c ∷ ys) e

append_cancel_page : (s t : Text) → codes "page" ++ s ≡ codes "page" ++ t → s ≡ t
append_cancel_page s t h = cc

page_name-injective : (n i j : ℕ) → page_name (pad_width n) i ≡ page_name (pad_width n) j → i ≡ j
unfolding page_name
page_name-injective n i j h =
    let w = pad_width n in
    let pos : 0 < w = omega (arith, pad_width-le n) in
    let z : zfill w (show_nat (i + 1)) ≡ zfill w (show_nat (j + 1)) =
      append_cancel_right _ _ (codes ".jpg") (append_cancel_page _ _ h) in
    let r = sym (py_int-zfill w (i + 1) pos) ∙ ap py_int z ∙ py_int-zfill w (j + 1) pos in
    let m : i + 1 ≡ j + 1 = cc in omega arith

-- Two pages with different indices have different names, whatever the size of the archive.
pub page_name_distinct : (n i j : ℕ) → i ≢ j → page_name (pad_width n) i ≢ page_name (pad_width n) j
page_name_distinct n i j h e = h (page_name-injective n i j e)
