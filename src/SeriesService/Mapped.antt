-- ===== src/SeriesService/Mapped.antt =====
-- The external ids of a series after one is mapped (app/services/series.py).
use mangasama.Base.{ℕ, ◌≡◌, refl, ◌∙◌, String, true, false, Option, none, some, List, arith}
use mangasama.Base.{nat_eq, string_eq}
use mathlib.Core.Path.{subst}
use mangasama.Errors.{ok, ◌>>=◌, >>=-eq-ok, ok-injective}
use mangasama.Models.{SeriesExternalId}
use mangasama.Models.Query.{
  one_or_none, one_or_none-append, one_or_none-update, one_or_none-skip, one_or_none-apart,
}
use mangasama.SeriesService.Adding.{
  maps_elsewhere, maps_here, set_mapping, new_mapping, map_here, map_external_id, unless_elsewhere,
}

-- The series has one external id of the provider, the given one.
abbrev pub IsMapped : String → String → ℕ → List SeriesExternalId → Type 0
IsMapped provider external_id sid rows =
    (e : SeriesExternalId) × (one_or_none (maps_here provider sid) rows ≡ ok (some e))
    × (e.external_id ≡ external_id)

map_here-IsMapped :
    (here : Option SeriesExternalId) (now sid : ℕ) (provider external_id url : String)
    (rows : List SeriesExternalId)
    → one_or_none (maps_here provider sid) rows ≡ ok here
    → IsMapped provider external_id sid (map_here here now sid provider external_id url rows)
unfolding maps_here set_mapping new_mapping
map_here-IsMapped none now sid provider external_id url rows h = (
  new_mapping now sid provider external_id url,
  one_or_none-append (maps_here provider sid) rows (new_mapping now sid provider external_id url)
      (ground arith) h,
  refl,
)
map_here-IsMapped (some e) now sid provider external_id url rows h = (
  set_mapping now external_id url e,
  one_or_none-update (maps_here provider sid) (set_mapping now external_id url) rows e (λ r k. k) h,
  refl,
)

pub map_external_id-IsMapped :
    (now sid : ℕ) (provider external_id url : String) (rows : List SeriesExternalId)
    {rows' : List SeriesExternalId}
    → one_or_none (maps_elsewhere provider external_id sid) rows ≡ ok none
    → map_external_id now sid provider external_id url rows ≡ ok rows'
    → IsMapped provider external_id sid rows'
unfolding map_external_id
map_external_id-IsMapped now sid provider external_id url rows {rows'} free h =
    let h' = rw free at h in
    let (here, e, h₁) = >>=-eq-ok (one_or_none (maps_here provider sid) rows) _ h' in
    subst (IsMapped provider external_id sid) (ok-injective _ rows' h₁)
      (map_here-IsMapped here now sid provider external_id url rows e)

-- A mapping of the series itself is none of another series.
elsewhere_here :
    (provider external_id : String) (sid : ℕ) (e : SeriesExternalId)
    → maps_here provider sid e ≡ true
    → maps_elsewhere provider external_id sid e ≡ false
unfolding maps_here maps_elsewhere
elsewhere_here provider external_id sid e h = ground arith

set_mapping-here :
    (now sid : ℕ) (provider external_id url : String) (e : SeriesExternalId)
    → maps_here provider sid e ≡ true
    → maps_here provider sid (set_mapping now external_id url e) ≡ true
unfolding maps_here set_mapping
set_mapping-here now sid provider external_id url e h = h

new_mapping-here :
    (now sid : ℕ) (provider external_id url : String)
    → maps_here provider sid (new_mapping now sid provider external_id url) ≡ true
unfolding maps_here new_mapping
new_mapping-here now sid provider external_id url = ground arith

elsewhere_after :
    (here : Option SeriesExternalId) (now sid : ℕ) (provider external_id url : String)
    (rows : List SeriesExternalId)
    → one_or_none
        (maps_elsewhere provider external_id sid)
        (map_here here now sid provider external_id url rows)
      ≡ one_or_none (maps_elsewhere provider external_id sid) rows
elsewhere_after none now sid provider external_id url rows =
    one_or_none-skip (maps_elsewhere provider external_id sid) rows
      (new_mapping now sid provider external_id url)
      (elsewhere_here provider external_id sid (new_mapping now sid provider external_id url)
        (new_mapping-here now sid provider external_id url))
elsewhere_after (some e) now sid provider external_id url rows =
    one_or_none-apart (maps_elsewhere provider external_id sid) (maps_here provider sid)
      (set_mapping now external_id url) rows (λ x h. elsewhere_here provider external_id sid x h)
      (λ x h.
        elsewhere_here provider external_id sid (set_mapping now external_id url x)
          (set_mapping-here now sid provider external_id url x h))

-- Mapping the same external id again succeeds.
pub map_external_id-again :
    (now now' sid : ℕ) (provider external_id url : String) (rows : List SeriesExternalId)
    {rows' : List SeriesExternalId}
    → map_external_id now sid provider external_id url rows ≡ ok rows'
    → (rows'' : List SeriesExternalId) × (map_external_id now' sid provider external_id url rows'
        ≡ ok rows'')
unfolding map_external_id
map_external_id-again now now' sid provider external_id url rows {rows'} h =
    let (elsewhere, e, h₁) =
      >>=-eq-ok (one_or_none (maps_elsewhere provider external_id sid) rows) _ h in
    go elsewhere e h₁
  where
    go :
        (elsewhere : Option SeriesExternalId)
        → one_or_none (maps_elsewhere provider external_id sid) rows ≡ ok elsewhere
        → unless_elsewhere elsewhere
            (one_or_none (maps_here provider sid) rows >>= λ here.
              ok (map_here here now sid provider external_id url rows))
            rows
          ≡ ok rows'
        → (rows'' : List SeriesExternalId) × (map_external_id now' sid provider external_id url
              rows'
            ≡ ok rows'')
    go (some x) e k = (
      rows',
      subst (λ rs. map_external_id now' sid provider external_id url rs ≡ ok rs)
          (ok-injective rows rows' k) (rw e refl),
    )
    go none e k =
        let (here, e', k₁) = >>=-eq-ok (one_or_none (maps_here provider sid) rows) _ k in
        let same = ok-injective _ rows' k₁ in
        let (r, found, _) = map_here-IsMapped here now sid provider external_id url rows e' in
        (
          map_here (some r) now' sid provider external_id url rows',
          subst
              (λ rs.
                map_external_id now' sid provider external_id url rs
                ≡ ok (map_here (some r) now' sid provider external_id url rs))
              same
              (rw (elsewhere_after here now sid provider external_id url rows ∙ e) (rw found refl)),
        )
