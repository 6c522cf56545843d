-- ===== src/Auth/Locations/Canonical.antt =====
-- The stored form of a list of location slugs.
use mathlib.Core.List.{append-nil, append_assoc}
use brasaland_digital.Base.{
  ◌≡◌, refl, sym, ap, ◌∙◌, true, false, ◌||◌, List, [], ◌∷◌, ◌++◌, String, ◌==◌, eq_iff, arith, All,
  All-append, contains, strip, sorted, IsSorted, Distinct, sorted-IsSorted, sorted-Distinct,
  sorted_fixed, All-sorted, subst, All-contains, if◌then◌else◌, ok, err, Bool-cases, inl, inr,
}
use brasaland_digital.Base.Results.{>>=-eq-ok}
use brasaland_digital.Auth.Locations.{
  canonical_location_slugs, validate_location_slug, collect_slugs, normalize_authorized_locations,
}

-- A slug that `validate_location_slug` returns as it is.
abbrev pub IsCanonical : String → Type 0
IsCanonical slug = validate_location_slug slug ≡ ok slug

-- Stripping a canonical slug changes nothing.
strip_canonical :
    (slug : String) → contains slug canonical_location_slugs ≡ true → strip slug ≡ slug
unfolding strip
strip_canonical slug h =
    All-contains (λ s. strip s ≡ s) canonical_location_slugs slug
      (
        refl,
        (
          refl,
          (
            refl,
            (
              refl,
              (refl, (refl, (refl, (refl, (refl, (refl, (refl, (refl, (refl, (refl, tt)))))))))),
            ),
          ),
        ),
      )
      h

listed-IsCanonical :
    (slug : String) → contains slug canonical_location_slugs ≡ true → IsCanonical slug
unfolding validate_location_slug
listed-IsCanonical slug h = rw (strip_canonical slug h, h)

contains-append :
    (z x : String) (ys : List String) → contains z (ys ++ x ∷ []) ≡ (contains z ys || z == x)
contains-append z x [] = ground arith
contains-append z x (y ∷ ys) = ground (arith, contains-append z x ys)

append-Distinct :
    (x : String) (ys : List String) → Distinct ys → contains x ys ≡ false → Distinct (ys ++ x ∷ [])
append-Distinct x [] d n = (refl, tt)
append-Distinct x (y ∷ ys) d n =
    ground (arith, contains-append y x ys, eq_iff x y, eq_iff y x, append-Distinct x ys d.1)

valid-IsCanonical :
    (slug valid : String) → validate_location_slug slug ≡ ok valid → IsCanonical valid
unfolding validate_location_slug
valid-IsCanonical slug valid h =
    elim (Bool-cases (contains (strip slug) canonical_location_slugs)) [
      | inl listed ↦
          let e : ok (strip slug) ≡ ok valid = rw listed at h in
          subst IsCanonical (cc e) (listed-IsCanonical (strip slug) listed)
      | inr unknown ↦ let e : err slug ≡ ok valid = rw unknown at h in absurd (cc e)
    ]

-- The collected slugs are canonical and distinct.
collect_slugs_lem :
    (acc slugs out : List String)
    → Distinct acc
    → All IsCanonical acc
    → collect_slugs acc slugs ≡ ok out
    → Distinct out × All IsCanonical out
unfolding collect_slugs
collect_slugs_lem acc [] out d c h = (subst Distinct (cc h) d, subst (All IsCanonical) (cc h) c)
collect_slugs_lem acc (slug ∷ slugs) out d c h =
    let (valid, e, h') =
      >>=-eq-ok (validate_location_slug slug)
        (λ v. collect_slugs (if contains v acc then acc else acc ++ v ∷ []) slugs) h in
    elim (Bool-cases (contains valid acc)) [
      | inl seen ↦ collect_slugs_lem acc slugs out d c (rw seen at h')
      | inr new ↦
          collect_slugs_lem (acc ++ valid ∷ []) slugs out (append-Distinct valid acc d new)
            (All-append IsCanonical acc (valid ∷ []) c (valid-IsCanonical slug valid e, tt))
            (rw new at h')
    ]

contains-middle :
    (z x : String) (ys rest : List String)
    → contains z (ys ++ x ∷ rest) ≡ (contains z ys || (z == x || contains z rest))
contains-middle z x [] rest = refl
contains-middle z x (y ∷ ys) rest = ground (arith, contains-middle z x ys rest)

middle-new :
    (x : String) (ys rest : List String) → Distinct (ys ++ x ∷ rest) → contains x ys ≡ false
middle-new x [] rest d = refl
middle-new x (y ∷ ys) rest d =
    ground (arith, contains-middle y x ys rest, eq_iff x y, eq_iff y x, middle-new x ys rest d.1)

-- Canonical slugs that are distinct, and none of which has been collected, are collected in order.
collect_slugs_fixed :
    (acc slugs : List String)
    → Distinct (acc ++ slugs)
    → All IsCanonical slugs
    → collect_slugs acc slugs ≡ ok (acc ++ slugs)
unfolding collect_slugs
collect_slugs_fixed acc [] d c = rw append-nil
collect_slugs_fixed acc (slug ∷ slugs) d c =
    rw (c.0, middle-new slug acc slugs d)
      (collect_slugs_fixed (acc ++ slug ∷ []) slugs
          (subst Distinct (sym (append_assoc acc (slug ∷ []) slugs)) d) c.1
        ∙ ap ok (append_assoc acc (slug ∷ []) slugs))

normal_fixed :
    (slugs : List String)
    → IsSorted slugs
    → Distinct slugs
    → All IsCanonical slugs
    → normalize_authorized_locations slugs ≡ ok slugs
unfolding normalize_authorized_locations
normal_fixed slugs s d c = rw (collect_slugs_fixed [] slugs d c) (ap ok (sorted_fixed slugs s))

-- In order, without repetition, canonical, and a fixed point of the normalisation.
abbrev pub IsNormal : List String → Type 0
IsNormal out =
    IsSorted out
    × Distinct out
    × All IsCanonical out
    × (normalize_authorized_locations out ≡ ok out)

-- `normalize_authorized_locations` returns slugs of the catalogue, in order, none of them twice; and
-- normalising them once more, as `update_user` does, changes nothing.
pub normalize_authorized_locations_lem :
    (slugs out : List String) → normalize_authorized_locations slugs ≡ ok out → IsNormal out
unfolding normalize_authorized_locations
normalize_authorized_locations_lem slugs out h =
    let (found, e, h') = >>=-eq-ok (collect_slugs [] slugs) (λ l. ok (sorted l)) h in
    let (d, c) = collect_slugs_lem [] slugs found tt tt e in
    let same : sorted found ≡ out = cc h' in
    subst IsNormal same (
      sorted-IsSorted found,
      sorted-Distinct found d,
      All-sorted IsCanonical found c,
      normal_fixed (sorted found) (sorted-IsSorted found) (sorted-Distinct found d)
          (All-sorted IsCanonical found c),
    )
