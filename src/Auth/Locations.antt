-- ===== src/Auth/Locations.antt =====
-- services/auth/auth/locations.py: the canonical location slugs and their normal form.
pub mod Canonical
use brasaland_digital.Base.{
  List, [], ◌∷◌, ◌++◌, String, contains, strip, sorted, if◌then◌else◌, Result, ok, err,
}
use brasaland_digital.Base.Results.{◌>>=◌}

abbrev pub canonical_location_slugs : List String
canonical_location_slugs =
    "medellin_centro" ∷ "medellin_poblado" ∷ "medellin_laureles" ∷ "bogota_zona_rosa"
    ∷ "bogota_chapinero" ∷ "bogota_usaquen" ∷ "bogota_norte" ∷ "cali_san_fernando" ∷ "cali_granada"
    ∷ "cali_ciudad_jardin" ∷ "miami_brickell" ∷ "miami_wynwood" ∷ "miami_coral_gables"
    ∷ "miami_kendall" ∷ []

-- The error is the slug of `InvalidLocationSlugError`.
unfoldable pub validate_location_slug : String → Result String String
validate_location_slug slug =
    let normalized = strip slug in
    if contains normalized canonical_location_slugs then ok normalized else err slug

-- The loop of `normalize_authorized_locations`. The list `normalized` holds what the set `seen` does.
unfoldable pub collect_slugs : List String → List String → Result String (List String)
unfolding validate_location_slug
collect_slugs normalized [] = ok normalized
collect_slugs normalized (slug ∷ slugs) = do
  valid ← validate_location_slug slug
  collect_slugs (if contains valid normalized then normalized else normalized ++ valid ∷ []) slugs

unfoldable pub normalize_authorized_locations : List String → Result String (List String)
unfolding collect_slugs
normalize_authorized_locations slugs = do
  normalized ← collect_slugs [] slugs
  ok (sorted normalized)

unfoldable pub sorted_canonical_slugs : List String
sorted_canonical_slugs = sorted canonical_location_slugs
