-- ===== src/Inventory/Locations.antt =====
-- Whose requests services/inventory serves at which locations.
use brasaland_digital.Base.{
  ℕ, ◌≡◌, ◌≢◌, refl, ◌↔◌, ◌⊎◌, inl, inr, ◌<◌, ◌≤◌, true, false, some, none, List, String, contains,
  arith, ok, err, Option-cases,
}
use brasaland_digital.AuthVerify.{Claims, get_authorized_location_slugs}
use brasaland_digital.Inventory.Store.{
  Env, World, key_error, IngredientEntryCreate, IngredientExitCreate,
}
use brasaland_digital.Inventory.Orders.{
  location_id_to_slug, assert_authorized_location_id, require_authorized_location_id,
  create_inbound_order, create_outbound_order,
}

-- The location is in the catalogue, and the claims are an admin's or list its slug.
abbrev pub IsAuthorized : Claims → ℕ → Type 0
IsAuthorized claims location_id =
    (slug : String) × (location_id_to_slug location_id ≡ some slug)
    × ((claims.is_admin ≡ some true)
        ⊎ ((slugs : List String) × (claims.authorized_locations ≡ some slugs)
            × (contains slug slugs ≡ true)))

-- Claims give access to a location exactly when it is in the catalogue and they are an admin's or list
-- its slug.
pub assert_authorized_location_id_iff :
    (claims : Claims) (location_id : ℕ)
    → (assert_authorized_location_id claims location_id ≡ ok location_id)
      ↔ IsAuthorized claims location_id
unfolding assert_authorized_location_id get_authorized_location_slugs
assert_authorized_location_id_iff claims location_id = (
  λ h. elim (Option-cases (location_id_to_slug location_id)) [
    | inl unknown ↦ absurd (ground arith)
    | inr (slug, known) ↦ elim (Option-cases claims.is_admin) [
      | inr (true, admin) ↦ (slug, known, inl admin)
      | inr (false, admin) ↦ elim (Option-cases claims.authorized_locations) [
        | inl missing ↦ absurd (ground arith)
        | inr (slugs, listed) ↦ (slug, known, inr (slugs, listed, ground arith))
      ]
      | inl admin ↦ elim (Option-cases claims.authorized_locations) [
        | inl missing ↦ absurd (ground arith)
        | inr (slugs, listed) ↦ (slug, known, inr (slugs, listed, ground arith))
      ]
    ]
  ],
  λ h. ground arith,
)

slug_known :
    (location_id : ℕ) → 1 ≤ location_id → location_id ≤ 14 → location_id_to_slug location_id ≢ none
unfolding location_id_to_slug
slug_known location_id low high h = ground arith

slug_unknown :
    (location_id : ℕ)
    → (location_id < 1) ⊎ (14 < location_id)
    → location_id_to_slug location_id ≡ none
unfolding location_id_to_slug
slug_unknown location_id outside = ground arith

-- A location that a read request names never ends in a `KeyError`: it is refused with 422 or 403, or
-- served.
pub require_authorized_location_id_total :
    (claims : Claims) (location_id : ℕ)
    → require_authorized_location_id claims location_id ≢ err key_error
unfolding require_authorized_location_id assert_authorized_location_id
require_authorized_location_id_total claims location_id h = ground (arith, slug_known location_id)

-- An order for a location outside the catalogue ends in a `KeyError`, for any claims, and writes
-- nothing: the body of an order does not limit the location.
pub order_outside_catalogue :
    (env : Env) (now : ℕ) (user : String) (claims : Claims) (entry : IngredientEntryCreate)
    (exit : IngredientExitCreate) (w : World env)
    → 14 < entry.location_id
    → 14 < exit.location_id
    → (create_inbound_order env now user claims entry w ≡ (err key_error, w))
      × (create_outbound_order env now user claims exit w ≡ (err key_error, w))
unfolding create_inbound_order create_outbound_order assert_authorized_location_id
order_outside_catalogue env now user claims entry exit w far far' = (
  rw (slug_unknown entry.location_id (inr far)) refl,
  rw (slug_unknown exit.location_id (inr far')) refl,
)
