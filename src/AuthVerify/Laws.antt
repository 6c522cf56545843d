-- ===== src/AuthVerify/Laws.antt =====
-- What a service may conclude from a request that passes the dependencies of deps.py.
use brasaland_digital.Base.{
  ℕ, true, Option, none, some, List, String, ◌≡◌, refl, ◌↔◌, ◌⊎◌, contains, arith, ok,
}
use brasaland_digital.AuthVerify.{
  Claims, Jwt, Config, verify_token, verified_claims, get_verified_claims, identity,
  assert_active_location_authorized, require_admin,
}

module _ (jwt : Jwt) (config : Config) (now : ℕ) where
  -- A request passes with claims `c` exactly when it carries a token that verifies to `c` and `c`
  -- has no `type`: a refresh token or a reset token is never taken for an access token.
  pub get_verified_claims_iff :
      (token : Option jwt.Token) (c : Claims)
      → (get_verified_claims jwt config now token ≡ ok c) ↔ (
          (t : jwt.Token) × (token ≡ some t)
          × (verify_token jwt config now t ≡ ok c)
          × (c.token_type ≡ none))
  unfolding get_verified_claims verified_claims
  get_verified_claims_iff none c = (λ h. ground arith, λ h. ground arith)
  get_verified_claims_iff (some t) c =
      (λ h. (t, refl, ground arith, ground arith), λ h. ground arith)

  -- Admin rights come from a verified access token whose `is_admin` claim is true, and from
  -- nothing else: with any other request `require_admin` raises.
  pub require_admin_ok :
      (token : Option jwt.Token) (user : String)
      → require_admin jwt config now token ≡ ok user
      → (c : Claims) × (get_verified_claims jwt config now token ≡ ok c)
        × (c.is_admin ≡ some true)
        × (identity c ≡ ok user)
  unfolding require_admin
  require_admin_ok token user h = ground arith

-- The active location is accepted exactly when the token names it, and the token is an admin's or
-- lists it among its authorized locations.
pub assert_active_location_authorized_iff :
    (c : Claims) (slug : String)
    → (assert_active_location_authorized c ≡ ok slug) ↔ (
        (c.location_slug ≡ some slug)
        × ((c.is_admin ≡ some true)
            ⊎ ((slugs : List String) × (c.authorized_locations ≡ some slugs)
                × (contains slug slugs ≡ true))))
unfolding assert_active_location_authorized
assert_active_location_authorized_iff c slug = (λ h. ground arith, λ h. ground arith)
