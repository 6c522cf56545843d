-- ===== src/AuthVerify.antt =====
-- packages/auth-verify/brasaland_auth_verify/{verify,deps,location_claims}.py: what every service
-- does with a bearer token before it serves a request.
pub mod Laws
use brasaland_digital.Base.{
  ℕ, Bool, true, false, not, Option, none, some, List, [], ◌∷◌, String, ◌==◌, is_some, contains,
  is_blank, decimal, if◌then◌else◌, ◌≡◌, ◌≤◌, ◌<◌, Result, ok, err,
}
use brasaland_digital.Base.Results.{◌>>=◌, ◌>>◌, raise_if}

-- The claims of a token. A claim has the type that the auth service signs it with; `none` is a
-- claim that is not there. `exp` is in seconds.
pub record Claims : Type 0 where
  pub sub : Option String
  pub user_id : Option ℕ
  pub is_admin : Option Bool
  pub token_type : Option String
  pub jti : Option String
  pub location_slug : Option String
  pub authorized_locations : Option (List String)
  pub svc : Option String
  pub exp : ℕ

pub data Error : Type 0 where
  token_error : Error
  value_error : Error
  http_error : ℕ → String → Error

-- `jose.jwt`: `encode key algorithm claims` and `decode key algorithm now token`, where `none` is
-- the `JWTError` of a token that is not well formed, not signed by the key, or expired.
-- A `Token` is a text; `encode` gives one.
pub record Jwt : Type 1 where
  pub Token : Type 0
  pub encode : String → String → Claims → Token
  pub decode : String → String → ℕ → Token → Option Claims

-- What is relied on of JWTs: a token decodes to one payload whenever it decodes, and a token that is
-- encoded with the private key of a pair decodes with its public key until it expires, and not after.
pub record JwtLaws (jwt : Jwt) (private_key public_key algorithm : String) : Type 0 where
  pub one_payload :
      (now later : ℕ) (token : jwt.Token) (c d : Claims)
      → jwt.decode public_key algorithm now token ≡ some c
      → jwt.decode public_key algorithm later token ≡ some d
      → c ≡ d
  pub live :
      (now : ℕ) (c : Claims)
      → now ≤ c.exp
      → jwt.decode public_key algorithm now (jwt.encode private_key algorithm c) ≡ some c
  pub expired :
      (now : ℕ) (c : Claims)
      → c.exp < now
      → jwt.decode public_key algorithm now (jwt.encode private_key algorithm c) ≡ none

-- The process environment that the package reads; an empty key is one that is not set.
pub record Config : Type 0 where
  pub jwt_public_key : String
  pub jwt_algorithm : String

module _ (jwt : Jwt) (config : Config) (now : ℕ) where
  require_public_key : Result Error String
  require_public_key =
      if is_blank config.jwt_public_key then err value_error else ok config.jwt_public_key

  or_token_error : Option Claims → Result Error Claims
  or_token_error none = err token_error
  or_token_error (some claims) = ok claims

  unfoldable pub verify_token : jwt.Token → Result Error Claims
  unfolding require_public_key or_token_error
  verify_token token = do
    key ← require_public_key
    or_token_error (jwt.decode key config.jwt_algorithm now token)

  -- `except TokenError`: any other error goes on.
  as_unauthorized : Result Error Claims → Result Error Claims
  as_unauthorized (err token_error) = err (http_error 401 "Could not validate credentials")
  as_unauthorized r = r

  unfoldable pub verified_claims : jwt.Token → Result Error Claims
  unfolding as_unauthorized
  verified_claims token = do
    claims ← as_unauthorized (verify_token token)
    raise_if (is_some claims.token_type) (http_error 401 "Could not validate credentials")
    ok claims

  unfoldable pub get_verified_claims : Option jwt.Token → Result Error Claims
  get_verified_claims none = err (http_error 401 "Not authenticated")
  get_verified_claims (some token) = verified_claims token

-- `claims.get("user_id", claims.get("sub"))`, as a text.
user_or_subject : Option ℕ → Option String → Option String
user_or_subject (some n) subject = some (decimal n)
user_or_subject none subject = subject

or_unauthorized : Option String → Result Error String
or_unauthorized none = err (http_error 401 "Could not validate credentials")
or_unauthorized (some s) = ok s

unfoldable pub identity : Claims → Result Error String
unfolding user_or_subject or_unauthorized
identity claims = or_unauthorized (user_or_subject claims.user_id claims.sub)

-- `claims.get("is_admin") is True`, and `bool(claims.get("is_admin"))`.
unfoldable pub is_all_locations_admin : Claims → Bool
is_all_locations_admin claims = elim claims.is_admin [ none ↦ false | some b ↦ b ]

-- `none`: all locations.
unfoldable pub get_authorized_location_slugs : Claims → Option (List String)
unfolding is_all_locations_admin
get_authorized_location_slugs claims =
    if is_all_locations_admin claims
    then none
    else some (elim claims.authorized_locations [ none ↦ [] | some slugs ↦ slugs ])

unfoldable pub get_active_location_slug : Claims → Option String
get_active_location_slug claims = claims.location_slug

or_missing : Option String → Result Error String
or_missing none = err token_error
or_missing (some slug) = ok slug

unfoldable pub require_active_location_slug : Claims → Result Error String
unfolding get_active_location_slug or_missing
require_active_location_slug claims = or_missing (get_active_location_slug claims)

slug_among : String → Option (List String) → Result Error String
slug_among slug none = ok slug
slug_among slug (some authorized) = if contains slug authorized then ok slug else err token_error

unfoldable pub assert_active_location_authorized : Claims → Result Error String
unfolding require_active_location_slug slug_among is_all_locations_admin
    get_authorized_location_slugs
assert_active_location_authorized claims = do
  slug ← require_active_location_slug claims
  if is_all_locations_admin claims
      then ok slug
      else slug_among slug (get_authorized_location_slugs claims)

module _ (jwt : Jwt) (config : Config) (now : ℕ) where
  unfoldable pub get_current_user_uuid : Option jwt.Token → Result Error String
  get_current_user_uuid token = do
    claims ← get_verified_claims jwt config now token
    identity claims

  unfoldable pub get_optional_user_uuid : Option jwt.Token → Result Error (Option String)
  get_optional_user_uuid none = ok none
  get_optional_user_uuid (some token) = do
    claims ← verified_claims jwt config now token
    user ← identity claims
    ok (some user)

  unfoldable pub require_admin : Option jwt.Token → Result Error String
  unfolding is_all_locations_admin
  require_admin token = do
    claims ← get_verified_claims jwt config now token
    raise_if (not (is_all_locations_admin claims)) (http_error 403 "Admin privileges required")
    identity claims
