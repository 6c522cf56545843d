-- ===== src/Auth/Sessions.antt =====
-- services/auth/auth/service.py and security.py: access, refresh and reset tokens. The clock is read
-- once in a call of the service: all `datetime.now` of the call give `now`.
use brasaland_digital.Base.{
  ℕ, suc, ◌+◌, ◌*◌, ◌/◌, Bool, false, not, Option, some, none, List, String, ◌==◌, leb, is_some,
  is_blank, decimal, int_of, if◌then◌else◌, Result, ok, err,
}
use brasaland_digital.Base.Monad.{◌>>=◌, ◌>>◌, pure, raise, raise_if, unwrap, lift}
use brasaland_digital.AuthVerify.{Claims, verify_token}
use brasaland_digital.AuthVerify
use brasaland_digital.Auth.Store.{
  UserRecord, RefreshTokenRecord, Env, Auth, Error, invalid_reset_token, invalid_refresh_token,
  no_location_assigned, location_not_authorized, token_error, value_error,
}
use brasaland_digital.Auth.Users.{no_fields, get_user_by_id, get_user_by_email}
use brasaland_digital.Auth.Users
use brasaland_digital.Auth.Tokens.{create_refresh_token, get_by_hash, revoke, revoke_all_for_user}
use brasaland_digital.Auth.Accounts.{
  normalize_email, hash_password, user_authorized_locations, validate_login_location,
}

abbrev pub second : ℕ
second = 1000000

abbrev pub minutes_after : ℕ → ℕ → ℕ
minutes_after now minutes = now + minutes * (60 * second)

abbrev pub no_claims : Claims
no_claims = record {
  sub = none;
  user_id = none;
  is_admin = none;
  token_type = none;
  jti = none;
  location_slug = none;
  authorized_locations = none;
  svc = none;
  exp = 0;
}

abbrev pub password_reset : String
password_reset = "password_reset"

abbrev pub refresh : String
refresh = "refresh"

-- `payload.get("type") == name`
abbrev pub is_type : String → Claims → Bool
is_type name c = elim c.token_type [ none ↦ false | some t ↦ t == name ]

abbrev as_error : Result AuthVerify.Error Claims → Result Error Claims
as_error (ok claims) = ok claims
as_error (err AuthVerify.token_error) = err token_error
as_error (err other) = err value_error

user_id_of_subject : Option String → Result Error (Option ℕ)
user_id_of_subject none = ok none
user_id_of_subject (some subject) = elim (int_of subject) [
  | none ↦ err value_error
  | some n ↦ ok (some n)
]

user_id_of : Option ℕ → Option String → Result Error (Option ℕ)
unfolding user_id_of_subject
user_id_of (some user_id) subject = ok (some user_id)
user_id_of none subject = user_id_of_subject subject

unfoldable pub user_id_from_token_payload : Claims → Result Error (Option ℕ)
unfolding user_id_of
user_id_from_token_payload payload = user_id_of payload.user_id payload.sub

-- `except TokenError: raise InvalidRefreshTokenError`
refresh_error : Result Error Claims → Result Error Claims
refresh_error (err token_error) = err invalid_refresh_token
refresh_error r = r

-- `except (NoLocationAssignedError, LocationNotAuthorizedError): raise InvalidRefreshTokenError`
scope_error : Result Error String → Result Error String
scope_error (err no_location_assigned) = err invalid_refresh_token
scope_error (err (location_not_authorized slug)) = err invalid_refresh_token
scope_error r = r

still_authorized : UserRecord → Option String → Result Error (Option String)
unfolding scope_error
still_authorized user none = ok none
still_authorized user (some slug) = elim (scope_error (validate_login_location user slug)) [
  | ok s ↦ ok (some slug)
  | err e ↦ err e
]

active_only : Option UserRecord → Option UserRecord
active_only none = none
active_only (some user) = if user.is_active then some user else none

-- `hmac.compare_digest` with a digest that may be missing.
is_digest : Option String → String → Bool
is_digest none digest = false
is_digest (some stored) digest = digest == stored

module _ (env : Env) (now : ℕ) where
  unfoldable pub create_access_token : Claims → ℕ → Auth env env.jwt.Token
  create_access_token claims minutes = do
    raise_if (is_blank env.settings.jwt_private_key) value_error
    pure (
        env.jwt.encode env.settings.jwt_private_key env.settings.verify.jwt_algorithm
          (record claims { exp = minutes_after now minutes / second }))

  unfoldable pub decode_access_token : env.jwt.Token → Auth env Claims
  decode_access_token token =
      lift (as_error (verify_token env.jwt env.settings.verify (now / second) token))

  unfoldable pub login_claims : UserRecord → Option String → Result Error Claims
  login_claims user none = ok (record no_claims {
    sub = some (decimal user.id);
    user_id = some user.id;
    is_admin = some user.is_admin;
  })
  login_claims user (some slug) = elim (validate_login_location user slug) [
    | err e ↦ err e
    | ok normalized ↦ ok (record no_claims {
      sub = some (decimal user.id);
      user_id = some user.id;
      is_admin = some user.is_admin;
      location_slug = some normalized;
      authorized_locations =
          some (if user.is_admin then List.[] else user_authorized_locations user);
    })
  ]

  unfoldable pub issue_access_token : UserRecord → Option String → Auth env env.jwt.Token
  unfolding login_claims create_access_token
  issue_access_token user location_slug = do
    claims ← lift (login_claims user location_slug)
    create_access_token claims env.settings.access_token_expire_minutes

  -- `secrets.token_urlsafe(16)`
  unfoldable pub draw_jti : Auth env String
  draw_jti w = (ok (env.token_urlsafe w.draws), record w { draws = suc w.draws })

  unfoldable pub refresh_scope : UserRecord → Option String → Result Error (Option String)
  refresh_scope user none = ok none
  refresh_scope user (some slug) = elim (validate_login_location user slug) [
    | ok normalized ↦ ok (some normalized)
    | err e ↦ err e
  ]

  refresh_minutes : Option ℕ → ℕ
  refresh_minutes none = env.settings.refresh_token_expire_minutes
  refresh_minutes (some minutes) = minutes

  unfoldable pub issue_refresh_token :
      UserRecord → Option String → Option ℕ → Auth env env.jwt.Token
  unfolding refresh_minutes draw_jti refresh_scope create_access_token
  issue_refresh_token user location_slug expires_minutes = do
    let minutes = refresh_minutes expires_minutes
    jti ← draw_jti
    scope ← lift (refresh_scope user location_slug)
    token ←
        create_access_token
          (record no_claims {
            sub = some (decimal user.id);
            user_id = some user.id;
            token_type = some refresh;
            jti = some jti;
            location_slug = scope;
          })
          minutes
    _ ← create_refresh_token env (record {
      user_id = user.id;
      token_hash = env.sha256 token;
      expires_at = minutes_after now minutes;
      revoked = false;
      created_at = now;
    })
    pure token

  unfoldable pub issue_token_pair :
      UserRecord → Option String → Auth env (env.jwt.Token × env.jwt.Token)
  unfolding issue_access_token issue_refresh_token
  issue_token_pair user location_slug = do
    access ← issue_access_token user location_slug
    renewal ← issue_refresh_token user location_slug none
    pure (access, renewal)

  -- `request_password_reset` for the user that has the email.
  unfoldable pub send_reset : Option UserRecord → Auth env (Option env.jwt.Token)
  unfolding create_access_token
  send_reset none = pure none
  send_reset (some user) = do
    let minutes = env.settings.reset_token_expire_minutes
    token ←
        create_access_token
          (record no_claims {
            sub = some (decimal user.id);
            user_id = some user.id;
            token_type = some password_reset;
          })
          minutes
    _ ← Users.update_user env user.id (record no_fields {
      reset_token_hash = some (some (env.sha256 token));
      reset_token_expires = some (some (minutes_after now minutes));
    })
    pure (some token)

  unfoldable pub request_password_reset : String → Auth env (Option env.jwt.Token)
  request_password_reset email = get_user_by_email env (normalize_email env email) >>= send_reset

  -- The writes of `reset_password`, once the token has been checked.
  unfoldable pub replace_password : ℕ → String → Auth env (Unit {0})
  unfolding hash_password
  replace_password user_id new_password = do
    hashed ← hash_password env new_password
    _ ← Users.update_user env user_id (record no_fields {
      hashed_password = some hashed;
      reset_token_hash = some none;
      reset_token_expires = some none;
    })
    _ ← revoke_all_for_user env user_id
    pure tt

  unfoldable pub reset_password : env.jwt.Token → String → Auth env (Unit {0})
  unfolding decode_access_token is_digest
  reset_password token new_password = do
    payload ← decode_access_token token
    raise_if (not (is_type password_reset payload)) invalid_reset_token
    found ← lift (user_id_from_token_payload payload)
    user_id ← unwrap found invalid_reset_token
    stored ← get_user_by_id env user_id
    user ← unwrap stored invalid_reset_token
    raise_if (not (is_digest user.reset_token_hash (env.sha256 token))) invalid_reset_token
    replace_password user_id new_password

  -- The checks of `rotate_refresh_token`: the stored row, the user and the location of the token.
  unfoldable pub check_refresh_token :
      env.jwt.Token → Auth env (RefreshTokenRecord × UserRecord × Option String)
  unfolding decode_access_token refresh_error still_authorized active_only
  check_refresh_token token = do
    payload ← λ w. (refresh_error (decode_access_token token w).0, w)
    raise_if (not (is_type refresh payload)) invalid_refresh_token
    found ← get_by_hash env (env.sha256 token)
    stored ← unwrap found invalid_refresh_token
    raise_if stored.revoked invalid_refresh_token
    raise_if (leb stored.expires_at now) invalid_refresh_token
    raise_if (not (env.sha256 token == stored.token_hash)) invalid_refresh_token
    identified ← lift (user_id_from_token_payload payload)
    user_id ← unwrap identified invalid_refresh_token
    loaded ← get_user_by_id env user_id
    user ← unwrap (active_only loaded) invalid_refresh_token
    scope ← lift (still_authorized user payload.location_slug)
    pure (stored, user, scope)

  -- The writes of `rotate_refresh_token`.
  unfoldable pub exchange :
      RefreshTokenRecord × UserRecord × Option String → Auth env (env.jwt.Token × env.jwt.Token)
  unfolding issue_token_pair
  exchange (stored, user, scope) = do _ ← revoke env stored.token_hash; issue_token_pair user scope

  unfoldable pub rotate_refresh_token : env.jwt.Token → Auth env (env.jwt.Token × env.jwt.Token)
  rotate_refresh_token token = check_refresh_token token >>= exchange

  revoke_stored : Option RefreshTokenRecord → Auth env (Unit {0})
  revoke_stored none = pure tt
  revoke_stored (some stored) = revoke env stored.token_hash >>= λ _. pure tt

  -- `TokenError` ends the call quietly; any other error of the decoding is raised.
  revoke_decoded : env.jwt.Token → Result Error Claims → Auth env (Unit {0})
  unfolding revoke_stored
  revoke_decoded token (err token_error) = pure tt
  revoke_decoded token (err other) = raise other
  revoke_decoded token (ok payload) =
      if not (is_type refresh payload)
      then pure tt
      else get_by_hash env (env.sha256 token) >>= revoke_stored

  unfoldable pub revoke_refresh_token : env.jwt.Token → Auth env (Unit {0})
  unfolding decode_access_token revoke_decoded
  revoke_refresh_token token w = revoke_decoded token (decode_access_token token w).0 w

  active_user_of : Option ℕ → Auth env (Option UserRecord)
  unfolding active_only
  active_user_of none = pure none
  active_user_of (some user_id) = do user ← get_user_by_id env user_id; pure (active_only user)

  resolve_decoded : Result Error Claims → Auth env (Option UserRecord)
  unfolding active_user_of
  resolve_decoded (err token_error) = pure none
  resolve_decoded (err other) = raise other
  resolve_decoded (ok payload) =
      if is_some payload.token_type
      then pure none
      else lift (user_id_from_token_payload payload) >>= active_user_of

  unfoldable pub resolve_active_user : env.jwt.Token → Auth env (Option UserRecord)
  unfolding decode_access_token resolve_decoded
  resolve_active_user token w = resolve_decoded (decode_access_token token w).0 w
