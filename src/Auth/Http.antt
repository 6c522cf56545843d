-- ===== src/Auth/Http.antt =====
-- services/auth/app.py: the handlers that log in and that read or change accounts, with the status of
-- each error. A handler returns the account that its response shows.
pub mod Guards
use brasaland_digital.Base.{
  ℕ, Bool, false, not, ◌&&◌, ◌||◌, Option, some, none, List, String, is_some, is_empty,
  if◌then◌else◌, Result, ok, err,
}
use brasaland_digital.Base.Monad.{Action, ◌>>=◌, ◌>>◌, pure, raise, raise_if, unwrap, lift}
use brasaland_digital.Auth.Store.{
  UserRecord, Env, World, Auth, Error, email_already_exists, user_not_found, invalid_reset_token,
  invalid_refresh_token, no_location_assigned, location_not_authorized, invalid_location_slug,
  token_error, value_error,
}
use brasaland_digital.AuthVerify.{Claims}
use brasaland_digital.Auth.Users.{Fields}
use brasaland_digital.Auth.Accounts.{
  Profile, self_registration_enabled, register_user, authenticate_user, validate_login_location,
  resolve_login_locations, can_modify_user, build_update_fields, get_user, list_all_users,
  update_user, update_profile, delete_user,
}
use brasaland_digital.Auth.Sessions.{
  issue_token_pair, request_password_reset, reset_password, rotate_refresh_token,
  revoke_refresh_token, resolve_active_user, decode_access_token,
}
use brasaland_digital.Auth.Service.{issue_service_access_token}

-- `HTTPException`, or an error that no handler catches, which is answered with 500.
pub data HttpError : Type 0 where
  http_exception : ℕ → String → HttpError
  unhandled : Error → HttpError

abbrev pub Handler : Env → Type 0 → Type 0
Handler env A = Action HttpError (World env) A

-- The `except` clauses of the handlers: of `update_user_by_id`, of `create_user`, and of the handlers
-- that only look for an account.
abbrev pub update_error : Error → HttpError
update_error (email_already_exists email) = http_exception 400 "Email already registered"
update_error (invalid_location_slug slug) = http_exception 400 "Unknown location slug"
update_error (user_not_found user_id) = http_exception 404 "User not found"
update_error other = unhandled other

abbrev pub create_error : Error → HttpError
create_error (email_already_exists email) = http_exception 400 "Email already registered"
create_error (invalid_location_slug slug) = http_exception 400 "Unknown location slug"
create_error other = unhandled other

abbrev pub missing_error : Error → HttpError
missing_error (user_not_found user_id) = http_exception 404 "User not found"
missing_error other = unhandled other

abbrev pub email_error : Error → HttpError
email_error (email_already_exists email) = http_exception 400 "Email already registered"
email_error other = unhandled other

abbrev pub login_error : Error → HttpError
login_error no_location_assigned = http_exception 403 "No location assigned to this user"
login_error (location_not_authorized slug) =
    http_exception 403 "Location not authorized for this user"
login_error (invalid_location_slug slug) = http_exception 400 "Unknown location slug"
login_error other = unhandled other

abbrev pub refresh_http_error : Error → HttpError
refresh_http_error invalid_refresh_token = http_exception 401 "Invalid or expired refresh token"
refresh_http_error other = unhandled other

abbrev pub forgot_password_message : String
forgot_password_message = "If that email is registered, a reset link has been sent."

abbrev pub reset_error : Error → HttpError
reset_error invalid_reset_token = http_exception 400 "Invalid or expired reset token"
reset_error token_error = http_exception 400 "Invalid or expired reset token"
reset_error other = unhandled other

-- `try: ... except: raise HTTPException(...)`
unfoldable pub handling :
    {env : Env} {A : Type 0} → (Error → HttpError) → Auth env A → Handler env A
handling catch action w =
    let (r, w') = action w in (elim r [ ok a ↦ ok a | err e ↦ err (catch e) ], w')

module _ (env : Env) (now : ℕ) where
  unfoldable pub get_current_user : env.jwt.Token → Handler env UserRecord
  get_current_user token = do
    user ← handling unhandled (resolve_active_user env now token)
    unwrap user (http_exception 401 "Could not validate credentials")

  unfoldable pub require_admin_user : env.jwt.Token → Handler env UserRecord
  require_admin_user token = do
    user ← get_current_user token
    raise_if (not user.is_admin) (http_exception 403 "Admin privileges required")
    pure user

  unfoldable pub auth_register :
      String → String → String → String → String → Handler env (env.jwt.Token × env.jwt.Token)
  auth_register email password name phone address = do
    raise_if (not (self_registration_enabled env))
        (http_exception 403 "Self-registration is disabled")
    user ← handling email_error (
        register_user env now email password (record {
          is_admin = false;
          name = name;
          phone = phone;
          address = address;
          authorized_locations = none;
        }))
    handling unhandled (issue_token_pair env now user none)

  unfoldable pub auth_login : String → String → String → Handler env (env.jwt.Token × env.jwt.Token)
  auth_login username password location_slug = do
    found ← handling unhandled (authenticate_user env username password)
    user ← unwrap found (http_exception 401 "Incorrect email or password")
    slug ← handling login_error (lift (validate_login_location user location_slug))
    handling unhandled (issue_token_pair env now user (some slug))

  unfoldable pub auth_login_authorized_locations : String → String → Handler env (List String)
  auth_login_authorized_locations email password = do
    found ← handling unhandled (authenticate_user env email password)
    user ← unwrap found (http_exception 401 "Incorrect email or password")
    raise_if (not user.is_admin && is_empty (resolve_login_locations user))
        (http_exception 403 "No location assigned to this user")
    pure (resolve_login_locations user)

  unfoldable pub auth_service_token : String → String → Handler env (env.jwt.Token × ℕ)
  auth_service_token username password = do
    issued ← handling unhandled (issue_service_access_token env now username password)
    unwrap issued (http_exception 401 "Invalid service credentials")

  -- The active location of the new access token; a `TokenError` is passed over.
  unfoldable pub slug_of_token : Result Error Claims → Handler env (Option String)
  slug_of_token (ok payload) = pure payload.location_slug
  slug_of_token (err token_error) = pure none
  slug_of_token (err other) = raise (unhandled other)

  unfoldable pub auth_refresh :
      env.jwt.Token → Handler env (env.jwt.Token × env.jwt.Token × Option String)
  auth_refresh token = do
    pair ← handling refresh_http_error (rotate_refresh_token env now token)
    slug ← λ w. slug_of_token (decode_access_token env now pair.0 w).0 w
    pure (pair.0, pair.1, slug)

  -- The email is sent by a mail server; no error of it reaches the answer.
  unfoldable pub auth_forgot_password : String → Handler env String
  auth_forgot_password email = do
    _ ← handling unhandled (request_password_reset env now email)
    pure forgot_password_message

  unfoldable pub auth_logout : env.jwt.Token → Handler env (Unit {0})
  auth_logout token = handling unhandled (revoke_refresh_token env now token)

  unfoldable pub auth_reset_password : env.jwt.Token → String → Handler env (Unit {0})
  auth_reset_password token new_password =
      handling reset_error (reset_password env now token new_password)

  unfoldable pub put_profile_me :
      env.jwt.Token → Option String → Option String → Option String → Handler env UserRecord
  put_profile_me token name phone address = do
    user ← get_current_user token
    handling unhandled (update_profile env user.id name phone address)

  unfoldable pub post_user : env.jwt.Token → String → String → Profile → Handler env UserRecord
  post_user token email password profile = do
    _ ← require_admin_user token
    handling create_error (register_user env now email password profile)

  unfoldable pub get_users : env.jwt.Token → Handler env (List UserRecord)
  get_users token = do _ ← require_admin_user token; handling unhandled (list_all_users env)

  unfoldable pub read_user : env.jwt.Token → ℕ → Handler env UserRecord
  read_user token user_id = do
    current ← get_current_user token
    raise_if (not (can_modify_user current user_id))
        (http_exception 403 "Not allowed to view this user")
    handling missing_error (get_user env user_id)

  -- `if not fields`
  no_changes : Option String → Option String → Option (List String) → Bool
  no_changes email password locations = not (is_some email || is_some password || is_some locations)

  -- `update_user_by_id` once the requester may make the change.
  unfoldable pub make_update :
      ℕ → Option String → Option String → Option (List String) → Handler env UserRecord
  unfolding no_changes
  make_update user_id email password locations =
      handling unhandled (build_update_fields env email password locations) >>= λ fields.
      if no_changes email password locations
      then handling missing_error (get_user env user_id)
      else handling update_error (update_user env user_id fields)

  unfoldable pub update_user_by_id :
      env.jwt.Token
      → ℕ
      → Option String
      → Option String
      → Option (List String)
      → Handler env UserRecord
  update_user_by_id token user_id email password locations = do
    current ← get_current_user token
    raise_if (not (can_modify_user current user_id))
        (http_exception 403 "Not allowed to update this user")
    raise_if (is_some locations && not current.is_admin)
        (http_exception 403 "Admin privileges required")
    make_update user_id email password locations

  unfoldable pub delete_user_by_id : env.jwt.Token → ℕ → Handler env (Unit {0})
  delete_user_by_id token user_id = do
    current ← get_current_user token
    raise_if (not (can_modify_user current user_id))
        (http_exception 403 "Not allowed to delete this user")
    handling missing_error (delete_user env user_id)
