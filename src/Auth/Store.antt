-- ===== src/Auth/Store.antt =====
-- services/auth/auth/types.py, the records of the two tables, and what the service is given: its
-- environment, the data store (TinyDB), password hashing (passlib), digests and tokens (jose).
-- A datetime is its number of microseconds since 1970 in UTC; `isoformat` and `fromisoformat` of
-- such a datetime undo each other, so a stored timestamp is that number too.
use brasaland_digital.Base.{ℕ, Bool, Option, List, String, Table}
use brasaland_digital.Base.Monad.{Action}
use brasaland_digital.AuthVerify.{Jwt, Config}

pub record UserRecord : Type 0 where
  pub id : ℕ
  pub email : String
  pub hashed_password : String
  pub is_active : Bool
  pub is_admin : Bool
  pub created_at : ℕ
  pub reset_token_hash : Option String
  pub reset_token_expires : Option ℕ
  pub name : Option String
  pub phone : Option String
  pub address : Option String
  pub authorized_locations : Option (List String)

pub record RefreshTokenRecord : Type 0 where
  pub id : ℕ
  pub user_id : ℕ
  pub token_hash : String
  pub expires_at : ℕ
  pub revoked : Bool
  pub created_at : ℕ

-- `os.environ`: a text that is not set is empty, and a number that is not set has its default.
pub record Settings : Type 0 where
  pub jwt_private_key : String
  pub verify : Config
  pub access_token_expire_minutes : ℕ
  pub reset_token_expire_minutes : ℕ
  pub refresh_token_expire_minutes : ℕ
  pub allow_self_register : String
  pub bootstrap_admin_email : String
  pub bootstrap_admin_password : String
  pub mcp_client_id : String
  pub mcp_client_secret : String
  pub mcp_user_email : String
  pub website_client_id : String
  pub website_client_secret : String
  pub website_user_email : String

-- Libraries outside the repository. `lower` is `str.lower`; `hash_password` takes the number of the
-- random draw that gives the salt, and `token_urlsafe` that of the draw that gives the token.
pub record Env : Type 1 where
  pub users : Table UserRecord
  pub tokens : Table RefreshTokenRecord
  pub jwt : Jwt
  pub settings : Settings
  pub lower : String → String
  pub hash_password : ℕ → String → String
  pub verify_password : String → String → Bool
  pub sha256 : jwt.Token → String
  pub token_urlsafe : ℕ → String

pub data Error : Type 0 where
  email_already_exists : String → Error
  user_not_found : ℕ → Error
  invalid_reset_token : Error
  invalid_refresh_token : Error
  no_location_assigned : Error
  location_not_authorized : String → Error
  invalid_location_slug : String → Error
  token_error : Error
  value_error : Error

-- The database file, and the number of random draws so far.
pub record World (env : Env) : Type 0 where
  pub users : env.users.Tab
  pub tokens : env.tokens.Tab
  pub draws : ℕ

abbrev pub Auth : Env → Type 0 → Type 0
Auth env A = Action Error (World env) A
