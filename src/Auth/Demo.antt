-- ===== src/Auth/Demo.antt =====
-- A small environment in which the code of the auth service runs on concrete data: tables as lists,
-- a password as its own hash, and a token that carries its key and its claims.
use brasaland_digital.Base.{
  ℕ, ◌≤◌, ◌<◌, ◌≡◌, true, false, ◌&&◌, Option, some, none, [], ◌∷◌, String, ◌==◌, leb, decimal,
  if◌then◌else◌, arith, list_table, eq_refl,
}
use brasaland_digital.AuthVerify.{Claims, Jwt, JwtLaws}
use brasaland_digital.Auth.Store.{UserRecord, RefreshTokenRecord, Env, World, Settings}
use brasaland_digital.Auth.Accounts.{Profile}

pub data Signed : Type 0 where
  signed : String → Claims → Signed

abbrev opened : String → ℕ → Signed → Option Claims
opened key now (signed k c) = if k == key && leb now c.exp then some c else none

abbrev pub demo_jwt : Jwt
demo_jwt = record {
  Token = Signed;
  encode = λ key algorithm c. signed key c;
  decode = λ key algorithm now t. opened key now t;
}

pub one_payload_lem :
    (key : String) (now later : ℕ) (token : Signed) (c d : Claims)
    → opened key now token ≡ some c
    → opened key later token ≡ some d
    → c ≡ d
one_payload_lem key now later (signed k e) c d h h' = ground arith

pub live_lem :
    (key : String) (now : ℕ) (c : Claims) → now ≤ c.exp → opened key now (signed key c) ≡ some c
live_lem key now c h = ground (arith, eq_refl key)

pub expired_lem :
    (key : String) (now : ℕ) (c : Claims) → c.exp < now → opened key now (signed key c) ≡ none
expired_lem key now c h = ground (arith, eq_refl key)

abbrev pub demo_laws : (key algorithm : String) → JwtLaws demo_jwt key key algorithm
demo_laws key algorithm = record {
  one_payload = one_payload_lem key;
  live = live_lem key;
  expired = expired_lem key;
}

abbrev digest : Signed → String
digest (signed k c) = elim c.jti [ none ↦ "-" | some j ↦ j ]

abbrev pub demo_settings : Settings
demo_settings = record {
  jwt_private_key = "key";
  verify = record { jwt_public_key = "key"; jwt_algorithm = "ES256" };
  access_token_expire_minutes = 30;
  reset_token_expire_minutes = 15;
  refresh_token_expire_minutes = 600;
  allow_self_register = "";
  bootstrap_admin_email = "root@brasaland.co";
  bootstrap_admin_password = "secret";
  mcp_client_id = "mcp";
  mcp_client_secret = "hidden";
  mcp_user_email = "mcp@brasaland.co";
  website_client_id = "";
  website_client_secret = "";
  website_user_email = "";
}

abbrev pub demo : Env
demo = record {
  users = list_table UserRecord;
  tokens = list_table RefreshTokenRecord;
  jwt = demo_jwt;
  settings = demo_settings;
  lower = λ s. s;
  hash_password = λ draw password. password;
  verify_password = λ password hashed. password == hashed;
  sha256 = digest;
  token_urlsafe = decimal;
}

abbrev pub ana : UserRecord
ana = record {
  id = 1;
  email = "ana@brasaland.co";
  hashed_password = "clave";
  is_active = true;
  is_admin = false;
  created_at = 0;
  reset_token_hash = none;
  reset_token_expires = none;
  name = some "Ana";
  phone = some "";
  address = some "";
  authorized_locations = some ("miami_kendall" ∷ []);
}

abbrev pub empty_world : World demo
empty_world = record { users = []; tokens = []; draws = 0 }

abbrev pub world_of : UserRecord → World demo
world_of user = record { users = user ∷ []; tokens = []; draws = 0 }

abbrev pub staff : Profile
staff = record {
  is_admin = false;
  name = "Leo";
  phone = "";
  address = "";
  authorized_locations = some ("cali_granada" ∷ []);
}
