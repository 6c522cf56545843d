-- ===== src/Auth/Tests.antt =====
-- The theorems on services/auth and packages/auth-verify at concrete inputs, in the demo environment.
pub mod Requests
pub mod Resets
use brasaland_digital.Base.{
  ℕ, ◌≡◌, refl, ◌↔◌, ◌⊎◌, true, some, none, List, [], ◌∷◌, String, arith, ok, err, contains, strip,
  eq_refl,
}
use brasaland_digital.AuthVerify.{
  Claims, verify_token, verified_claims, get_verified_claims, identity, require_admin,
  assert_active_location_authorized,
}
use brasaland_digital.AuthVerify.Laws.{
  get_verified_claims_iff, require_admin_ok, assert_active_location_authorized_iff,
}
use brasaland_digital.Base.{decimal, sorted}
use brasaland_digital.Auth.Locations.{sorted_canonical_slugs}
use brasaland_digital.Auth.Service.{client_credentials_match}
use brasaland_digital.Auth.Users.{create_user}
use brasaland_digital.Auth.Sessions.{create_access_token}
use brasaland_digital.Auth.Tokens.{create_refresh_token, get_by_hash, revoke}
use brasaland_digital.Auth.Sessions.{check_refresh_token, user_id_from_token_payload, exchange}
use brasaland_digital.Auth.Locations.{canonical_location_slugs, normalize_authorized_locations}
use brasaland_digital.Auth.Locations.Canonical.{IsNormal, normalize_authorized_locations_lem}
use brasaland_digital.Auth.Store.{UserRecord, World, invalid_refresh_token}
use brasaland_digital.Auth.Accounts.{
  user_authorized_locations, validate_login_location, register_user, authenticate_user,
  normalize_email,
}
use brasaland_digital.Auth.Users.{get_user_by_email, get_user_by_id, normalize_user}
use brasaland_digital.Auth.Sessions.{
  no_claims, issue_access_token, issue_refresh_token, issue_token_pair, rotate_refresh_token,
  resolve_active_user,
}
use brasaland_digital.Auth.Service.{issue_service_access_token}
use brasaland_digital.Auth.Calls.{registers, logs_in, logs_out, run}
use brasaland_digital.Auth.Invariant.{IsConsistent}
use brasaland_digital.Auth.Invariant.Calls.{run-IsConsistent}
use brasaland_digital.Auth.Revocation.Forever.{rotated_once}
use brasaland_digital.Auth.Login.{
  IsServed, validate_login_location_iff, service_token_needs, register_then_authenticate,
}
use brasaland_digital.Auth.Access.{resolve-issue, resolve-issue_refresh}
use brasaland_digital.Base.{find, false}
use brasaland_digital.Auth.Store.{RefreshTokenRecord}
use brasaland_digital.Auth.Tokens.{has_hash}
use brasaland_digital.Auth.Sessions.{is_type, refresh, decode_access_token, revoke_refresh_token}
use brasaland_digital.Auth.Revocation.Forever.{logged_out}
use brasaland_digital.Auth.Demo.{
  Signed, signed, demo, demo_jwt, demo_laws, demo_settings, ana, world_of, staff,
}

-- The pair that a login of Ana gives, and the database after it.
abbrev ana_logged_in : World demo
ana_logged_in = (issue_token_pair demo 0 ana none (world_of ana)).1

abbrev ana_refresh : Signed
ana_refresh = elim (issue_refresh_token demo 0 ana none none (world_of ana)).0 [
  | ok t ↦ t
  | err e ↦ signed "" no_claims
]

abbrev ana_access : Signed
ana_access = elim (issue_access_token demo 0 ana none (world_of ana)).0 [
  | ok t ↦ t
  | err e ↦ signed "" no_claims
]

abbrev ana_second : Signed × Signed
ana_second = elim (rotate_refresh_token demo 1 ana_refresh ana_logged_in).0 [
  | ok p ↦ p
  | err e ↦ (signed "" no_claims, signed "" no_claims)
]

ana_rotates : (rotate_refresh_token demo 1 ana_refresh ana_logged_in).0 ≡ ok ana_second
unfolding rotate_refresh_token issue_token_pair issue_refresh_token issue_access_token
    check_refresh_token verify_token create_refresh_token get_by_hash decimal
    user_id_from_token_payload get_user_by_id normalize_user exchange revoke
ana_rotates = refl

rotated_once_example :
    let v =
      run demo
        ((2, logs_in ana none) ∷ (3, logs_out ana_refresh) ∷ [])
        (rotate_refresh_token demo 1 ana_refresh ana_logged_in).1 in
    rotate_refresh_token demo 4 ana_refresh v ≡ (err invalid_refresh_token, v)
rotated_once_example =
    rotated_once demo 1 ana_refresh ana_logged_in ana_second ana_rotates
      ((2, logs_in ana none) ∷ (3, logs_out ana_refresh) ∷ []) 4

-- The claims of Ana's refresh token, and its row.
abbrev ana_payload : Claims
ana_payload = elim (decode_access_token demo 5 ana_refresh ana_logged_in).0 [
  | ok c ↦ c
  | err e ↦ no_claims
]

ana_decodes : (decode_access_token demo 5 ana_refresh ana_logged_in).0 ≡ ok ana_payload
unfolding decode_access_token verify_token issue_refresh_token create_refresh_token
ana_decodes = refl

abbrev ana_row : RefreshTokenRecord
ana_row = elim (find (has_hash (demo.sha256 ana_refresh)) ana_logged_in.tokens) [
  | some r ↦ r
  | none ↦ record {
    id = 0;
    user_id = 0;
    token_hash = "";
    expires_at = 0;
    revoked = false;
    created_at = 0;
  }
]

ana_stored : find (has_hash (demo.sha256 ana_refresh)) ana_logged_in.tokens ≡ some ana_row
unfolding issue_token_pair issue_refresh_token create_refresh_token issue_access_token decimal
ana_stored = refl

ana_kind : is_type refresh ana_payload ≡ true
unfolding decode_access_token verify_token issue_refresh_token create_refresh_token
ana_kind = refl

logged_out_example :
    let v =
      run demo
        ((6, logs_in ana none) ∷ [])
        (revoke_refresh_token demo 5 ana_refresh ana_logged_in).1 in
    rotate_refresh_token demo 7 ana_refresh v ≡ (err invalid_refresh_token, v)
logged_out_example =
    logged_out demo 5 ana_refresh ana_logged_in ana_payload ana_row ana_decodes ana_kind ana_stored
      ((6, logs_in ana none) ∷ []) 7

run-IsConsistent_example : IsConsistent demo (
    run demo
      ((1, registers "leo@brasaland.co" "x" staff)
        ∷ (2, registers "leo@brasaland.co" "y" staff)
        ∷ [])
      (world_of ana))
run-IsConsistent_example =
    run-IsConsistent demo
      ((1, registers "leo@brasaland.co" "x" staff)
        ∷ (2, registers "leo@brasaland.co" "y" staff)
        ∷ [])
      (world_of ana) (tt, tt)

ana_access_issued : (issue_access_token demo 0 ana none (world_of ana)).0 ≡ ok ana_access
unfolding issue_access_token
ana_access_issued = refl

resolve-issue_example :
    (resolve_active_user demo 60000000 ana_access (world_of ana)).0 ≡ ok (some (normalize_user ana))
resolve-issue_example =
    resolve-issue demo (demo_laws "key" "ES256") 0 60000000 ana ana none (world_of ana)
      (world_of ana) ana_access ana_access_issued refl (omega arith) refl refl

ana_refresh_issued : (issue_refresh_token demo 0 ana none none (world_of ana)).0 ≡ ok ana_refresh
unfolding issue_refresh_token create_refresh_token
ana_refresh_issued = refl

resolve-issue_refresh_example :
    (resolve_active_user demo 60000000 ana_refresh (world_of ana)).0 ≡ ok none
resolve-issue_refresh_example =
    resolve-issue_refresh demo (demo_laws "key" "ES256") 0 60000000 ana none (world_of ana)
      (world_of ana) ana_refresh ana_refresh_issued refl

validate_login_location_iff_example :
    (validate_login_location ana " miami_kendall" ≡ ok "miami_kendall") ↔ (
      (strip " miami_kendall" ≡ "miami_kendall")
      × (contains "miami_kendall" canonical_location_slugs ≡ true)
      × ((ana.is_admin ≡ true) ⊎ (contains "miami_kendall" (user_authorized_locations ana) ≡ true)))
validate_login_location_iff_example =
    validate_login_location_iff ana " miami_kendall" "miami_kendall"

-- The account of the MCP client, assigned everywhere.
abbrev mcp_user : UserRecord
mcp_user = record ana {
  id = 2;
  email = "mcp@brasaland.co";
  authorized_locations = some canonical_location_slugs;
}

abbrev mcp_issued : Signed × ℕ
mcp_issued = elim (issue_service_access_token demo 0 "mcp" "hidden" (world_of mcp_user)).0 [
  | ok (some t) ↦ t
  | ok none ↦ (signed "" no_claims, 0)
  | err e ↦ (signed "" no_claims, 0)
]

mcp_served :
    (issue_service_access_token demo 0 "mcp" "hidden" (world_of mcp_user)).0 ≡ ok (some mcp_issued)
unfolding issue_service_access_token client_credentials_match strip get_user_by_email
    normalize_email normalize_user user_authorized_locations sorted_canonical_slugs sorted
    create_access_token
mcp_served = refl

service_token_needs_example :
    IsServed demo "mcp" "hidden" "mcp" "hidden" "mcp@brasaland.co" (world_of mcp_user)
    ⊎ IsServed demo "mcp" "hidden" "" "" "" (world_of mcp_user)
service_token_needs_example =
    service_token_needs demo 0 "mcp" "hidden" (world_of mcp_user) mcp_issued mcp_served

abbrev leo : UserRecord
leo = elim (register_user demo 5 " leo@brasaland.co" "pw" staff (world_of ana)).0 [
  | ok u ↦ u
  | err e ↦ ana
]

leo_registers : (register_user demo 5 " leo@brasaland.co" "pw" staff (world_of ana)).0 ≡ ok leo
unfolding register_user get_user_by_email strip normalize_authorized_locations create_user
leo_registers = refl

register_then_authenticate_example :
    (authenticate_user demo " leo@brasaland.co" "pw"
      (register_user demo 5 " leo@brasaland.co" "pw" staff (world_of ana)).1).0
    ≡ ok (some leo)
register_then_authenticate_example =
    register_then_authenticate demo (λ draw password. eq_refl password) 5 " leo@brasaland.co" "pw"
      staff (world_of ana) leo leo_registers

-- The claims of an admin who works in Cali, and a token that carries them.
abbrev admin_claims : Claims
admin_claims = record no_claims {
  sub = some "7";
  user_id = some 7;
  is_admin = some true;
  location_slug = some "cali_granada";
  exp = 900;
}

get_verified_claims_iff_example :
    (get_verified_claims demo_jwt demo_settings.verify 5 (some (signed "key" admin_claims))
      ≡ ok admin_claims)
    ↔ ((t : Signed) × (some (signed "key" admin_claims) ≡ some t)
        × (verify_token demo_jwt demo_settings.verify 5 t ≡ ok admin_claims)
        × (admin_claims.token_type ≡ none))
get_verified_claims_iff_example =
    get_verified_claims_iff demo_jwt demo_settings.verify 5 (some (signed "key" admin_claims))
      admin_claims

admin_passes :
    require_admin demo_jwt demo_settings.verify 5 (some (signed "key" admin_claims)) ≡ ok "7"
unfolding require_admin get_verified_claims verified_claims verify_token identity decimal
admin_passes = refl

two_normalized :
    normalize_authorized_locations (" miami_kendall" ∷ "cali_granada" ∷ "miami_kendall" ∷ [])
    ≡ ok ("cali_granada" ∷ "miami_kendall" ∷ [])
unfolding normalize_authorized_locations strip sorted
two_normalized = refl

normalize_authorized_locations_example : IsNormal ("cali_granada" ∷ "miami_kendall" ∷ [])
normalize_authorized_locations_example =
    normalize_authorized_locations_lem (" miami_kendall" ∷ "cali_granada" ∷ "miami_kendall" ∷ [])
      ("cali_granada" ∷ "miami_kendall" ∷ []) two_normalized
