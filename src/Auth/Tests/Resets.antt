-- ===== src/Auth/Tests/Resets.antt =====
-- The theorems on the reset of a password at concrete inputs, in the demo environment.
use brasaland_digital.Base.{ℕ, ◌≡◌, refl, some, none, strip, ok, err, All, List, [], ◌∷◌}
use brasaland_digital.AuthVerify.{Claims, verify_token}
use brasaland_digital.Auth.Store.{World, Error}
use brasaland_digital.Auth.Users.{get_user_by_email, get_user_by_id, normalize_user}
use brasaland_digital.Auth.Users
use brasaland_digital.Auth.Accounts.{normalize_email}
use brasaland_digital.Auth.Sessions.{
  no_claims, send_reset, request_password_reset, reset_password, decode_access_token,
  user_id_from_token_payload, replace_password,
}
use brasaland_digital.Auth.Tokens.{revoke_all_for_user}
use brasaland_digital.Auth.Reset.{IsReset, IsEnded, reset_password_lem}
use brasaland_digital.Auth.Reset.Once.{reset_once}
use brasaland_digital.Auth.Calls.{Call, resets, updates_profile, run}
use brasaland_digital.Auth.Demo.{Signed, signed, demo, demo_laws, ana, world_of}

-- Ana asks for a reset, and gets the token.
abbrev asked : World demo
asked = (request_password_reset demo 0 "ana@brasaland.co" (world_of ana)).1

abbrev reset_token : Signed
reset_token = elim (request_password_reset demo 0 "ana@brasaland.co" (world_of ana)).0 [
  | ok (some t) ↦ t
  | ok none ↦ signed "" no_claims
  | err e ↦ signed "" no_claims
]

token_resets : (reset_password demo 60 reset_token "nueva" asked).0 ≡ ok tt
unfolding reset_password verify_token request_password_reset get_user_by_email send_reset
    normalize_email strip Users.update_user normalize_user user_id_from_token_payload
    Users.apply_fields replace_password revoke_all_for_user
token_resets = refl

reset_password_lem_example :
    let v = (reset_password demo 60 reset_token "nueva" asked).1 in
    (payload : Claims) × (user_id : ℕ) × ((decode_access_token demo 60 reset_token asked).0
      ≡ ok payload)
    × (user_id_from_token_payload payload ≡ ok (some user_id))
    × All (IsReset user_id (demo.hash_password asked.draws "nueva")) (demo.users.all v.users)
    × All (IsEnded user_id) (demo.tokens.all v.tokens)
reset_password_lem_example = reset_password_lem demo 60 reset_token "nueva" asked token_resets

-- The token is tried once more, and Ana changes her name.
abbrev meanwhile : List (ℕ × Call demo)
meanwhile =
    (70, resets reset_token "otra") ∷ (80, updates_profile ana.id (some "Ana María") none none) ∷ []

reset_once_example :
    let v = run demo meanwhile (reset_password demo 60 reset_token "nueva" asked).1 in
    (e : Error) × (reset_password demo 90 reset_token "otra" v ≡ (err e, v))
reset_once_example =
    reset_once demo (demo_laws "key" "ES256") 60 90 reset_token "nueva" "otra" asked token_resets
      meanwhile (refl, (refl, tt))

-- A request in the second of the first one makes the same token, which works again.
abbrev asked_again : World demo
asked_again =
    (request_password_reset demo 0 "ana@brasaland.co"
      (reset_password demo 0 reset_token "nueva" asked).1).1

token_resets_again : (reset_password demo 0 reset_token "otra" asked_again).0 ≡ ok tt
unfolding reset_password verify_token request_password_reset get_user_by_email send_reset
    normalize_email strip Users.update_user normalize_user user_id_from_token_payload
    Users.apply_fields replace_password revoke_all_for_user
token_resets_again = refl
