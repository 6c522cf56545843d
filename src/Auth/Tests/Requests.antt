-- ===== src/Auth/Tests/Requests.antt =====
-- The theorems on services/auth/app.py at concrete inputs, in the demo environment.
use brasaland_digital.Base.{◌≡◌, refl, ◌⊎◌, true, some, none, [], ◌∷◌, strip, ok, err}
use brasaland_digital.Auth.Locations.{normalize_authorized_locations}
use brasaland_digital.Auth.Store.{UserRecord, invalid_location_slug}
use brasaland_digital.Auth.Users.{normalize_user, get_user_by_id}
use brasaland_digital.Auth.Sessions.{
  no_claims, issue_access_token, resolve_active_user, user_id_from_token_payload,
}
use brasaland_digital.AuthVerify.{verify_token}
use brasaland_digital.Auth.Http.{
  unhandled, read_user, update_user_by_id, delete_user_by_id, post_user, get_users,
}
use brasaland_digital.Auth.Http.Guards.{
  IsOf, IsRefused, account_guard, admin_guard, unknown_slug_unhandled,
}
use brasaland_digital.Auth.Http.{auth_forgot_password, forgot_password_message}
use brasaland_digital.Auth.Http.Guards.{forgot_password_uniform}
use brasaland_digital.Auth.Demo.{Signed, signed, demo, ana, world_of, staff}

abbrev ana_access : Signed
ana_access = elim (issue_access_token demo 0 ana none (world_of ana)).0 [
  | ok t ↦ t
  | err e ↦ signed "" no_claims
]

abbrev root : UserRecord
root = record ana { is_admin = true; authorized_locations = none }

abbrev root_access : Signed
root_access = elim (issue_access_token demo 0 root none (world_of root)).0 [
  | ok t ↦ t
  | err e ↦ signed "" no_claims
]

root_resolves :
    (resolve_active_user demo 60 root_access (world_of root)).0 ≡ ok (some (normalize_user root))
unfolding resolve_active_user verify_token issue_access_token user_id_from_token_payload
    get_user_by_id normalize_user
root_resolves = refl

root_admin : (normalize_user root).is_admin ≡ true
unfolding normalize_user
root_admin = refl

unknown_slug : normalize_authorized_locations ("paris" ∷ []) ≡ err "paris"
unfolding normalize_authorized_locations strip
unknown_slug = refl

unknown_slug_unhandled_example :
    (update_user_by_id demo 60 root_access 1 none none (some ("paris" ∷ [])) (world_of root)).0
    ≡ err (unhandled (invalid_location_slug "paris"))
unknown_slug_unhandled_example =
    unknown_slug_unhandled demo 60 root_access 1 none none ("paris" ∷ []) "paris"
      (normalize_user root) (world_of root) root_resolves root_admin unknown_slug

account_guard_example :
    IsOf demo 60
      (λ requester. (requester.id ≡ 2) ⊎ (requester.is_admin ≡ true))
      ana_access
      (world_of ana)
    ⊎ (IsRefused (read_user demo 60 ana_access 2) (world_of ana)
        × IsRefused (update_user_by_id demo 60 ana_access 2 none (some "new") none) (world_of ana)
        × IsRefused (delete_user_by_id demo 60 ana_access 2) (world_of ana))
account_guard_example = account_guard demo 60 ana_access 2 none (some "new") none (world_of ana)

admin_guard_example :
    IsOf demo 60 (λ requester. requester.is_admin ≡ true) ana_access (world_of ana)
    ⊎ (IsRefused (post_user demo 60 ana_access "leo@brasaland.co" "pw" staff) (world_of ana)
        × IsRefused (get_users demo 60 ana_access) (world_of ana)
        × IsRefused
            (update_user_by_id demo 60 ana_access 1 none none (some ("cali_granada" ∷ [])))
            (world_of ana))
admin_guard_example =
    admin_guard demo 60 ana_access 1 none none ("cali_granada" ∷ []) "leo@brasaland.co" "pw" staff
      (world_of ana)

forgot_password_uniform_example :
    (auth_forgot_password demo 60 "nobody@brasaland.co" (world_of ana)).0
    ≡ ok forgot_password_message
forgot_password_uniform_example =
    forgot_password_uniform demo 60 "nobody@brasaland.co" (world_of ana) refl
