-- ===== src/Auth/Http/Guards.antt =====
-- Who may read, change and delete an account through services/auth/app.py.
use brasaland_digital.Base.{
  ℕ, ◌≡◌, ◌⊎◌, inl, inr, true, Option, some, List, String, eqb, arith, ok, err, Result-cases,
  Option-cases, Bool-cases,
}
use brasaland_digital.Auth.Store.{UserRecord, Env, World, invalid_location_slug}
use brasaland_digital.Auth.Users.{get_user_by_id}
use brasaland_digital.Auth.Accounts.{Profile, can_modify_user, build_update_fields}
use brasaland_digital.Auth.Locations.{normalize_authorized_locations}
use brasaland_digital.Auth.Sessions.{resolve_active_user}
use brasaland_digital.Base.{refl, none, false, is_blank, decimal, ◌/◌}
use brasaland_digital.Auth.Users.{Fields, no_fields, has_id, has_email, get_user_by_email}
use brasaland_digital.Auth.Users
use brasaland_digital.Auth.Accounts.{normalize_email}
use brasaland_digital.Auth.Sessions.{
  request_password_reset, send_reset, create_access_token, no_claims, password_reset, minutes_after,
  second,
}
use brasaland_digital.Auth.Http.{auth_forgot_password, forgot_password_message}
use brasaland_digital.Auth.Http.{
  HttpError, http_exception, unhandled, Handler, handling, get_current_user, require_admin_user,
  read_user, make_update, update_user_by_id, delete_user_by_id, post_user, get_users,
}

-- The handler answers with an error and writes nothing.
abbrev pub IsRefused : {env : Env} {A : Type 0} → Handler env A → World env → Type 0
IsRefused m w = (e : HttpError) × (m w ≡ (err e, w))

module _ (env : Env) (now : ℕ) where
  -- The token resolves to a user whose account is active and who has the property.
  abbrev pub IsOf : (UserRecord → Type 0) → env.jwt.Token → World env → Type 0
  IsOf P token w =
      (requester : UserRecord) × ((resolve_active_user env now token w).0 ≡ ok (some requester))
      × (requester.is_active ≡ true)
      × P requester

  resolve_state :
      (token : env.jwt.Token) (w : World env) → (resolve_active_user env now token w).1 ≡ w
  unfolding resolve_active_user get_user_by_id
  resolve_state token w = ground arith

  resolved_active :
      (token : env.jwt.Token) (w : World env) (requester : UserRecord)
      → (resolve_active_user env now token w).0 ≡ ok (some requester)
      → requester.is_active ≡ true
  unfolding resolve_active_user get_user_by_id
  resolved_active token w requester h = ground arith

  -- The token resolves to a user, or every handler that asks for the current user is refused.
  current_cases :
      (token : env.jwt.Token) (w : World env)
      → ((requester : UserRecord) × ((resolve_active_user env now token w).0 ≡ ok (some requester))
          × (get_current_user env now token w ≡ (ok requester, w)))
        ⊎ IsRefused (get_current_user env now token) w
  unfolding get_current_user handling
  current_cases token w =
      let state = resolve_state token w in
      elim (Result-cases (resolve_active_user env now token w).0) [
        | inr (e, failed) ↦ inr (unhandled e, ground arith)
        | inl (found, resolved) ↦ elim (Option-cases found) [
          | inl nobody ↦ inr (http_exception 401 "Could not validate credentials", ground arith)
          | inr (requester, who) ↦ inl (requester, ground arith, ground arith)
        ]
      ]

  -- An account is read, changed and deleted only with a token that resolves to a user whose account is
  -- active and who is the owner of the account or an admin: otherwise all three requests are answered
  -- with an error and write nothing.
  pub account_guard :
      (token : env.jwt.Token) (user_id : ℕ) (email password : Option String)
      (locations : Option (List String)) (w : World env)
      → IsOf (λ requester. (requester.id ≡ user_id) ⊎ (requester.is_admin ≡ true)) token w
        ⊎ (IsRefused (read_user env now token user_id) w
            × IsRefused (update_user_by_id env now token user_id email password locations) w
            × IsRefused (delete_user_by_id env now token user_id) w)
  unfolding read_user update_user_by_id delete_user_by_id can_modify_user
  account_guard token user_id email password locations w = elim (current_cases token w) [
    | inr (e, refused) ↦ inr ((e, ground arith), (e, ground arith), (e, ground arith))
    | inl (requester, resolved, current) ↦ elim (Bool-cases (eqb requester.id user_id)) [
      | inl own ↦
          inl (requester, resolved, resolved_active token w requester resolved, inl (ground arith))
      | inr other ↦ elim (Bool-cases requester.is_admin) [
        | inl admin ↦
            inl (requester, resolved, resolved_active token w requester resolved, inr admin)
        | inr plain ↦ inr (
          (http_exception 403 "Not allowed to view this user", ground arith),
          (http_exception 403 "Not allowed to update this user", ground arith),
          (http_exception 403 "Not allowed to delete this user", ground arith),
        )
      ]
    ]
  ]

  -- Accounts are created and listed, and assigned locations are changed, only with a token that resolves
  -- to an admin whose account is active: otherwise the requests are answered with an error and write
  -- nothing.
  pub admin_guard :
      (token : env.jwt.Token) (user_id : ℕ) (email password : Option String)
      (locations : List String) (new_email new_password : String) (profile : Profile)
      (w : World env)
      → IsOf (λ requester. requester.is_admin ≡ true) token w
        ⊎ (IsRefused (post_user env now token new_email new_password profile) w
            × IsRefused (get_users env now token) w
            × IsRefused (update_user_by_id env now token user_id email password (some locations)) w)
  unfolding post_user get_users update_user_by_id require_admin_user can_modify_user
  admin_guard token user_id email password locations new_email new_password profile w =
      elim (current_cases token w) [
        | inr (e, refused) ↦ inr ((e, ground arith), (e, ground arith), (e, ground arith))
        | inl (requester, resolved, current) ↦ elim (Bool-cases requester.is_admin) [
          | inl admin ↦ inl (requester, resolved, resolved_active token w requester resolved, admin)
          | inr plain ↦ elim (Bool-cases (eqb requester.id user_id)) [
            | inl own ↦ inr (
              (http_exception 403 "Admin privileges required", ground arith),
              (http_exception 403 "Admin privileges required", ground arith),
              (http_exception 403 "Admin privileges required", ground arith),
            )
            | inr other ↦ inr (
              (http_exception 403 "Admin privileges required", ground arith),
              (http_exception 403 "Admin privileges required", ground arith),
              (http_exception 403 "Not allowed to update this user", ground arith),
            )
          ]
        ]
      ]

  -- An admin's update with assigned locations that are not all canonical ends in an error that no
  -- handler catches: the update is not answered with the 400 that the creation of an account gives.
  pub unknown_slug_unhandled :
      (token : env.jwt.Token) (user_id : ℕ) (email password : Option String)
      (locations : List String) (slug : String) (requester : UserRecord) (w : World env)
      → (resolve_active_user env now token w).0 ≡ ok (some requester)
      → requester.is_admin ≡ true
      → normalize_authorized_locations locations ≡ err slug
      → (update_user_by_id env now token user_id email password (some locations) w).0
        ≡ err (unhandled (invalid_location_slug slug))
  unfolding update_user_by_id get_current_user handling can_modify_user make_update
      build_update_fields
  unknown_slug_unhandled token user_id email password locations slug requester w resolved admin
        unknown =
      let state = resolve_state token w in
      elim (Option-cases password) [ inl kept ↦ ground arith | inr (new, given) ↦ ground arith ]

  stored_cases :
      (user_id : ℕ) (f : Fields) (w : World env)
      → (r : Option UserRecord) × ((Users.update_user env user_id f w).0 ≡ ok r)
  unfolding Users.update_user get_user_by_id
  stored_cases user_id f w = elim (Bool-cases (env.users.holds (has_id user_id) w.users)) [
    | inl known ↦
        let w1 : World env = record w {
          users = (env.users.update (Users.apply_fields f) (has_id user_id) w.users).0;
        } in
        (elim (get_user_by_id env user_id w1).0 [ ok r ↦ r | err e ↦ none ], rw known refl)
    | inr unknown ↦ (none, rw unknown refl)
  ]

  abbrev reset_token : UserRecord → env.jwt.Token
  reset_token user =
      env.jwt.encode env.settings.jwt_private_key env.settings.verify.jwt_algorithm
        (record no_claims {
          sub = some (decimal user.id);
          user_id = some user.id;
          token_type = some password_reset;
          exp = minutes_after now env.settings.reset_token_expire_minutes / second;
        })

  send_reset_returns :
      (found : Option UserRecord) (w : World env)
      → is_blank env.settings.jwt_private_key ≡ false
      → (r : Option env.jwt.Token) × ((send_reset env now found w).0 ≡ ok r)
  unfolding send_reset create_access_token
  send_reset_returns none w key = (none, refl)
  send_reset_returns (some user) w key =
      let (q, stored) =
        stored_cases user.id
          (record no_fields {
            reset_token_hash = some (some (env.sha256 (reset_token user)));
            reset_token_expires =
                some (some (minutes_after now env.settings.reset_token_expire_minutes));
          })
          w in
      (some (reset_token user), ground (arith, key, stored))

  -- Where the private key is set, the answer to a forgotten password is the same for every email,
  -- registered or not.
  pub forgot_password_uniform :
      (email : String) (w : World env)
      → is_blank env.settings.jwt_private_key ≡ false
      → (auth_forgot_password env now email w).0 ≡ ok forgot_password_message
  unfolding auth_forgot_password handling request_password_reset get_user_by_email
  forgot_password_uniform email w key =
      let (r, sent) =
        send_reset_returns
          (elim (get_user_by_email env (normalize_email env email) w).0 [ ok u ↦ u | err e ↦ none ])
          w key in
      ground (arith, sent)
