-- ===== src/Auth/Reset/Once.antt =====
-- A token for the reset of a password, in services/auth/auth/service.py, after it was used.
use brasaland_digital.Base.{
  ℕ, ◌≡◌, refl, sym, subst, inl, inr, ◌/◌, Bool, true, false, Option, some, none, is_some, List, [],
  ◌∷◌, String, eqb, arith, All, All-map, All-append, All-reject, find, update_where, ok, err,
  Result-cases, Bool-cases,
}
use brasaland_digital.AuthVerify.{JwtLaws}
use brasaland_digital.Auth.Store.{UserRecord, Env, World, Error, invalid_reset_token}
use brasaland_digital.Auth.Users.{
  Fields, no_fields, apply_fields, has_id, stored_user, create_user, NewUser, sorted_by_id,
  normalize_user, list_users, get_user_by_email, get_user_by_id,
}
use brasaland_digital.Auth.Users
use brasaland_digital.Auth.Accounts.{
  Profile, given_locations, create_account, register_user, ensure_bootstrap_admin, update_profile,
  register_first_admin, free_email, write_user, changed_locations,
}
use brasaland_digital.Auth.Accounts
use brasaland_digital.Auth.Tokens.{get_by_hash, revoke, revoke_all_for_user, create_refresh_token}
use brasaland_digital.Auth.Sessions.{
  second, decode_access_token, revoke_refresh_token, issue_token_pair, check_refresh_token,
  exchange, replace_password, reset_password, rotate_refresh_token,
}
use brasaland_digital.Auth.Calls.{
  Call, registers, bootstraps, updates, updates_profile, deletes, requests_reset, resets, logs_in,
  refreshes, logs_out, serve, run,
}
use brasaland_digital.Auth.Reset.{reset_password_lem, decoded_raw, decode_state, refused_unset}

-- The changes store a token for a reset.
abbrev pub stores_reset : Fields → Bool
stores_reset f = elim f.reset_token_hash [ none ↦ false | some digest ↦ is_some digest ]

-- The call may store a token for a reset: it requests one, or it changes an account in this field,
-- which no request to the service does.
abbrev pub asks_reset : {env : Env} → Call env → Bool
asks_reset (requests_reset email) = true
asks_reset (updates user_id fields) = stores_reset fields
asks_reset other = false

-- The account has no token for a reset, wherever it stands.
abbrev HasNone : ℕ → UserRecord → Type 0
HasNone user_id u = u.id ≡ user_id → u.reset_token_hash ≡ none

abbrev IsUnset : (env : Env) → ℕ → World env → Type 0
IsUnset env user_id w = All (HasNone user_id) (env.users.all w.users)

update_where-HasNone :
    (user_id : ℕ) (f : Fields) (p : UserRecord → Bool) (rows : List UserRecord)
    → stores_reset f ≡ false
    → All (HasNone user_id) rows
    → All (HasNone user_id) (update_where (apply_fields f) p rows)
unfolding apply_fields
update_where-HasNone user_id f p [] kept h = tt
update_where-HasNone user_id f p (u ∷ us) kept (here, there) =
    (λ same. ground (arith, here), update_where-HasNone user_id f p us kept there)

find-HasNone :
    (k : ℕ) (rows : List UserRecord) (u : UserRecord)
    → All (HasNone k) rows
    → find (has_id k) rows ≡ some u
    → u.reset_token_hash ≡ none
find-HasNone k [] u h e = absurd (ground arith)
find-HasNone k (x ∷ xs) u (here, there) e = elim (Bool-cases (eqb x.id k)) [
  | inl own ↦ let gone = here (ground arith) in ground arith
  | inr other ↦ find-HasNone k xs u there (ground arith)
]

module _ (env : Env) (k : ℕ) where
  create_user-IsUnset :
      (r : NewUser) (w : World env) → IsUnset env k w → IsUnset env k (create_user env r w).1
  unfolding create_user stored_user
  create_user-IsUnset r w u =
      subst (All (HasNone k)) (sym (env.users.all-insert _ w.users))
        (All-append (HasNone k) (env.users.all w.users) _ u ((λ same. refl), tt))

  update_user-IsUnset :
      (user_id : ℕ) (f : Fields) (w : World env)
      → stores_reset f ≡ false
      → IsUnset env k w
      → IsUnset env k (Users.update_user env user_id f w).1
  unfolding Users.update_user
  update_user-IsUnset user_id f w kept u =
      elim (Bool-cases (env.users.holds (has_id user_id) w.users)) [
        | inl known ↦ rw known (
            subst (All (HasNone k))
              (sym (env.users.all-update (apply_fields f) (has_id user_id) w.users))
              (update_where-HasNone k f (has_id user_id) (env.users.all w.users) kept u))
        | inr unknown ↦ rw unknown u
      ]

  delete-IsUnset :
      (user_id : ℕ) (w : World env)
      → IsUnset env k w
      → IsUnset env k (Accounts.delete_user env user_id w).1
  unfolding Accounts.delete_user Users.delete_user
  delete-IsUnset user_id w u =
      let left =
        subst (All (HasNone k)) (sym (env.users.all-remove (has_id user_id) w.users))
          (All-reject (HasNone k) (has_id user_id) (env.users.all w.users) u) in
      ground arith

  register-IsUnset :
      (now : ℕ) (email password : String) (profile : Profile) (w : World env)
      → IsUnset env k w
      → IsUnset env k (register_user env now email password profile w).1
  unfolding register_user get_user_by_email create_account
  register-IsUnset now email password profile w u =
      elim (Result-cases (given_locations profile.authorized_locations)) [
        | inr (e, unknown) ↦ ground arith
        | inl (slugs, known) ↦ grind (arith, create_user-IsUnset)
      ]

  bootstrap-IsUnset :
      (now : ℕ) (w : World env)
      → IsUnset env k w
      → IsUnset env k (ensure_bootstrap_admin env now w).1
  unfolding ensure_bootstrap_admin list_users register_first_admin
  bootstrap-IsUnset now w u = grind (arith, register-IsUnset)

  account_update-IsUnset :
      (user_id : ℕ) (f : Fields) (w : World env)
      → stores_reset f ≡ false
      → IsUnset env k w
      → IsUnset env k (Accounts.update_user env user_id f w).1
  unfolding Accounts.update_user get_user_by_email write_user
  account_update-IsUnset user_id f w kept u =
      elim (Result-cases (changed_locations f.authorized_locations)) [
        | inr (e, unknown) ↦ ground arith
        | inl (slugs, known) ↦ grind (arith, update_user-IsUnset)
      ]

  profile-IsUnset :
      (user_id : ℕ) (name phone address : Option String) (w : World env)
      → IsUnset env k w
      → IsUnset env k (update_profile env user_id name phone address w).1
  unfolding update_profile get_user_by_id
  profile-IsUnset user_id name phone address w u = ground (
    arith,
    update_user-IsUnset user_id (record no_fields { name = name; phone = phone; address = address })
        w refl u,
  )

  replace-IsUnset :
      (now user_id : ℕ) (password : String) (w : World env)
      → IsUnset env k w
      → IsUnset env k (replace_password env now user_id password w).1
  unfolding replace_password revoke_all_for_user
  replace-IsUnset now user_id password w u = grind (arith, update_user-IsUnset)

  reset-IsUnset :
      (now : ℕ) (token : env.jwt.Token) (password : String) (w : World env)
      → IsUnset env k w
      → IsUnset env k (reset_password env now token password w).1
  unfolding reset_password get_user_by_id
  reset-IsUnset now token password w u = grind (arith, replace-IsUnset)

  rotate-IsUnset :
      (now : ℕ) (token : env.jwt.Token) (w : World env)
      → IsUnset env k w
      → IsUnset env k (rotate_refresh_token env now token w).1
  unfolding rotate_refresh_token check_refresh_token exchange get_user_by_id get_by_hash revoke
      create_refresh_token
  rotate-IsUnset now token w u = ground arith

  logout-IsUnset :
      (now : ℕ) (token : env.jwt.Token) (w : World env)
      → IsUnset env k w
      → IsUnset env k (revoke_refresh_token env now token w).1
  unfolding revoke_refresh_token get_by_hash revoke
  logout-IsUnset now token w u = ground arith

  pair-IsUnset :
      (now : ℕ) (user : UserRecord) (slug : Option String) (w : World env)
      → IsUnset env k w
      → IsUnset env k (issue_token_pair env now user slug w).1
  unfolding issue_token_pair create_refresh_token
  pair-IsUnset now user slug w u = ground arith

  serve-IsUnset :
      (now : ℕ) (c : Call env) (w : World env)
      → asks_reset c ≡ false
      → IsUnset env k w
      → IsUnset env k (serve env now c w)
  unfolding serve
  serve-IsUnset now (registers email password profile) w quiet u =
      register-IsUnset now email password profile w u
  serve-IsUnset now bootstraps w quiet u = bootstrap-IsUnset now w u
  serve-IsUnset now (updates user_id fields) w quiet u =
      account_update-IsUnset user_id fields w quiet u
  serve-IsUnset now (updates_profile user_id name phone address) w quiet u =
      profile-IsUnset user_id name phone address w u
  serve-IsUnset now (deletes user_id) w quiet u = delete-IsUnset user_id w u
  serve-IsUnset now (requests_reset email) w quiet u = cc
  serve-IsUnset now (resets token password) w quiet u = reset-IsUnset now token password w u
  serve-IsUnset now (logs_in user slug) w quiet u = pair-IsUnset now user slug w u
  serve-IsUnset now (refreshes token) w quiet u = rotate-IsUnset now token w u
  serve-IsUnset now (logs_out token) w quiet u = logout-IsUnset now token w u

  run-IsUnset :
      (calls : List (ℕ × Call env)) (w : World env)
      → All (λ c. asks_reset c.1 ≡ false) calls
      → IsUnset env k w
      → IsUnset env k (run env calls w)
  unfolding run
  run-IsUnset [] w quiet u = u
  run-IsUnset ((now, c) ∷ calls) w quiet u =
      run-IsUnset calls (serve env now c w) quiet.1 (serve-IsUnset now c w quiet.0 u)

-- A reset token works once, given that it decodes to one payload: after a reset that returns, and after
-- whatever other calls of the service that request no reset and store no token for one, a reset with
-- the same token, at any time, is refused and writes nothing.
pub reset_once :
    (env : Env)
    → JwtLaws env.jwt env.settings.jwt_private_key env.settings.verify.jwt_public_key
        env.settings.verify.jwt_algorithm
    → (now later : ℕ) (token : env.jwt.Token) (password again : String) (w : World env)
    → (reset_password env now token password w).0 ≡ ok tt
    → (calls : List (ℕ × Call env)) → All (λ c. asks_reset c.1 ≡ false) calls
    → let v = run env calls (reset_password env now token password w).1 in
      (e : Error) × (reset_password env later token again v ≡ (err e, v))
unfolding reset_password
reset_once env laws now later token password again w h calls quiet =
    let done = (reset_password env now token password w).1 in
    let v = run env calls done in
    let (payload, user_id, decoded, who, users, _) =
      reset_password_lem env now token password w h in
    let unset : IsUnset env user_id v =
      run-IsUnset env user_id calls done quiet
        (All-map (env.users.all done.users) (λ u reset same. (reset same).1) users) in
    elim (Result-cases (decode_access_token env later token v).0) [
      | inr (e, failed) ↦ (e, let state = decode_state env later token v in ground arith)
      | inl (other, decoded') ↦ (
        invalid_reset_token,
        let same : other ≡ payload =
              laws.one_payload (later / second) (now / second) token other payload
                (decoded_raw env later token v other decoded')
                (decoded_raw env now token w payload decoded) in
            refused_unset env later token again v payload user_id (rw same at decoded') who
              (λ u found. find-HasNone user_id (env.users.all v.users) u unset found),
      )
    ]
