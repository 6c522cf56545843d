-- ===== src/Auth/Invariant/Calls.antt =====
-- Every call of the service keeps the users' ids and emails unique.
use brasaland_digital.Base.{ℕ, Option, some, none, List, [], ◌∷◌, String, arith}
use brasaland_digital.Auth.Store.{UserRecord, Env, World}
use brasaland_digital.Auth.Users.{get_user_by_email, get_user_by_id}
use brasaland_digital.Auth.Tokens.{get_by_hash, revoke, revoke_all_for_user, create_refresh_token}
use brasaland_digital.Auth.Sessions.{
  revoke_refresh_token, issue_token_pair, check_refresh_token, exchange, send_reset,
  request_password_reset, replace_password, reset_password, rotate_refresh_token,
}
use brasaland_digital.Auth.Calls.{
  Call, registers, bootstraps, updates, updates_profile, deletes, requests_reset, resets, logs_in,
  refreshes, logs_out, serve, run,
}
use brasaland_digital.Auth.Invariant.{
  IsConsistent, unchanged_email-IsConsistent, delete_account-IsConsistent,
  accounts_update-IsConsistent, update_profile-IsConsistent, register_user-IsConsistent,
  bootstrap-IsConsistent,
}

module _ (env : Env) where
  module _ (now : ℕ) where
    send_reset-IsConsistent :
        (user : Option UserRecord) (w : World env)
        → IsConsistent env w
        → IsConsistent env (send_reset env now user w).1
    unfolding send_reset
    send_reset-IsConsistent none w u = u
    send_reset-IsConsistent (some user) w u = grind (arith, unchanged_email-IsConsistent env)

    request_reset-IsConsistent :
        (email : String) (w : World env)
        → IsConsistent env w
        → IsConsistent env (request_password_reset env now email w).1
    unfolding request_password_reset get_user_by_email
    request_reset-IsConsistent email w u = grind (arith, send_reset-IsConsistent)

    replace_password-IsConsistent :
        (user_id : ℕ) (password : String) (w : World env)
        → IsConsistent env w
        → IsConsistent env (replace_password env now user_id password w).1
    unfolding replace_password revoke_all_for_user
    replace_password-IsConsistent user_id password w u =
        grind (arith, unchanged_email-IsConsistent env)

    reset_password-IsConsistent :
        (token : env.jwt.Token) (password : String) (w : World env)
        → IsConsistent env w
        → IsConsistent env (reset_password env now token password w).1
    unfolding reset_password get_user_by_id
    reset_password-IsConsistent token password w u = grind (arith, replace_password-IsConsistent)

    rotate-IsConsistent :
        (token : env.jwt.Token) (w : World env)
        → IsConsistent env w
        → IsConsistent env (rotate_refresh_token env now token w).1
    unfolding rotate_refresh_token check_refresh_token exchange get_user_by_id get_by_hash revoke
        create_refresh_token
    rotate-IsConsistent token w u = ground arith

    pub revoke-IsConsistent :
        (token : env.jwt.Token) (w : World env)
        → IsConsistent env w
        → IsConsistent env (revoke_refresh_token env now token w).1
    unfolding revoke_refresh_token get_by_hash revoke
    revoke-IsConsistent token w u = ground arith

    pair-IsConsistent :
        (user : UserRecord) (slug : Option String) (w : World env)
        → IsConsistent env w
        → IsConsistent env (issue_token_pair env now user slug w).1
    unfolding issue_token_pair create_refresh_token
    pair-IsConsistent user slug w u = ground arith

  -- A call of the service at any time, with any arguments, keeps the ids and the emails of the users
  -- unique, whether it returns or raises.
  pub serve-IsConsistent :
      (now : ℕ) (c : Call env) (w : World env)
      → IsConsistent env w
      → IsConsistent env (serve env now c w)
  unfolding serve
  serve-IsConsistent now (registers email password profile) w u =
      register_user-IsConsistent env now email password profile w u
  serve-IsConsistent now bootstraps w u = bootstrap-IsConsistent env now w u
  serve-IsConsistent now (updates user_id fields) w u =
      accounts_update-IsConsistent env user_id fields w u
  serve-IsConsistent now (updates_profile user_id name phone address) w u =
      update_profile-IsConsistent env user_id name phone address w u
  serve-IsConsistent now (deletes user_id) w u = delete_account-IsConsistent env user_id w u
  serve-IsConsistent now (requests_reset email) w u = request_reset-IsConsistent now email w u
  serve-IsConsistent now (resets token password) w u =
      reset_password-IsConsistent now token password w u
  serve-IsConsistent now (logs_in user slug) w u = pair-IsConsistent now user slug w u
  serve-IsConsistent now (refreshes token) w u = rotate-IsConsistent now token w u
  serve-IsConsistent now (logs_out token) w u = revoke-IsConsistent now token w u

  -- In every database that calls of the service reach from one with unique ids and emails, no two
  -- users share an id or an email.
  pub run-IsConsistent :
      (calls : List (ℕ × Call env)) (w : World env)
      → IsConsistent env w
      → IsConsistent env (run env calls w)
  unfolding run
  run-IsConsistent [] w u = u
  run-IsConsistent ((now, c) ∷ calls) w u =
      run-IsConsistent calls (serve env now c w) (serve-IsConsistent now c w u)
