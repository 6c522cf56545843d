-- ===== src/Auth/Calls.antt =====
-- The calls of services/auth/auth/service.py that write the database, as the requests that any client
-- may make in any order, each with the time at which it is made.
use brasaland_digital.Base.{ℕ, Option, List, [], ◌∷◌, String}
use brasaland_digital.Auth.Store.{UserRecord, Env, World}
use brasaland_digital.Auth.Users.{Fields}
use brasaland_digital.Auth.Accounts.{
  Profile, register_user, ensure_bootstrap_admin, update_user, update_profile, delete_user,
}
use brasaland_digital.Auth.Sessions.{
  issue_token_pair, request_password_reset, reset_password, rotate_refresh_token,
  revoke_refresh_token,
}

pub data Call (env : Env) : Type 0 where
  registers : String → String → Profile → Call env
  bootstraps : Call env
  updates : ℕ → Fields → Call env
  updates_profile : ℕ → Option String → Option String → Option String → Call env
  deletes : ℕ → Call env
  requests_reset : String → Call env
  resets : env.jwt.Token → String → Call env
  logs_in : UserRecord → Option String → Call env
  refreshes : env.jwt.Token → Call env
  logs_out : env.jwt.Token → Call env

module _ (env : Env) where
  -- The database after a call, whether the call returned or raised.
  unfoldable pub serve : ℕ → Call env → World env → World env
  serve now (registers email password profile) w =
      (register_user env now email password profile w).1
  serve now bootstraps w = (ensure_bootstrap_admin env now w).1
  serve now (updates user_id fields) w = (update_user env user_id fields w).1
  serve now (updates_profile user_id name phone address) w =
      (update_profile env user_id name phone address w).1
  serve now (deletes user_id) w = (delete_user env user_id w).1
  serve now (requests_reset email) w = (request_password_reset env now email w).1
  serve now (resets token password) w = (reset_password env now token password w).1
  serve now (logs_in user slug) w = (issue_token_pair env now user slug w).1
  serve now (refreshes token) w = (rotate_refresh_token env now token w).1
  serve now (logs_out token) w = (revoke_refresh_token env now token w).1

  unfoldable pub run : List (ℕ × Call env) → World env → World env
  run [] w = w
  run ((now, c) ∷ calls) w = run calls (serve now c w)
