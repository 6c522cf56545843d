-- ===== src/Auth/Revocation/Forever.antt =====
-- A refresh token that was exchanged, or whose session was logged out, is refused ever after.
use brasaland_digital.Base.{
  ℕ, ◌<◌, ◌≡◌, sym, ◌∙◌, subst, ap, true, false, Option, some, List, [], ◌∷◌, String, eq_iff, arith,
  Result, ok, err, find, exists-find, is_blank,
}
use brasaland_digital.Base.Monad.{>>=-eq-ok}
use brasaland_digital.Base.{find-passes}
use brasaland_digital.Auth.Sessions.{refresh, is_type, decode_access_token, revoke_refresh_token}
use brasaland_digital.AuthVerify.{Claims, verify_token}
use brasaland_digital.Auth.Store.{
  UserRecord, RefreshTokenRecord, Env, World, Error, invalid_refresh_token,
}
use brasaland_digital.Auth.Tokens.{has_hash, set_revoked, revoke, get_by_hash}
use brasaland_digital.Auth.Users.{get_user_by_id}
use brasaland_digital.Auth.Sessions.{check_refresh_token, exchange, rotate_refresh_token}
use brasaland_digital.Auth.Calls.{
  Call, registers, bootstraps, updates, updates_profile, deletes, requests_reset, resets, logs_in,
  refreshes, logs_out, serve, run,
}
use brasaland_digital.Auth.Revocation.{
  IsRevoked, IsDead, revoked-IsDead, rotate_revoked, pair-IsRevoked, rotate-IsRevoked,
  logout-IsRevoked, reset-IsRevoked, register-IsRevoked, bootstrap-IsRevoked,
  account_update-IsRevoked, profile-IsRevoked, delete-IsRevoked, request_reset-IsRevoked,
}

module _ (env : Env) where
  serve-IsRevoked :
      (token : env.jwt.Token) (now : ℕ) (c : Call env) (w : World env)
      → IsRevoked env token w
      → IsRevoked env token (serve env now c w)
  unfolding serve
  serve-IsRevoked token now (registers email password profile) w d =
      register-IsRevoked env token now email password profile w d
  serve-IsRevoked token now bootstraps w d = bootstrap-IsRevoked env token now w d
  serve-IsRevoked token now (updates user_id fields) w d =
      account_update-IsRevoked env token user_id fields w d
  serve-IsRevoked token now (updates_profile user_id name phone address) w d =
      profile-IsRevoked env token user_id name phone address w d
  serve-IsRevoked token now (deletes user_id) w d = delete-IsRevoked env token user_id w d
  serve-IsRevoked token now (requests_reset email) w d =
      request_reset-IsRevoked env token now email w d
  serve-IsRevoked token now (resets other password) w d =
      reset-IsRevoked env token now other password w d
  serve-IsRevoked token now (logs_in user slug) w d = pair-IsRevoked env token now user slug w d
  serve-IsRevoked token now (refreshes other) w d = rotate-IsRevoked env token now other w d
  serve-IsRevoked token now (logs_out other) w d = logout-IsRevoked env token now other w d

  run-IsRevoked :
      (token : env.jwt.Token) (calls : List (ℕ × Call env)) (w : World env)
      → IsRevoked env token w
      → IsRevoked env token (run env calls w)
  unfolding run
  run-IsRevoked token [] w d = d
  run-IsRevoked token ((now, c) ∷ calls) w d =
      run-IsRevoked token calls (serve env now c w) (serve-IsRevoked token now c w d)

  revoke_known :
      (token : env.jwt.Token) (r : RefreshTokenRecord) (w : World env)
      → find (has_hash (env.sha256 token)) (env.tokens.all w.tokens) ≡ some r
      → IsRevoked env token (revoke env (env.sha256 token) w).1
  unfolding revoke IsRevoked
  revoke_known token r w e =
      let known : env.tokens.holds (has_hash (env.sha256 token)) w.tokens ≡ true = ground (
        arith,
        env.tokens.holds-exists (has_hash (env.sha256 token)) w.tokens,
        exists-find (has_hash (env.sha256 token)) (env.tokens.all w.tokens),
      ) in
      rw known (
        subst (IsDead (env.sha256 token))
          (sym (env.tokens.all-update set_revoked (has_hash (env.sha256 token)) w.tokens))
          (revoked-IsDead (env.sha256 token) r (env.tokens.all w.tokens) e))

  check_state :
      (now : ℕ) (token : env.jwt.Token) (w : World env)
      → (check_refresh_token env now token w).1 ≡ w
  unfolding check_refresh_token get_by_hash get_user_by_id
  check_state now token w = ground arith

  -- Where `rotate_refresh_token` returns, its checks have returned, and wrote nothing.
  rotate_checked :
      (now : ℕ) (token : env.jwt.Token) (w : World env) (pair : env.jwt.Token × env.jwt.Token)
      → (rotate_refresh_token env now token w).0 ≡ ok pair
      → (t : RefreshTokenRecord × UserRecord × Option String) × ((check_refresh_token env now token
            w).0
          ≡ ok t)
        × (rotate_refresh_token env now token w ≡ exchange env now t w)
  unfolding rotate_refresh_token
  rotate_checked now token w pair h =
      let (t, checked, step) =
        >>=-eq-ok (check_refresh_token env now token) (exchange env now) w h in
      (t, checked, step ∙ ap (exchange env now t) (check_state now token w))

  checked_row :
      (now : ℕ) (token : env.jwt.Token) (w : World env)
      (t : RefreshTokenRecord × UserRecord × Option String)
      → (check_refresh_token env now token w).0 ≡ ok t
      → (find (has_hash (env.sha256 token)) (env.tokens.all w.tokens) ≡ some t.0)
        × (t.0.token_hash ≡ env.sha256 token)
        × (t.0.revoked ≡ false)
        × (now < t.0.expires_at)
        × (t.1.is_active ≡ true)
        × (is_blank env.settings.verify.jwt_public_key ≡ false)
  unfolding check_refresh_token get_by_hash get_user_by_id verify_token
  checked_row now token w t h = ground (
    arith,
    env.tokens.get-find (has_hash (env.sha256 token)) w.tokens,
    eq_iff (env.sha256 token) t.0.token_hash,
  )

  exchange-IsRevoked_self :
      (now : ℕ) (token : env.jwt.Token) (t : RefreshTokenRecord × UserRecord × Option String)
      (w : World env)
      → find (has_hash (env.sha256 token)) (env.tokens.all w.tokens) ≡ some t.0
      → t.0.token_hash ≡ env.sha256 token
      → IsRevoked env token (exchange env now t w).1
  unfolding exchange
  exchange-IsRevoked_self now token (stored, user, scope) w e same =
      grind (arith, pair-IsRevoked env token, revoke_known token stored w e)

  -- A refresh token can be exchanged once: after a successful exchange the same token is refused
  -- with `InvalidRefreshTokenError` and changes nothing, at any later time and in whatever database
  -- any calls of the service have led to meanwhile.
  pub rotated_once :
      (now : ℕ) (token : env.jwt.Token) (w : World env) (pair : env.jwt.Token × env.jwt.Token)
      → (rotate_refresh_token env now token w).0 ≡ ok pair
      → (calls : List (ℕ × Call env)) (later : ℕ)
      → let v = run env calls (rotate_refresh_token env now token w).1 in
        rotate_refresh_token env later token v ≡ (err invalid_refresh_token, v)
  rotated_once now token w pair h calls later =
      let (t, checked, step) = rotate_checked now token w pair h in
      let (known, same, _, _, _, key) = checked_row now token w t checked in
      rotate_revoked env later token _ key (
        run-IsRevoked token calls _ (
          subst
            (λ (p : Result Error (env.jwt.Token × env.jwt.Token) × World env).
              IsRevoked env token p.1)
            (sym step) (exchange-IsRevoked_self now token t w known same)))

  key_set :
      (now : ℕ) (token : env.jwt.Token) (w : World env) (payload : Claims)
      → (decode_access_token env now token w).0 ≡ ok payload
      → is_blank env.settings.verify.jwt_public_key ≡ false
  unfolding decode_access_token verify_token
  key_set now token w payload h = ground arith

  logout_known :
      (now : ℕ) (token : env.jwt.Token) (w : World env) (payload : Claims) (r : RefreshTokenRecord)
      → (decode_access_token env now token w).0 ≡ ok payload
      → is_type refresh payload ≡ true
      → find (has_hash (env.sha256 token)) (env.tokens.all w.tokens) ≡ some r
      → r.token_hash ≡ env.sha256 token
      → IsRevoked env token (revoke_refresh_token env now token w).1
  unfolding revoke_refresh_token get_by_hash
  logout_known now token w payload r decoded kind found same =
      let known = revoke_known token r w found in
      ground (arith, env.tokens.get-find (has_hash (env.sha256 token)) w.tokens)

  -- After a logout with a refresh token that decodes and is stored, the token is refused with
  -- `InvalidRefreshTokenError` and changes nothing, at any later time and in whatever database any calls
  -- of the service have led to meanwhile.
  pub logged_out :
      (now : ℕ) (token : env.jwt.Token) (w : World env) (payload : Claims) (r : RefreshTokenRecord)
      → (decode_access_token env now token w).0 ≡ ok payload
      → is_type refresh payload ≡ true
      → find (has_hash (env.sha256 token)) (env.tokens.all w.tokens) ≡ some r
      → (calls : List (ℕ × Call env)) (later : ℕ)
      → let v = run env calls (revoke_refresh_token env now token w).1 in
        rotate_refresh_token env later token v ≡ (err invalid_refresh_token, v)
  logged_out now token w payload r decoded kind found calls later =
      let same =
        (eq_iff r.token_hash (env.sha256 token)).0
          (find-passes (has_hash (env.sha256 token)) (env.tokens.all w.tokens) r found) in
      rotate_revoked env later token _ (key_set now token w payload decoded)
        (run-IsRevoked token calls _ (logout_known now token w payload r decoded kind found same))
