-- ===== src/Auth/Revocation.antt =====
-- What it is for a refresh token to be revoked, and that each call of the service keeps it revoked.
pub mod Forever
use brasaland_digital.Base.{
  ℕ, suc, ◌≡◌, sym, subst, Bool, true, Option, some, none, List, [], ◌∷◌, ◌++◌, String, arith, err,
  find, find-append, update_where, Bool-cases, inl, inr, is_blank, false,
}
use brasaland_digital.AuthVerify.{verify_token}
use brasaland_digital.Auth.Store.{RefreshTokenRecord, Env, World, UserRecord, invalid_refresh_token}
use brasaland_digital.Auth.Tokens.{
  NewToken, has_hash, is_of_user, set_revoked, revoke, get_by_hash, create_refresh_token,
  revoke_all_for_user,
}
use brasaland_digital.Auth.Users.{
  Fields, no_fields, has_id, get_user_by_id, get_user_by_email, create_user, list_users,
}
use brasaland_digital.Auth.Users
use brasaland_digital.Auth.Accounts
use brasaland_digital.Auth.Accounts.{
  register_user, ensure_bootstrap_admin, register_first_admin, Profile,
}
use brasaland_digital.Auth.Sessions.{
  issue_token_pair, exchange, check_refresh_token, rotate_refresh_token, revoke_refresh_token,
  reset_password, replace_password, send_reset, request_password_reset,
}

abbrev is_revoked_row : Option RefreshTokenRecord → Bool
is_revoked_row none = false
is_revoked_row (some r) = r.revoked

-- The first row of the digest, which `get_by_hash` finds, is there and is revoked.
abbrev pub IsDead : String → List RefreshTokenRecord → Type 0
IsDead digest rows = is_revoked_row (find (has_hash digest) rows) ≡ true

append-IsDead :
    (digest : String) (rows : List RefreshTokenRecord) (new : RefreshTokenRecord)
    → IsDead digest rows
    → IsDead digest (rows ++ new ∷ [])
append-IsDead digest rows new h = ground (arith, find-append (has_hash digest) rows (new ∷ []))

update-IsDead :
    (digest : String) (p : RefreshTokenRecord → Bool) (rows : List RefreshTokenRecord)
    → IsDead digest rows
    → IsDead digest (update_where set_revoked p rows)
update-IsDead digest p [] h = h
update-IsDead digest p (x ∷ rows) h = ground (arith, update-IsDead digest p rows)

-- Revoking the digest of a row that is there kills it.
pub revoked-IsDead :
    (digest : String) (r : RefreshTokenRecord) (rows : List RefreshTokenRecord)
    → find (has_hash digest) rows ≡ some r
    → IsDead digest (update_where set_revoked (has_hash digest) rows)
revoked-IsDead digest r [] e = absurd (ground arith)
revoked-IsDead digest r (x ∷ rows) e = ground (arith, revoked-IsDead digest r rows)

-- The refresh token is known to the service and revoked.
unfoldable pub IsRevoked : (env : Env) → env.jwt.Token → World env → Type 0
IsRevoked env token w = IsDead (env.sha256 token) (env.tokens.all w.tokens)

module _ (env : Env) where
  -- A revoked token is refused with `InvalidRefreshTokenError`, and nothing is written.
  pub rotate_revoked :
      (now : ℕ) (token : env.jwt.Token) (w : World env)
      → is_blank env.settings.verify.jwt_public_key ≡ false
      → IsRevoked env token w
      → rotate_refresh_token env now token w ≡ (err invalid_refresh_token, w)
  unfolding rotate_refresh_token check_refresh_token get_by_hash verify_token IsRevoked
  rotate_revoked now token w key h =
      ground (arith, env.tokens.get-find (has_hash (env.sha256 token)) w.tokens)

  module _ (token : env.jwt.Token) where
    create_refresh_token-IsRevoked :
        (new : NewToken) (w : World env)
        → IsRevoked env token w
        → IsRevoked env token (create_refresh_token env new w).1
    unfolding create_refresh_token IsRevoked
    create_refresh_token-IsRevoked new w d =
        subst (IsDead (env.sha256 token)) (sym (env.tokens.all-insert _ w.tokens))
          (append-IsDead (env.sha256 token) (env.tokens.all w.tokens) _ d)

    pub revoke-IsRevoked :
        (digest : String) (w : World env)
        → IsRevoked env token w
        → IsRevoked env token (revoke env digest w).1
    unfolding revoke IsRevoked
    revoke-IsRevoked digest w d = elim (Bool-cases (env.tokens.holds (has_hash digest) w.tokens)) [
      | inl known ↦ rw known (
          subst (IsDead (env.sha256 token))
            (sym (env.tokens.all-update set_revoked (has_hash digest) w.tokens))
            (update-IsDead (env.sha256 token) (has_hash digest) (env.tokens.all w.tokens) d))
      | inr unknown ↦ rw unknown d
    ]

    revoke_all-IsRevoked :
        (user_id : ℕ) (w : World env)
        → IsRevoked env token w
        → IsRevoked env token (revoke_all_for_user env user_id w).1
    unfolding revoke_all_for_user IsRevoked
    revoke_all-IsRevoked user_id w d =
        subst (IsDead (env.sha256 token))
          (sym (env.tokens.all-update set_revoked (is_of_user user_id) w.tokens))
          (update-IsDead (env.sha256 token) (is_of_user user_id) (env.tokens.all w.tokens) d)

    pub pair-IsRevoked :
        (now : ℕ) (user : UserRecord) (slug : Option String) (w : World env)
        → IsRevoked env token w
        → IsRevoked env token (issue_token_pair env now user slug w).1
    unfolding issue_token_pair IsRevoked
    pair-IsRevoked now user slug w d = grind (arith, create_refresh_token-IsRevoked)

    exchange-IsRevoked :
        (now : ℕ) (t : RefreshTokenRecord × UserRecord × Option String) (w : World env)
        → IsRevoked env token w
        → IsRevoked env token (exchange env now t w).1
    unfolding exchange
    exchange-IsRevoked now (stored, user, scope) w d =
        grind (arith, revoke-IsRevoked, pair-IsRevoked)

    pub rotate-IsRevoked :
        (now : ℕ) (other : env.jwt.Token) (w : World env)
        → IsRevoked env token w
        → IsRevoked env token (rotate_refresh_token env now other w).1
    unfolding rotate_refresh_token check_refresh_token get_by_hash get_user_by_id
    rotate-IsRevoked now other w d = grind (arith, exchange-IsRevoked)

    pub logout-IsRevoked :
        (now : ℕ) (other : env.jwt.Token) (w : World env)
        → IsRevoked env token w
        → IsRevoked env token (revoke_refresh_token env now other w).1
    unfolding revoke_refresh_token get_by_hash
    logout-IsRevoked now other w d = grind (arith, revoke-IsRevoked)

    update_user-IsRevoked :
        (user_id : ℕ) (f : Fields) (w : World env)
        → IsRevoked env token w
        → IsRevoked env token (Users.update_user env user_id f w).1
    unfolding Users.update_user IsRevoked
    update_user-IsRevoked user_id f w d =
        elim (Bool-cases (env.users.holds (has_id user_id) w.users)) [
          | inl known ↦ rw known d
          | inr unknown ↦ rw unknown d
        ]

    replace-IsRevoked :
        (now user_id : ℕ) (password : String) (w : World env)
        → IsRevoked env token w
        → IsRevoked env token (replace_password env now user_id password w).1
    unfolding replace_password IsRevoked
    replace-IsRevoked now user_id password w d =
        let w1 : World env = record w { draws = suc w.draws } in
        let f : Fields = record no_fields {
          hashed_password = some (env.hash_password w.draws password);
          reset_token_hash = some none;
          reset_token_expires = some none;
        } in
        ground (
          arith,
          update_user-IsRevoked user_id f w1 d,
          revoke_all-IsRevoked user_id (Users.update_user env user_id f w1).1,
        )

    pub reset-IsRevoked :
        (now : ℕ) (other : env.jwt.Token) (password : String) (w : World env)
        → IsRevoked env token w
        → IsRevoked env token (reset_password env now other password w).1
    unfolding reset_password get_user_by_id
    reset-IsRevoked now other password w d = grind (arith, replace-IsRevoked)

    pub register-IsRevoked :
        (now : ℕ) (email password : String) (profile : Profile) (w : World env)
        → IsRevoked env token w
        → IsRevoked env token (register_user env now email password profile w).1
    unfolding register_user get_user_by_email create_user IsRevoked
    register-IsRevoked now email password profile w d = ground arith

    pub bootstrap-IsRevoked :
        (now : ℕ) (w : World env)
        → IsRevoked env token w
        → IsRevoked env token (ensure_bootstrap_admin env now w).1
    unfolding ensure_bootstrap_admin list_users register_first_admin
    bootstrap-IsRevoked now w d = grind (arith, register-IsRevoked)

    pub account_update-IsRevoked :
        (user_id : ℕ) (f : Fields) (w : World env)
        → IsRevoked env token w
        → IsRevoked env token (Accounts.update_user env user_id f w).1
    unfolding Accounts.update_user get_user_by_email
    account_update-IsRevoked user_id f w d = grind (arith, update_user-IsRevoked)

    pub profile-IsRevoked :
        (user_id : ℕ) (name phone address : Option String) (w : World env)
        → IsRevoked env token w
        → IsRevoked env token (Accounts.update_profile env user_id name phone address w).1
    unfolding Accounts.update_profile get_user_by_id
    profile-IsRevoked user_id name phone address w d = grind (arith, update_user-IsRevoked)

    pub delete-IsRevoked :
        (user_id : ℕ) (w : World env)
        → IsRevoked env token w
        → IsRevoked env token (Accounts.delete_user env user_id w).1
    unfolding Accounts.delete_user Users.delete_user IsRevoked
    delete-IsRevoked user_id w d = ground arith

    send_reset-IsRevoked :
        (now : ℕ) (user : Option UserRecord) (w : World env)
        → IsRevoked env token w
        → IsRevoked env token (send_reset env now user w).1
    unfolding send_reset
    send_reset-IsRevoked now none w d = d
    send_reset-IsRevoked now (some user) w d = grind (arith, update_user-IsRevoked)

    pub request_reset-IsRevoked :
        (now : ℕ) (email : String) (w : World env)
        → IsRevoked env token w
        → IsRevoked env token (request_password_reset env now email w).1
    unfolding request_password_reset get_user_by_email
    request_reset-IsRevoked now email w d = grind (arith, send_reset-IsRevoked)
