-- ===== src/Auth/Tokens.antt =====
-- services/auth/auth/refresh_repository.py: the table of refresh tokens.
use brasaland_digital.Base.{
  ℕ, suc, max, Bool, true, false, Option, List, [], ◌∷◌, String, ◌==◌, eqb, if◌then◌else◌, ok,
}
use brasaland_digital.Auth.Store.{RefreshTokenRecord, Env, Auth}

max_id : List RefreshTokenRecord → ℕ
max_id [] = 0
max_id (r ∷ rs) = max r.id (max_id rs)

unfoldable pub next_id : List RefreshTokenRecord → ℕ
unfolding max_id
next_id [] = 1
next_id (r ∷ rs) = suc (max_id (r ∷ rs))

-- The dict that `create_refresh_token` takes.
pub record NewToken : Type 0 where
  pub user_id : ℕ
  pub token_hash : String
  pub expires_at : ℕ
  pub revoked : Bool
  pub created_at : ℕ

abbrev pub stored_token : ℕ → NewToken → RefreshTokenRecord
stored_token token_id r = record {
  id = token_id;
  user_id = r.user_id;
  token_hash = r.token_hash;
  expires_at = r.expires_at;
  revoked = r.revoked;
  created_at = r.created_at;
}

abbrev pub has_hash : String → RefreshTokenRecord → Bool
has_hash h r = r.token_hash == h

abbrev pub is_of_user : ℕ → RefreshTokenRecord → Bool
is_of_user user_id r = eqb r.user_id user_id

abbrev pub set_revoked : RefreshTokenRecord → RefreshTokenRecord
set_revoked r = record r { revoked = true }

module _ (env : Env) where
  unfoldable pub create_refresh_token : NewToken → Auth env RefreshTokenRecord
  create_refresh_token r w =
      let stored = stored_token (next_id (env.tokens.all w.tokens)) r in
      (ok stored, record w { tokens = env.tokens.insert stored w.tokens })

  unfoldable pub get_by_hash : String → Auth env (Option RefreshTokenRecord)
  get_by_hash token_hash w = (ok (env.tokens.get (has_hash token_hash) w.tokens), w)

  unfoldable pub revoke : String → Auth env Bool
  revoke token_hash w =
      if env.tokens.holds (has_hash token_hash) w.tokens
      then (
        ok true,
        record w { tokens = (env.tokens.update set_revoked (has_hash token_hash) w.tokens).0 },
      )
      else (ok false, w)

  unfoldable pub revoke_all_for_user : ℕ → Auth env ℕ
  revoke_all_for_user user_id w =
      let (tokens, updated) = env.tokens.update set_revoked (is_of_user user_id) w.tokens in
      (ok updated, record w { tokens = tokens })
