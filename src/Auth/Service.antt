-- ===== src/Auth/Service.antt =====
-- services/auth/auth/service.py: the tokens of the service clients, MCP and the public website.
use brasaland_digital.Base.{
  ℕ, ◌*◌, Bool, false, not, ◌&&◌, ◌||◌, Option, some, none, List, String, ◌==◌, eqb, is_blank,
  strip, length, contains, every, decimal, if◌then◌else◌,
}
use brasaland_digital.Base.Monad.{◌>>=◌, pure}
use brasaland_digital.Auth.Locations.{sorted_canonical_slugs}
use brasaland_digital.Auth.Store.{UserRecord, Env, Auth}
use brasaland_digital.Auth.Users.{get_user_by_email}
use brasaland_digital.Auth.Accounts.{normalize_email, user_authorized_locations}
use brasaland_digital.Auth.Sessions.{no_claims, create_access_token}

abbrev pub website_knowledge : String
website_knowledge = "website-knowledge"

unfoldable pub client_credentials_match : String → String → String → String → Bool
client_credentials_match client_id client_secret expected_client_id expected_client_secret =
    if is_blank expected_client_id || is_blank expected_client_secret
    then false
    else client_id == expected_client_id && client_secret == expected_client_secret

-- As many slugs, and the same set of them.
abbrev pub covers_all : List String → List String → Bool
covers_all authorized canonical =
    eqb (length authorized) (length canonical)
    && every (λ slug. contains slug canonical) authorized
    && every (λ slug. contains slug authorized) canonical

-- The user whom a service client stands for, if it may have a token.
abbrev pub service_user : Option UserRecord → Option UserRecord
service_user none = none
service_user (some user) =
    if not user.is_active || user.is_admin
    then none
    else if covers_all (user_authorized_locations user) sorted_canonical_slugs
    then some user
    else none

-- `if svc: payload["svc"] = svc`
abbrev svc_claim : Option String → Option String
svc_claim none = none
svc_claim (some svc) = if is_blank svc then none else some svc

module _ (env : Env) (now : ℕ) where
  issue_to : Option String → Option UserRecord → Auth env (Option (env.jwt.Token × ℕ))
  issue_to svc none = pure none
  issue_to svc (some user) = do
    let minutes = env.settings.access_token_expire_minutes
    token ←
        create_access_token env now
          (record no_claims {
            sub = some (decimal user.id);
            user_id = some user.id;
            is_admin = some false;
            authorized_locations = some sorted_canonical_slugs;
            svc = svc_claim svc;
          })
          minutes
    pure (some (token, minutes * 60))

  unfoldable pub issue_token_for_service_user_email :
      String → Option String → Auth env (Option (env.jwt.Token × ℕ))
  unfolding issue_to
  issue_token_for_service_user_email service_user_email svc =
      if is_blank service_user_email then pure none else do
        user ← get_user_by_email env (normalize_email env service_user_email)
        issue_to svc (service_user user)

  unfoldable pub issue_service_access_token :
      String → String → Auth env (Option (env.jwt.Token × ℕ))
  unfolding issue_token_for_service_user_email
  issue_service_access_token client_id client_secret =
      let s = env.settings in
      if client_credentials_match client_id client_secret s.mcp_client_id s.mcp_client_secret
      then issue_token_for_service_user_email (strip s.mcp_user_email) none
      else if client_credentials_match client_id client_secret s.website_client_id
          s.website_client_secret
      then issue_token_for_service_user_email (strip s.website_user_email) (some website_knowledge)
      else pure none
