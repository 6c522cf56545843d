-- ===== src/Auth/Access.antt =====
-- What the tokens that the service issues are good for.
use brasaland_digital.Base.{
  ℕ, ◌≤◌, ◌/◌, ◌≡◌, inl, inr, true, false, Option, some, none, String, leb, arith, ok, find,
  is_blank, decimal, Result-cases, Bool-cases, refl,
}
use brasaland_digital.AuthVerify.{JwtLaws, Claims, verify_token}
use brasaland_digital.Auth.Store.{UserRecord, Env, World}
use brasaland_digital.Auth.Users.{get_user_by_id, has_id, normalize_user}
use brasaland_digital.Auth.Tokens.{create_refresh_token}
use brasaland_digital.Auth.Sessions.{
  second, minutes_after, create_access_token, login_claims, refresh_scope, no_claims,
  user_id_from_token_payload, issue_access_token, issue_refresh_token, resolve_active_user, refresh,
}

module _ (env : Env)
    (laws : JwtLaws env.jwt env.settings.jwt_private_key env.settings.verify.jwt_public_key
      env.settings.verify.jwt_algorithm) where
  abbrev signed : Claims → env.jwt.Token
  signed = env.jwt.encode env.settings.jwt_private_key env.settings.verify.jwt_algorithm

  login_claims_lem :
      (now : ℕ) (user : UserRecord) (slug : Option String) (c : Claims)
      → login_claims env now user slug ≡ ok c
      → (c.user_id ≡ some user.id) × (c.token_type ≡ none)
  unfolding login_claims
  login_claims_lem now user none c h = ground arith
  login_claims_lem now user (some s) c h = ground arith

  -- The payload of an access token, as it is signed.
  access_payload :
      (now : ℕ) (user : UserRecord) (slug : Option String) (w : World env) (token : env.jwt.Token)
      → (issue_access_token env now user slug w).0 ≡ ok token
      → (c : Claims) × (token ≡ signed c)
        × (c.user_id ≡ some user.id)
        × (c.token_type ≡ none)
        × (c.exp ≡ minutes_after now env.settings.access_token_expire_minutes / second)
  unfolding issue_access_token create_access_token
  access_payload now user slug w token h = elim (Result-cases (login_claims env now user slug)) [
    | inl (c, e) ↦
        let (who, kind) = login_claims_lem now user slug c e in
        (
          record c { exp = minutes_after now env.settings.access_token_expire_minutes / second },
          ground arith,
          who,
          kind,
          refl,
        )
    | inr (x, e) ↦ absurd (ground arith)
  ]

  resolve_payload :
      (later : ℕ) (token : env.jwt.Token) (c : Claims) (id : ℕ) (stored : UserRecord)
      (v : World env)
      → is_blank env.settings.verify.jwt_public_key ≡ false
      → env.jwt.decode env.settings.verify.jwt_public_key env.settings.verify.jwt_algorithm
          (later / second)
          token
        ≡ some c
      → c.token_type ≡ none
      → c.user_id ≡ some id
      → find (has_id id) (env.users.all v.users) ≡ some stored
      → stored.is_active ≡ true
      → (resolve_active_user env later token v).0 ≡ ok (some (normalize_user stored))
  unfolding resolve_active_user get_user_by_id verify_token user_id_from_token_payload
      normalize_user
  resolve_payload later token c id stored v key decoded kind who found active =
      ground (arith, env.users.get-find (has_id id) v.users)

  -- Where the public key is set and the two keys are a pair, an access token that was issued to a user
  -- resolves to the stored record of that user, at every second up to its expiry, as long as the record
  -- is there and active.
  pub resolve-issue :
      (now later : ℕ) (user stored : UserRecord) (slug : Option String) (w v : World env)
      (token : env.jwt.Token)
      → (issue_access_token env now user slug w).0 ≡ ok token
      → is_blank env.settings.verify.jwt_public_key ≡ false
      → later / second ≤ minutes_after now env.settings.access_token_expire_minutes / second
      → find (has_id user.id) (env.users.all v.users) ≡ some stored
      → stored.is_active ≡ true
      → (resolve_active_user env later token v).0 ≡ ok (some (normalize_user stored))
  resolve-issue now later user stored slug w v token issued key live found active =
      let (c, e, who, kind, ends) = access_payload now user slug w token issued in
      resolve_payload later token c user.id stored v key
        (rw e (laws.live (later / second) c (rw ends live))) kind who found active

  -- The payload of a refresh token, as it is signed.
  refresh_payload :
      (now : ℕ) (user : UserRecord) (slug : Option String) (w : World env) (token : env.jwt.Token)
      → (issue_refresh_token env now user slug none w).0 ≡ ok token
      → (c : Claims) × (token ≡ signed c) × (c.token_type ≡ some refresh)
  unfolding issue_refresh_token create_access_token create_refresh_token
  refresh_payload now user slug w token h = elim (Result-cases (refresh_scope env now user slug)) [
    | inl (scope, e) ↦ (
      record no_claims {
        sub = some (decimal user.id);
        user_id = some user.id;
        token_type = some refresh;
        jti = some (env.token_urlsafe w.draws);
        location_slug = scope;
        exp = minutes_after now env.settings.refresh_token_expire_minutes / second;
      },
      ground arith,
      refl,
    )
    | inr (x, e) ↦ absurd (ground arith)
  ]

  not_access :
      (later : ℕ) (token : env.jwt.Token) (c : Claims) (v : World env)
      → is_blank env.settings.verify.jwt_public_key ≡ false
      → env.jwt.decode env.settings.verify.jwt_public_key env.settings.verify.jwt_algorithm
          (later / second)
          token
        ≡ some c
      → c.token_type ≡ some refresh
      → (resolve_active_user env later token v).0 ≡ ok none
  unfolding resolve_active_user verify_token
  not_access later token c v key decoded kind = ground arith

  undecoded :
      (later : ℕ) (token : env.jwt.Token) (v : World env)
      → is_blank env.settings.verify.jwt_public_key ≡ false
      → env.jwt.decode env.settings.verify.jwt_public_key env.settings.verify.jwt_algorithm
          (later / second)
          token
        ≡ none
      → (resolve_active_user env later token v).0 ≡ ok none
  unfolding resolve_active_user verify_token
  undecoded later token v key decoded = ground arith

  -- Where the public key is set and the two keys are a pair, a refresh token that was issued resolves to
  -- no user, at any time: it is not an access token.
  pub resolve-issue_refresh :
      (now later : ℕ) (user : UserRecord) (slug : Option String) (w v : World env)
      (token : env.jwt.Token)
      → (issue_refresh_token env now user slug none w).0 ≡ ok token
      → is_blank env.settings.verify.jwt_public_key ≡ false
      → (resolve_active_user env later token v).0 ≡ ok none
  resolve-issue_refresh now later user slug w v token issued key =
      let (c, e, kind) = refresh_payload now user slug w token issued in
      elim (Bool-cases (leb (later / second) c.exp)) [
        | inl live ↦
            not_access later token c v key (rw e (laws.live (later / second) c (ground arith))) kind
        | inr expired ↦
            undecoded later token v key (rw e (laws.expired (later / second) c (ground arith)))
      ]
