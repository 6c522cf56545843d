-- ===== src/Auth/Login.antt =====
-- Who may log in where, and what the tokens of the service are good for.
use brasaland_digital.Base.{
  ℕ, ◌≡◌, refl, sym, subst, ap, ◌↔◌, ◌⊎◌, inl, inr, true, false, Option, some, none, List, [], ◌∷◌,
  String, eq_iff, eq_refl, arith, Result, ok, err, find, find-append, strip, contains, is_blank,
  is_empty, Bool-cases, Option-cases,
}
use brasaland_digital.Auth.Locations.{
  canonical_location_slugs, validate_location_slug, sorted_canonical_slugs,
}
use brasaland_digital.Auth.Store.{UserRecord, Env, World, Error, email_already_exists}
use brasaland_digital.Auth.Users.{
  create_user, get_user_by_email, has_email, normalize_user, stored_user,
}
use brasaland_digital.Auth.Accounts.{
  Profile, user_authorized_locations, validate_login_location, register_user, authenticate_user,
  normalize_email, create_account, given_locations,
}
use brasaland_digital.Auth.Service.{
  client_credentials_match, covers_all, issue_service_access_token,
  issue_token_for_service_user_email, website_knowledge,
}

validate_location_slug_iff :
    (slug chosen : String)
    → (validate_location_slug slug ≡ ok chosen)
      ↔ ((strip slug ≡ chosen) × (contains chosen canonical_location_slugs ≡ true))
unfolding validate_location_slug
validate_location_slug_iff slug chosen = (
  λ h. elim (Bool-cases (contains (strip slug) canonical_location_slugs)) [
    | inl listed ↦
        let e : strip slug ≡ chosen = cc (rw listed at h) in
        (e, subst (λ s. contains s canonical_location_slugs ≡ true) e listed)
    | inr unknown ↦ let e : err slug ≡ ok chosen = rw unknown at h in absurd (cc e)
  ],
  λ h. rw (subst (λ s. contains s canonical_location_slugs ≡ true) (sym h.0) h.1) (ap ok h.0),
)

not-contains_empty :
    (slug : String) (slugs : List String) → is_empty slugs ≡ true → contains slug slugs ≡ false
not-contains_empty slug [] h = refl
not-contains_empty slug (x ∷ xs) h = absurd (ground arith)

scope_iff :
    (user : UserRecord) (slug chosen : String)
    → (validate_login_location user slug ≡ ok chosen) ↔ (
        (validate_location_slug slug ≡ ok chosen)
        × ((user.is_admin ≡ true) ⊎ (contains chosen (user_authorized_locations user) ≡ true)))
unfolding validate_login_location
scope_iff user slug chosen = (
  λ h. ground arith,
  λ h. ground (arith, not-contains_empty chosen (user_authorized_locations user)),
)

-- A login is accepted for the stripped slug exactly when that is a canonical slug, and the user is
-- an admin or has it among the assigned ones.
pub validate_login_location_iff :
    (user : UserRecord) (slug chosen : String)
    → (validate_login_location user slug ≡ ok chosen) ↔ (
        (strip slug ≡ chosen)
        × (contains chosen canonical_location_slugs ≡ true)
        × ((user.is_admin ≡ true) ⊎ (contains chosen (user_authorized_locations user) ≡ true)))
validate_login_location_iff user slug chosen = (
  λ h.
      let (valid, scope) = (scope_iff user slug chosen).0 h in
      let (stripped, listed) = (validate_location_slug_iff slug chosen).0 valid in
      (stripped, listed, scope),
  λ h. (scope_iff user slug chosen).1 ((validate_location_slug_iff slug chosen).1 (h.0, h.1), h.2),
)

module _ (env : Env) where
  -- A service client whose configured id and secret are both set, and its user.
  abbrev pub IsServed : String → String → String → String → String → World env → Type 0
  IsServed client_id client_secret configured_id configured_secret email w =
      (client_id ≡ configured_id)
      × (client_secret ≡ configured_secret)
      × (is_blank client_id ≡ false)
      × (is_blank client_secret ≡ false)
      × (user : UserRecord) × ((get_user_by_email env (normalize_email env (strip email)) w).0
          ≡ ok (some user))
      × (user.is_active ≡ true)
      × (user.is_admin ≡ false)
      × (covers_all (user_authorized_locations user) sorted_canonical_slugs ≡ true)

  credentials_lem :
      (client_id client_secret configured_id configured_secret : String)
      → client_credentials_match client_id client_secret configured_id configured_secret ≡ true
      → (client_id ≡ configured_id)
        × (client_secret ≡ configured_secret)
        × (is_blank client_id ≡ false)
        × (is_blank client_secret ≡ false)
  unfolding client_credentials_match
  credentials_lem client_id client_secret configured_id configured_secret h =
      ground (arith, eq_iff client_id configured_id, eq_iff client_secret configured_secret)

  user_needs :
      (now : ℕ) (email : String) (svc : Option String) (w : World env) (issued : env.jwt.Token × ℕ)
      → (issue_token_for_service_user_email env now email svc w).0 ≡ ok (some issued)
      → (user : UserRecord) × ((get_user_by_email env (normalize_email env email) w).0
          ≡ ok (some user))
        × (user.is_active ≡ true)
        × (user.is_admin ≡ false)
        × (covers_all (user_authorized_locations user) sorted_canonical_slugs ≡ true)
  unfolding issue_token_for_service_user_email get_user_by_email
  user_needs now email svc w issued h =
      elim (Option-cases (env.users.get (has_email (normalize_email env email)) w.users)) [
        | inl e ↦ absurd (ground arith)
        | inr (u, e) ↦ (normalize_user u, ground arith, ground arith, ground arith, ground arith)
      ]

  -- A service token is issued only for the id and the secret of one of the two configured clients,
  -- both not empty, and only where the account that the same client is configured with exists, is
  -- active, is no admin and is assigned as many slugs as the catalogue has, the same set of them.
  pub service_token_needs :
      (now : ℕ) (client_id client_secret : String) (w : World env) (issued : env.jwt.Token × ℕ)
      → (issue_service_access_token env now client_id client_secret w).0 ≡ ok (some issued)
      → IsServed client_id client_secret env.settings.mcp_client_id env.settings.mcp_client_secret
          env.settings.mcp_user_email w
        ⊎ IsServed client_id client_secret env.settings.website_client_id
            env.settings.website_client_secret env.settings.website_user_email w
  unfolding issue_service_access_token
  service_token_needs now client_id client_secret w issued h =
      let s = env.settings in
      elim (Bool-cases
        (client_credentials_match client_id client_secret s.mcp_client_id s.mcp_client_secret)) [
          | inl mcp ↦
              let (a, b, c, d) =
                credentials_lem client_id client_secret s.mcp_client_id s.mcp_client_secret mcp in
              let (u, e, f, g, i) =
                user_needs now (strip s.mcp_user_email) none w issued (rw mcp at h) in
              inl (a, b, c, d, u, e, f, g, i)
          | inr other ↦
              elim (Bool-cases (
                client_credentials_match client_id client_secret s.website_client_id
                  s.website_client_secret)) [
                    | inl site ↦
                        let (a, b, c, d) =
                          credentials_lem client_id client_secret s.website_client_id
                            s.website_client_secret site in
                        let (u, e, f, g, i) =
                          user_needs now (strip s.website_user_email) (some website_knowledge) w
                            issued (rw (other, site) at h) in
                        inr (a, b, c, d, u, e, f, g, i)
                    | inr neither ↦
                        let e : ok none ≡ ok (some issued) = rw (other, neither) at h in
                        absurd (cc e)
                  ]
        ]

  account_authenticates :
      ((draw : ℕ) (password : String)
        → env.verify_password password (env.hash_password draw password) ≡ true)
      → (now : ℕ) (email password : String) (profile : Profile)
        (locations : Result Error (List String)) (w : World env) (user : UserRecord)
      → find (has_email (normalize_email env email)) (env.users.all w.users) ≡ none
      → (create_account env now (normalize_email env email) password profile locations w).0
        ≡ ok user
      → (authenticate_user env email password
          (create_account env now (normalize_email env email) password profile locations w).1).0
        ≡ ok (some user)
  unfolding create_account authenticate_user get_user_by_email create_user stored_user
      normalize_user
  account_authenticates verifies now email password profile (err e) w user free h = cc
  account_authenticates verifies now email password profile (ok locations) w user free h =
      rw
        (
          env.users.get-find,
          env.users.all-insert,
          find-append (has_email (normalize_email env email)) (env.users.all w.users),
          free,
          eq_refl (normalize_email env email),
          verifies w.draws password,
        )
        (cc h)

  -- Whoever registers can log in with the same email and password, given that a password verifies
  -- against its own hash: the registration's email, however it was spelled, leads to the new user.
  pub register_then_authenticate :
      ((draw : ℕ) (password : String)
        → env.verify_password password (env.hash_password draw password) ≡ true)
      → (now : ℕ) (email password : String) (profile : Profile) (w : World env) (user : UserRecord)
      → (register_user env now email password profile w).0 ≡ ok user
      → (authenticate_user env email password (register_user env now email password profile w).1).0
        ≡ ok (some user)
  unfolding register_user get_user_by_email
  register_then_authenticate verifies now email password profile w user h =
      let p = has_email (normalize_email env email) in
      elim (Option-cases (find p (env.users.all w.users))) [
        | inl free ↦
            rw (env.users.get-find p w.users, free)
              (account_authenticates verifies now email password profile
                (given_locations profile.authorized_locations) w user free
                (rw (env.users.get-find p w.users, free) at h))
        | inr (r, taken) ↦
            let refused : err (email_already_exists (normalize_email env email)) ≡ ok user =
              rw (env.users.get-find p w.users, taken) at h in
            absurd (cc refused)
      ]
