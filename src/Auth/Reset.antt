-- ===== src/Auth/Reset.antt =====
-- The reset of a forgotten password in services/auth/auth/service.py.
pub mod Once
use brasaland_digital.Base.{
  ℕ, suc, ◌≡◌, refl, sym, subst, inl, inr, ◌/◌, true, Option, some, none, List, [], ◌∷◌, String,
  eqb, arith, All, find, exists-find, update_where, Result, ok, err, Result-cases, Option-cases,
  Bool-cases,
}
use brasaland_digital.AuthVerify.{Claims, JwtLaws, verify_token}
use brasaland_digital.Auth.Store.{
  UserRecord, RefreshTokenRecord, Env, World, Error, invalid_reset_token,
}
use brasaland_digital.Auth.Users.{
  Fields, no_fields, apply_fields, has_id, get_user_by_id, normalize_user,
}
use brasaland_digital.Auth.Users
use brasaland_digital.Auth.Tokens.{set_revoked, is_of_user, revoke_all_for_user}
use brasaland_digital.Auth.Accounts.{hash_password}
use brasaland_digital.Auth.Sessions.{
  second, password_reset, is_type, decode_access_token, user_id_from_token_payload,
  replace_password, reset_password,
}

module _ (env : Env) where
  -- What a reset that returns has found: the payload of the token, and the account that it names, which
  -- has the token's digest stored.
  reset-eq-ok :
      (now : ℕ) (token : env.jwt.Token) (password : String) (w : World env)
      → (reset_password env now token password w).0 ≡ ok tt
      → (payload : Claims) × (user_id : ℕ) × (user : UserRecord) × ((decode_access_token env now
            token w).0
          ≡ ok payload)
        × (user_id_from_token_payload payload ≡ ok (some user_id))
        × (find (has_id user_id) (env.users.all w.users) ≡ some user)
        × (reset_password env now token password w ≡ replace_password env now user_id password w)
  unfolding reset_password get_user_by_id decode_access_token
  reset-eq-ok now token password w h = elim (Result-cases (decode_access_token env now token w).0) [
    | inr (e, failed) ↦ absurd (ground arith)
    | inl (payload, decoded) ↦ elim (Bool-cases (is_type password_reset payload)) [
      | inr other ↦ absurd (ground arith)
      | inl reset ↦ elim (Result-cases (user_id_from_token_payload payload)) [
        | inr (e, failed) ↦ absurd (ground arith)
        | inl (found, identified) ↦ elim (Option-cases found) [
          | inl missing ↦ absurd (ground arith)
          | inr (user_id, who) ↦ elim (Option-cases (env.users.get (has_id user_id) w.users)) [
            | inl nobody ↦ absurd (ground arith)
            | inr (user, stored) ↦ (
              payload,
              user_id,
              user,
              ground arith,
              ground arith,
              ground (arith, env.users.get-find (has_id user_id) w.users),
              ground arith,
            )
          ]
        ]
      ]
    ]
  ]

-- The changes that a reset makes to the account.
abbrev reset_fields : String → Fields
reset_fields hashed = record no_fields {
  hashed_password = some hashed;
  reset_token_hash = some none;
  reset_token_expires = some none;
}

-- The account has the new password and no token for a reset.
abbrev pub IsReset : ℕ → String → UserRecord → Type 0
IsReset user_id hashed u =
    u.id ≡ user_id
    → (u.hashed_password ≡ hashed) × (u.reset_token_hash ≡ none) × (u.reset_token_expires ≡ none)

update_where-IsReset :
    (user_id : ℕ) (hashed : String) (rows : List UserRecord)
    → All
        (IsReset user_id hashed)
        (update_where (apply_fields (reset_fields hashed)) (has_id user_id) rows)
unfolding apply_fields
update_where-IsReset user_id hashed [] = tt
update_where-IsReset user_id hashed (u ∷ us) =
    (λ same. ground arith, update_where-IsReset user_id hashed us)

-- A refresh token of the account is revoked.
abbrev pub IsEnded : ℕ → RefreshTokenRecord → Type 0
IsEnded user_id r = r.user_id ≡ user_id → r.revoked ≡ true

update_where-IsEnded :
    (user_id : ℕ) (rows : List RefreshTokenRecord)
    → All (IsEnded user_id) (update_where set_revoked (is_of_user user_id) rows)
update_where-IsEnded user_id [] = tt
update_where-IsEnded user_id (r ∷ rs) = (λ same. ground arith, update_where-IsEnded user_id rs)

module _ (env : Env) where
  updated :
      (user_id : ℕ) (f : Fields) (w : World env)
      → env.users.holds (has_id user_id) w.users ≡ true
      → let w1 : World env = record w {
        users = (env.users.update (apply_fields f) (has_id user_id) w.users).0;
      } in
        Users.update_user env user_id f w ≡ get_user_by_id env user_id w1
  unfolding Users.update_user
  updated user_id f w known = rw known refl

  written :
      (user_id : ℕ) (f : Fields) (w : World env)
      → env.users.holds (has_id user_id) w.users ≡ true
      → (r : Option UserRecord) × (Users.update_user env user_id f w ≡ (
        ok r,
        record w { users = (env.users.update (apply_fields f) (has_id user_id) w.users).0 },
      ))
  unfolding get_user_by_id
  written user_id f w known =
      let w1 : World env = record w {
        users = (env.users.update (apply_fields f) (has_id user_id) w.users).0;
      } in
      (
        elim (get_user_by_id env user_id w1).0 [ ok r ↦ r | err e ↦ none ],
        updated user_id f w known,
      )

  -- The tables after the writes of a reset.
  replaced :
      (now user_id : ℕ) (password : String) (w : World env) (user : UserRecord)
      → find (has_id user_id) (env.users.all w.users) ≡ some user
      → let v = (replace_password env now user_id password w).1 in
        (env.users.all v.users
          ≡ update_where
              (apply_fields (reset_fields (env.hash_password w.draws password)))
              (has_id user_id)
              (env.users.all w.users))
        × (env.tokens.all v.tokens
            ≡ update_where set_revoked (is_of_user user_id) (env.tokens.all w.tokens))
  unfolding replace_password hash_password revoke_all_for_user
  replaced now user_id password w user found =
      let known : env.users.holds (has_id user_id) w.users ≡ true = ground (
        arith,
        env.users.holds-exists (has_id user_id) w.users,
        exists-find (has_id user_id) (env.users.all w.users),
      ) in
      let f = reset_fields (env.hash_password w.draws password) in
      let w1 : World env = record w { draws = suc w.draws } in
      let (r, step) = written user_id f w1 known in
      let changed = env.users.all-update (apply_fields f) (has_id user_id) w.users in
      let ended = env.tokens.all-update set_revoked (is_of_user user_id) w.tokens in
      (ground (arith, step, changed), ground (arith, step, ended))

  -- A reset that returns leaves the account that the token names with the new password's hash and no
  -- token for a reset, and all refresh tokens of that account revoked.
  pub reset_password_lem :
      (now : ℕ) (token : env.jwt.Token) (password : String) (w : World env)
      → (reset_password env now token password w).0 ≡ ok tt
      → let v = (reset_password env now token password w).1 in
        (payload : Claims) × (user_id : ℕ) × ((decode_access_token env now token w).0 ≡ ok payload)
        × (user_id_from_token_payload payload ≡ ok (some user_id))
        × All (IsReset user_id (env.hash_password w.draws password)) (env.users.all v.users)
        × All (IsEnded user_id) (env.tokens.all v.tokens)
  reset_password_lem now token password w h =
      let (payload, user_id, user, decoded, who, found, step) =
        reset-eq-ok env now token password w h in
      let (users, tokens) = replaced now user_id password w user found in
      (
        payload,
        user_id,
        decoded,
        who,
        subst
            (λ (p : Result Error (Unit {0}) × World env).
              All (IsReset user_id (env.hash_password w.draws password)) (env.users.all p.1.users))
            (sym step)
            (subst (All (IsReset user_id (env.hash_password w.draws password))) (sym users) (
              update_where-IsReset user_id (env.hash_password w.draws password)
                (env.users.all w.users))),
        subst
            (λ (p : Result Error (Unit {0}) × World env).
              All (IsEnded user_id) (env.tokens.all p.1.tokens))
            (sym step)
            (subst (All (IsEnded user_id)) (sym tokens)
              (update_where-IsEnded user_id (env.tokens.all w.tokens))),
      )

  pub decoded_raw :
      (now : ℕ) (token : env.jwt.Token) (w : World env) (c : Claims)
      → (decode_access_token env now token w).0 ≡ ok c
      → env.jwt.decode env.settings.verify.jwt_public_key env.settings.verify.jwt_algorithm
          (now / second)
          token
        ≡ some c
  unfolding decode_access_token verify_token
  decoded_raw now token w c h = ground arith

  pub decode_state :
      (now : ℕ) (token : env.jwt.Token) (w : World env)
      → (decode_access_token env now token w).1 ≡ w
  unfolding decode_access_token
  decode_state now token w = refl

  -- Where the account of the token has no token for a reset, a reset is refused.
  pub refused_unset :
      (later : ℕ) (token : env.jwt.Token) (password : String) (v : World env) (payload : Claims)
      (user_id : ℕ)
      → (decode_access_token env later token v).0 ≡ ok payload
      → user_id_from_token_payload payload ≡ ok (some user_id)
      → ((u : UserRecord)
          → find (has_id user_id) (env.users.all v.users) ≡ some u
          → u.reset_token_hash ≡ none)
      → reset_password env later token password v ≡ (err invalid_reset_token, v)
  unfolding reset_password get_user_by_id normalize_user
  refused_unset later token password v payload user_id decoded who unset =
      let state = decode_state later token v in
      elim (Option-cases (env.users.get (has_id user_id) v.users)) [
        | inl nobody ↦ ground arith
        | inr (u, stored) ↦
            let found : find (has_id user_id) (env.users.all v.users) ≡ some u =
              ground (arith, env.users.get-find (has_id user_id) v.users) in
            let gone = unset u found in
            elim (Option-cases u.authorized_locations) [
              | inl missing ↦ ground arith
              | inr (slugs, listed) ↦ ground arith
            ]
      ]
