-- ===== src/Auth/Accounts.antt =====
-- services/auth/auth/service.py: registration, login, location scope and the changes of an account.
use brasaland_digital.Base.{
  ℕ, suc, Bool, true, false, not, ◌||◌, Option, some, none, List, [], ◌∷◌, String, eqb, is_some,
  is_empty, is_blank, strip, contains, if◌then◌else◌, Result, ok, err,
}
use brasaland_digital.Base.Monad.{◌>>=◌, ◌>>◌, pure, raise, raise_if, unwrap, lift}
use brasaland_digital.Auth.Locations.{
  validate_location_slug, normalize_authorized_locations, sorted_canonical_slugs,
}
use brasaland_digital.Auth.Store.{
  UserRecord, Env, Auth, Error, email_already_exists, user_not_found, no_location_assigned,
  location_not_authorized, invalid_location_slug,
}
use brasaland_digital.Auth.Users.{
  NewUser, Fields, no_fields, create_user, get_user_by_id, get_user_by_email, list_users,
}
use brasaland_digital.Auth.Users

-- The exception of the slug functions, as one of the service.
abbrev pub slug_result : {A : Type 0} → Result String A → Result Error A
slug_result (ok a) = ok a
slug_result (err slug) = err (invalid_location_slug slug)

unfoldable pub user_authorized_locations : UserRecord → List String
user_authorized_locations user = elim user.authorized_locations [ none ↦ [] | some slugs ↦ slugs ]

-- `none`: all locations.
unfoldable pub get_effective_authorized_locations : UserRecord → Option (List String)
unfolding user_authorized_locations
get_effective_authorized_locations user =
    if user.is_admin then none else some (user_authorized_locations user)

unfoldable pub resolve_login_locations : UserRecord → List String
unfolding user_authorized_locations
resolve_login_locations user =
    if user.is_admin then sorted_canonical_slugs else user_authorized_locations user

within_assignment : List String → String → Result Error String
within_assignment authorized slug =
    if is_empty authorized
    then err no_location_assigned
    else if contains slug authorized
    then ok slug
    else err (location_not_authorized slug)

login_scope : UserRecord → Result String String → Result Error String
unfolding user_authorized_locations within_assignment
login_scope user (err slug) = err (invalid_location_slug slug)
login_scope user (ok normalized) =
    if user.is_admin
    then ok normalized
    else within_assignment (user_authorized_locations user) normalized

unfoldable pub validate_login_location : UserRecord → String → Result Error String
unfolding login_scope
validate_login_location user location_slug = login_scope user (validate_location_slug location_slug)

unfoldable pub can_modify_user : UserRecord → ℕ → Bool
can_modify_user requester target_user_id = eqb requester.id target_user_id || requester.is_admin

module _ (env : Env) where
  unfoldable pub normalize_email : String → String
  normalize_email email = env.lower (strip email)

  unfoldable pub self_registration_enabled : Bool
  self_registration_enabled =
      contains (env.lower (strip env.settings.allow_self_register))
        ("1" ∷ "true" ∷ "yes" ∷ "on" ∷ [])

  unfoldable pub hash_password : String → Auth env String
  hash_password password w =
      (ok (env.hash_password w.draws password), record w { draws = suc w.draws })

-- The arguments of `register_user` after email and password.
pub record Profile : Type 0 where
  pub is_admin : Bool
  pub name : String
  pub phone : String
  pub address : String
  pub authorized_locations : Option (List String)

abbrev pub blank_profile : Bool → Profile
blank_profile admin = record {
  is_admin = admin;
  name = "";
  phone = "";
  address = "";
  authorized_locations = none;
}

-- `locations` of `register_user`.
unfoldable pub given_locations : Option (List String) → Result Error (List String)
given_locations none = ok []
given_locations (some slugs) = slug_result (normalize_authorized_locations slugs)

unfoldable pub given_slugs : Result String (List String) → Result Error (Option (List String))
given_slugs (ok slugs) = ok (some slugs)
given_slugs (err slug) = err (invalid_location_slug slug)

-- `authorized_locations` in the dict of changes.
unfoldable pub changed_locations : Option (List String) → Result Error (Option (List String))
changed_locations none = ok none
changed_locations (some slugs) = given_slugs (normalize_authorized_locations slugs)

abbrev others_email : ℕ → Option UserRecord → Bool
others_email user_id none = false
others_email user_id (some existing) = not (eqb existing.id user_id)

module _ (env : Env) (now : ℕ) where
  -- `register_user` once the email is known to be free.
  unfoldable pub create_account :
      String → String → Profile → Result Error (List String) → Auth env UserRecord
  unfolding hash_password
  create_account email password profile (err e) = raise e
  create_account email password profile (ok locations) = do
    hashed ← hash_password env password
    create_user env (record {
      email = email;
      hashed_password = hashed;
      is_active = true;
      is_admin = profile.is_admin;
      created_at = now;
      name = profile.name;
      phone = profile.phone;
      address = profile.address;
      authorized_locations = locations;
    })

  unfoldable pub register_user : String → String → Profile → Auth env UserRecord
  unfolding normalize_email create_account given_locations
  register_user email password profile = do
    let normalized_email = normalize_email env email
    existing ← get_user_by_email env normalized_email
    raise_if (is_some existing) (email_already_exists normalized_email)
    create_account normalized_email password profile (given_locations profile.authorized_locations)

  unfoldable pub register_first_admin :
      String → String → List UserRecord → Auth env (Option UserRecord)
  register_first_admin email password [] = do
    admin ← register_user email password (blank_profile true)
    pure (some admin)
  register_first_admin email password (u ∷ us) = pure none

  -- `lifespan` of app.py calls this when the service starts.
  unfoldable pub ensure_bootstrap_admin : Auth env (Option UserRecord)
  unfolding register_first_admin
  ensure_bootstrap_admin =
      let email = strip env.settings.bootstrap_admin_email in
      let password = env.settings.bootstrap_admin_password in
      if is_blank email || is_blank password
      then pure none
      else list_users env >>= λ users. register_first_admin email password users

module _ (env : Env) where
  checked_password : String → Option UserRecord → Option UserRecord
  checked_password password none = none
  checked_password password (some user) =
      if env.verify_password password user.hashed_password then some user else none

  unfoldable pub authenticate_user : String → String → Auth env (Option UserRecord)
  unfolding normalize_email checked_password
  authenticate_user email password = do
    user ← get_user_by_email env (normalize_email env email)
    pure (checked_password password user)

  hashed_if_given : Option String → Auth env (Option String)
  hashed_if_given none = pure none
  hashed_if_given (some password) = do hashed ← hash_password env password; pure (some hashed)

  unfoldable pub build_update_fields :
      Option String → Option String → Option (List String) → Auth env Fields
  unfolding hashed_if_given changed_locations given_slugs hash_password
  build_update_fields email password authorized_locations = do
    hashed ← hashed_if_given password
    locations ← lift (changed_locations authorized_locations)
    pure (record no_fields {
      email = email;
      hashed_password = hashed;
      authorized_locations = locations;
    })

  unfoldable pub get_user : ℕ → Auth env UserRecord
  get_user user_id = do user ← get_user_by_id env user_id; unwrap user (user_not_found user_id)

  unfoldable pub list_all_users : Auth env (List UserRecord)
  list_all_users = list_users env

  -- The email of the changes, normalised, unless another user has it.
  unfoldable pub free_email : ℕ → Option String → Auth env (Option String)
  free_email user_id none = pure none
  free_email user_id (some email) = do
    let normalized_email = normalize_email env email
    existing ← get_user_by_email env normalized_email
    raise_if (others_email user_id existing) (email_already_exists normalized_email)
    pure (some normalized_email)

  -- `update_user` once the email is known to be free.
  unfoldable pub write_user :
      ℕ → Fields → Option String → Result Error (Option (List String)) → Auth env UserRecord
  write_user user_id fields email (err e) = raise e
  write_user user_id fields email (ok locations) = do
    user ←
        Users.update_user env user_id
          (record fields { email = email; authorized_locations = locations })
    unwrap user (user_not_found user_id)

  unfoldable pub update_user : ℕ → Fields → Auth env UserRecord
  unfolding normalize_email free_email write_user changed_locations given_slugs
  update_user user_id fields = do
    email ← free_email user_id fields.email
    write_user user_id fields email (changed_locations fields.authorized_locations)

  unfoldable pub update_profile :
      ℕ → Option String → Option String → Option String → Auth env UserRecord
  unfolding get_user
  update_profile user_id name phone address =
      if not (is_some name || is_some phone || is_some address)
      then get_user user_id
      else Users.update_user env user_id
          (record no_fields { name = name; phone = phone; address = address })
        >>= λ user. unwrap user (user_not_found user_id)

  unfoldable pub delete_user : ℕ → Auth env (Unit {0})
  delete_user user_id = do
    deleted ← Users.delete_user env user_id
    raise_if (not deleted) (user_not_found user_id)
