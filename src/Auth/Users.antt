-- ===== src/Auth/Users.antt =====
-- services/auth/auth/repository.py: the table of users.
use brasaland_digital.Base.{
  ℕ, suc, max, Bool, Option, some, none, List, [], ◌∷◌, map, String, ◌==◌, eqb, leb, ltb,
  if◌then◌else◌, ok,
}
use brasaland_digital.Auth.Store.{UserRecord, Env, Auth}

-- `max(record["id"] for record in records) + 1`, and 1 where there is no record.
unfoldable pub max_id : List UserRecord → ℕ
max_id [] = 0
max_id (r ∷ rs) = max r.id (max_id rs)

unfoldable pub next_id : List UserRecord → ℕ
unfolding max_id
next_id [] = 1
next_id (r ∷ rs) = suc (max_id (r ∷ rs))

with_locations : Option (List String) → UserRecord → UserRecord
with_locations none r = record r { authorized_locations = some [] }
with_locations (some locations) r = r

unfoldable pub normalize_user : UserRecord → UserRecord
unfolding with_locations
normalize_user r = with_locations r.authorized_locations r

-- The dict that `create_user` takes, by its keys.
pub record NewUser : Type 0 where
  pub email : String
  pub hashed_password : String
  pub is_active : Bool
  pub is_admin : Bool
  pub created_at : ℕ
  pub name : String
  pub phone : String
  pub address : String
  pub authorized_locations : List String

unfoldable pub stored_user : ℕ → NewUser → UserRecord
stored_user user_id r = record {
  id = user_id;
  email = r.email;
  hashed_password = r.hashed_password;
  is_active = r.is_active;
  is_admin = r.is_admin;
  created_at = r.created_at;
  reset_token_hash = none;
  reset_token_expires = none;
  name = some r.name;
  phone = some r.phone;
  address = some r.address;
  authorized_locations = some r.authorized_locations;
}

-- The dict of changed fields that `update_user` takes; `none` is a key that is not there.
pub record Fields : Type 0 where
  pub email : Option String
  pub hashed_password : Option String
  pub reset_token_hash : Option (Option String)
  pub reset_token_expires : Option (Option ℕ)
  pub name : Option String
  pub phone : Option String
  pub address : Option String
  pub authorized_locations : Option (List String)

abbrev pub no_fields : Fields
no_fields = record {
  email = none;
  hashed_password = none;
  reset_token_hash = none;
  reset_token_expires = none;
  name = none;
  phone = none;
  address = none;
  authorized_locations = none;
}

abbrev pub given {ℓ} : {A : Type ℓ} → Option A → A → A
given none old = old
given (some new) old = new

abbrev pub given_some {ℓ} : {A : Type ℓ} → Option A → Option A → Option A
given_some none old = old
given_some (some new) old = some new

-- `dict.update`, which `table.update` does to each row.
unfoldable pub apply_fields : Fields → UserRecord → UserRecord
apply_fields f r = record r {
  email = given f.email r.email;
  hashed_password = given f.hashed_password r.hashed_password;
  reset_token_hash = given f.reset_token_hash r.reset_token_hash;
  reset_token_expires = given f.reset_token_expires r.reset_token_expires;
  name = given_some f.name r.name;
  phone = given_some f.phone r.phone;
  address = given_some f.address r.address;
  authorized_locations = given_some f.authorized_locations r.authorized_locations;
}

-- `sorted(records, key=lambda record: record["id"])`, which is stable.
insert_by_id : UserRecord → List UserRecord → List UserRecord
insert_by_id r [] = r ∷ []
insert_by_id r (s ∷ rest) = if leb r.id s.id then r ∷ s ∷ rest else s ∷ insert_by_id r rest

unfoldable pub sorted_by_id : List UserRecord → List UserRecord
unfolding insert_by_id
sorted_by_id [] = []
sorted_by_id (r ∷ rest) = insert_by_id r (sorted_by_id rest)

abbrev pub has_id : ℕ → UserRecord → Bool
has_id user_id r = eqb r.id user_id

abbrev pub has_email : String → UserRecord → Bool
has_email email r = r.email == email

abbrev normalized_option : Option UserRecord → Option UserRecord
normalized_option none = none
normalized_option (some r) = some (normalize_user r)

module _ (env : Env) where
  unfoldable pub create_user : NewUser → Auth env UserRecord
  create_user r w =
      let stored = stored_user (next_id (env.users.all w.users)) r in
      (ok stored, record w { users = env.users.insert stored w.users })

  unfoldable pub get_user_by_id : ℕ → Auth env (Option UserRecord)
  get_user_by_id user_id w = (ok (normalized_option (env.users.get (has_id user_id) w.users)), w)

  unfoldable pub get_user_by_email : String → Auth env (Option UserRecord)
  get_user_by_email email w = (ok (normalized_option (env.users.get (has_email email) w.users)), w)

  unfoldable pub list_users : Auth env (List UserRecord)
  list_users w = (ok (sorted_by_id (map normalize_user (env.users.all w.users))), w)

  unfoldable pub update_user : ℕ → Fields → Auth env (Option UserRecord)
  unfolding get_user_by_id
  update_user user_id fields w =
      if env.users.holds (has_id user_id) w.users
      then get_user_by_id user_id
          (record w { users = (env.users.update (apply_fields fields) (has_id user_id) w.users).0 })
      else (ok none, w)

  unfoldable pub delete_user : ℕ → Auth env Bool
  delete_user user_id w =
      let (left, removed) = env.users.remove (has_id user_id) w.users in
      (ok (ltb 0 removed), record w { users = left })
