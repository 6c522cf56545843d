-- ===== src/Auth/Invariant.antt =====
-- The changes of accounts keep the users' ids and emails unique.
pub mod Calls
use brasaland_digital.Base.{
  ℕ, suc, ◌≡◌, refl, ap, sym, ◌∙◌, Bool, true, false, Option, some, none, List, [], ◌∷◌, ◌++◌,
  String, arith, if◌then◌else◌, ok, err, Result, find, find-append, exists-find, Bool-cases,
  Option-cases, inl, inr, subst, is_blank, strip, ◌||◌, map, All-map,
}
use brasaland_digital.Base.Monad.{after_bind}
use brasaland_digital.Auth.Store.{UserRecord, Env, World, Error}
use brasaland_digital.Auth.Users.{
  next_id, has_id, has_email, Fields, apply_fields, stored_user, create_user, no_fields,
  sorted_by_id, normalize_user, list_users, get_user_by_email, get_user_by_id,
}
use brasaland_digital.Auth.Users
use brasaland_digital.Auth.Accounts.{
  Profile, given_locations, normalize_email, create_account, register_user, ensure_bootstrap_admin,
  update_profile, register_first_admin, blank_profile, free_email, write_user, changed_locations,
}
use brasaland_digital.Auth.Accounts
use brasaland_digital.Auth.Tokens.{get_by_hash, revoke, revoke_all_for_user, create_refresh_token}
use brasaland_digital.Auth.Sessions.{
  send_reset, request_password_reset, replace_password, reset_password, rotate_refresh_token,
}
use brasaland_digital.Auth.Unique.{
  Unique, IsFree, NotNew, IsFree-of_none, next_id_fresh, email_free, append-Unique, reject-Unique,
  update-Unique, holder_only,
}

abbrev pub IsConsistent : (env : Env) → World env → Type 0
IsConsistent env w = Unique (env.users.all w.users)

id-normalize_user : (r : UserRecord) → (normalize_user r).id ≡ r.id
unfolding normalize_user
id-normalize_user r = ground arith

module _ (env : Env) where
  create_user-IsConsistent :
      (r : Users.NewUser) (w : World env)
      → IsConsistent env w
      → find (has_email r.email) (env.users.all w.users) ≡ none
      → IsConsistent env (create_user env r w).1
  unfolding create_user stored_user
  create_user-IsConsistent r w u free = subst Unique (sym (env.users.all-insert _ w.users)) (
      append-Unique _ (env.users.all w.users) (next_id_fresh (env.users.all w.users))
        (email_free r.email (env.users.all w.users) free) u)

  update_user-IsConsistent :
      (user_id : ℕ) (f : Fields) (w : World env)
      → IsConsistent env w
      → IsFree user_id f.email (env.users.all w.users)
      → IsConsistent env (Users.update_user env user_id f w).1
  unfolding Users.update_user
  update_user-IsConsistent user_id f w u free =
      elim (Bool-cases (env.users.holds (has_id user_id) w.users)) [
        | inl known ↦ rw (known) (
            subst Unique (sym (env.users.all-update (apply_fields f) (has_id user_id) w.users))
              (update-Unique user_id f (env.users.all w.users) free u))
        | inr unknown ↦ rw unknown u
      ]

  -- Changes that do not name the email.
  pub unchanged_email-IsConsistent :
      (user_id : ℕ) (f : Fields) (w : World env)
      → IsConsistent env w
      → f.email ≡ none
      → IsConsistent env (Users.update_user env user_id f w).1
  unchanged_email-IsConsistent user_id f w u e = update_user-IsConsistent user_id f w u (
      subst (λ x. IsFree user_id x (env.users.all w.users)) (sym e)
        (IsFree-of_none user_id (env.users.all w.users)))

  delete_user-IsConsistent :
      (user_id : ℕ) (w : World env)
      → IsConsistent env w
      → IsConsistent env (Users.delete_user env user_id w).1
  unfolding Users.delete_user
  delete_user-IsConsistent user_id w u =
      subst Unique (sym (env.users.all-remove (has_id user_id) w.users))
        (reject-Unique (has_id user_id) (env.users.all w.users) u)

  list_users_state : (w : World env) → IsConsistent env w → IsConsistent env (list_users env w).1
  unfolding list_users
  list_users_state w u = u

  -- Of the changed email: the state is as it was, and no other user has the email.
  free_email_lem :
      (user_id : ℕ) (email : Option String) (w : World env)
      → IsConsistent env w
      → ((free_email env user_id email w).1 ≡ w)
        × ((e : Option String)
            → (free_email env user_id email w).0 ≡ ok e
            → IsFree user_id e (env.users.all w.users))
  unfolding free_email get_user_by_email
  free_email_lem user_id none w u = (
    refl,
    λ e h.
        let q : none ≡ e = ground arith in
        subst (λ x. IsFree user_id x (env.users.all w.users)) q
          (IsFree-of_none user_id (env.users.all w.users)),
  )
  free_email_lem user_id (some email) w u =
      let p = has_email (normalize_email env email) in
      elim (Option-cases (find p (env.users.all w.users))) [
        | inl free ↦
            rw (env.users.get-find p w.users, free)
              (
                refl,
                λ e h.
                    let q : some (normalize_email env email) ≡ e = ground arith in
                    subst (λ x. IsFree user_id x (env.users.all w.users)) q
                      (All-map (env.users.all w.users) (λ s ne _. ne)
                        (email_free (normalize_email env email) (env.users.all w.users) free)),
              )
        | inr (r, taken) ↦
            rw (env.users.get-find p w.users, taken)
              (
                ground arith,
                λ e h.
                    let same : r.id ≡ user_id = ground (arith, id-normalize_user r) in
                    let q : some (normalize_email env email) ≡ e = ground arith in
                    subst (λ x. IsFree user_id x (env.users.all w.users)) q
                      (subst
                        (λ i. IsFree i (some (normalize_email env email)) (env.users.all w.users))
                        same
                        (holder_only (normalize_email env email) r (env.users.all w.users) u
                          taken)),
              )
      ]

  module _ (now : ℕ) where
    create_account-IsConsistent :
        (email password : String) (profile : Profile) (locations : Result Error (List String))
        (w : World env)
        → IsConsistent env w
        → find (has_email email) (env.users.all w.users) ≡ none
        → IsConsistent env (create_account env now email password profile locations w).1
    unfolding create_account
    create_account-IsConsistent email password profile (err e) w u free = u
    create_account-IsConsistent email password profile (ok locations) w u free =
        create_user-IsConsistent _ (record w { draws = suc w.draws }) u free

    pub register_user-IsConsistent :
        (email password : String) (profile : Profile) (w : World env)
        → IsConsistent env w
        → IsConsistent env (register_user env now email password profile w).1
    unfolding register_user get_user_by_email
    register_user-IsConsistent email password profile w u =
        let p = has_email (normalize_email env email) in
        elim (Option-cases (find p (env.users.all w.users))) [
          | inl free ↦
              rw (env.users.get-find p w.users, free)
                (create_account-IsConsistent (normalize_email env email) password profile
                  (given_locations profile.authorized_locations) w u free)
          | inr (r, taken) ↦ rw (env.users.get-find p w.users, taken) u
        ]

    first_admin-IsConsistent :
        (email password : String) (users : List UserRecord) (w : World env)
        → IsConsistent env w
        → IsConsistent env (register_first_admin env now email password users w).1
    unfolding register_first_admin
    first_admin-IsConsistent email password [] w u =
        ground (arith, register_user-IsConsistent email password (blank_profile true) w u)
    first_admin-IsConsistent email password (r ∷ rs) w u = u

    pub bootstrap-IsConsistent :
        (w : World env) → IsConsistent env w → IsConsistent env (ensure_bootstrap_admin env now w).1
    unfolding ensure_bootstrap_admin list_users
    bootstrap-IsConsistent w u = ground (
      arith,
      first_admin-IsConsistent (strip env.settings.bootstrap_admin_email)
          env.settings.bootstrap_admin_password
          (sorted_by_id (map normalize_user (env.users.all w.users))) w u,
    )

  write_user-IsConsistent :
      (user_id : ℕ) (f : Fields) (email : Option String)
      (locations : Result Error (Option (List String))) (w : World env)
      → IsConsistent env w
      → IsFree user_id email (env.users.all w.users)
      → IsConsistent env (write_user env user_id f email locations w).1
  unfolding write_user
  write_user-IsConsistent user_id f email (err e) w u free = u
  write_user-IsConsistent user_id f email (ok locations) w u free = ground (
    arith,
    update_user-IsConsistent user_id (record f { email = email; authorized_locations = locations })
        w u free,
  )

  pub accounts_update-IsConsistent :
      (user_id : ℕ) (f : Fields) (w : World env)
      → IsConsistent env w
      → IsConsistent env (Accounts.update_user env user_id f w).1
  unfolding Accounts.update_user
  accounts_update-IsConsistent user_id f w u =
      let (same, free) = free_email_lem user_id f.email w u in
      after_bind (IsConsistent env) (free_email env user_id f.email)
        (λ email. write_user env user_id f email (changed_locations f.authorized_locations)) w
        (subst (IsConsistent env) (sym same) u)
        λ email h.
          subst
            (λ v.
              IsConsistent env
                (write_user env user_id f email (changed_locations f.authorized_locations) v).1)
            (sym same)
            (write_user-IsConsistent user_id f email (changed_locations f.authorized_locations) w u
              (free email h))

  pub update_profile-IsConsistent :
      (user_id : ℕ) (name phone address : Option String) (w : World env)
      → IsConsistent env w
      → IsConsistent env (update_profile env user_id name phone address w).1
  unfolding update_profile get_user_by_id
  update_profile-IsConsistent user_id name phone address w u = ground (
    arith,
    update_user-IsConsistent user_id
        (record no_fields { name = name; phone = phone; address = address }) w u
        (IsFree-of_none user_id (env.users.all w.users)),
  )

  pub delete_account-IsConsistent :
      (user_id : ℕ) (w : World env)
      → IsConsistent env w
      → IsConsistent env (Accounts.delete_user env user_id w).1
  unfolding Accounts.delete_user
  delete_account-IsConsistent user_id w u = ground (arith, delete_user-IsConsistent user_id w u)
