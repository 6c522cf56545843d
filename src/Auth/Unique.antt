-- ===== src/Auth/Unique.antt =====
-- Rows of the table of users that no two share an id or an email, under the writes of the repository.
use brasaland_digital.Base.{
  ℕ, ◌≤◌, ◌<◌, ◌≡◌, ap, sym, ◌∙◌, Bool-cases, ◌≢◌, Bool, Option, some, none, List, [], ◌∷◌, ◌++◌,
  String, ◌==◌, eq_iff, arith, if◌then◌else◌, All, find, reject, update_where, All-map, inl, inr,
}
use brasaland_digital.Auth.Store.{UserRecord}
use brasaland_digital.Auth.Users.{max_id, next_id, has_id, has_email, Fields, apply_fields}

abbrev pub Apart : UserRecord → UserRecord → Type 0
Apart r s = (r.id ≢ s.id) × (r.email ≢ s.email)

-- No two users share an id or an email.
abbrev pub Unique : List UserRecord → Type 0
Unique [] = Unit
Unique (r ∷ rs) = All (Apart r) rs × Unique rs

max_id_bounds : (rs : List UserRecord) → All (λ s. s.id ≤ max_id rs) rs
unfolding max_id
max_id_bounds [] = tt
max_id_bounds (r ∷ rs) = (omega arith, All-map rs (λ s h. ground (arith, h)) (max_id_bounds rs))

-- The next id is above every id in use.
pub next_id_fresh : (rs : List UserRecord) → All (λ s. s.id < next_id rs) rs
unfolding next_id
next_id_fresh [] = tt
next_id_fresh (r ∷ rs) = All-map (r ∷ rs) (λ s h. ground (arith, h)) (max_id_bounds (r ∷ rs))

pub email_free :
    (email : String) (rs : List UserRecord)
    → find (has_email email) rs ≡ none
    → All (λ s. s.email ≢ email) rs
email_free email [] h = tt
email_free email (r ∷ rs) h =
    (λ e. ground (arith, eq_iff r.email email), email_free email rs (ground arith))

append-Apart :
    (s r : UserRecord) (rs : List UserRecord)
    → All (Apart s) rs
    → s.id < r.id
    → s.email ≢ r.email
    → All (Apart s) (rs ++ r ∷ [])
append-Apart s r [] h lt ne = ((λ e. omega arith, ne), tt)
append-Apart s r (q ∷ rs) h lt ne = (h.0, append-Apart s r rs h.1 lt ne)

pub append-Unique :
    (r : UserRecord) (rs : List UserRecord)
    → All (λ s. s.id < r.id) rs
    → All (λ s. s.email ≢ r.email) rs
    → Unique rs
    → Unique (rs ++ r ∷ [])
append-Unique r [] below free u = (tt, tt)
append-Unique r (s ∷ rs) below free u =
    (append-Apart s r rs u.0 below.0 free.0, append-Unique r rs below.1 free.1 u.1)

pub reject-Apart :
    (r : UserRecord) (p : UserRecord → Bool) (rs : List UserRecord)
    → All (Apart r) rs
    → All (Apart r) (reject p rs)
reject-Apart r p [] h = tt
reject-Apart r p (s ∷ rs) h = ground (arith, reject-Apart r p rs h.1)

pub reject-Unique :
    (p : UserRecord → Bool) (rs : List UserRecord) → Unique rs → Unique (reject p rs)
reject-Unique p [] u = tt
reject-Unique p (r ∷ rs) u = ground (arith, reject-Apart r p rs u.0, reject-Unique p rs u.1)

-- A user's email is not the new one, if there is a new one.
abbrev pub NotNew : Option String → String → Type 0
NotNew none old = Unit
NotNew (some email) old = old ≢ email

-- The new email, if there is one, belongs to no other user.
abbrev pub IsFree : ℕ → Option String → List UserRecord → Type 0
IsFree user_id email = All (λ s. s.id ≢ user_id → NotNew email s.email)

pub IsFree-of_none : (user_id : ℕ) (rs : List UserRecord) → IsFree user_id none rs
IsFree-of_none user_id [] = tt
IsFree-of_none user_id (r ∷ rs) = (λ ne. tt, IsFree-of_none user_id rs)

pair-Apart :
    (user_id : ℕ) (f : Fields) (r s : UserRecord)
    → Apart r s
    → (r.id ≢ user_id → NotNew f.email r.email)
    → (s.id ≢ user_id → NotNew f.email s.email)
    → Apart
        (if has_id user_id r then apply_fields f r else r)
        (if has_id user_id s then apply_fields f s else s)
unfolding apply_fields
pair-Apart user_id f r s apart hr hs = ground arith

update-Apart :
    (user_id : ℕ) (f : Fields) (r : UserRecord) (rs : List UserRecord)
    → All (Apart r) rs
    → IsFree user_id f.email (r ∷ rs)
    → All
        (Apart (if has_id user_id r then apply_fields f r else r))
        (update_where (apply_fields f) (has_id user_id) rs)
update-Apart user_id f r [] h free = tt
update-Apart user_id f r (s ∷ rs) h free = (
  pair-Apart user_id f r s h.0 free.0 free.1.0,
  update-Apart user_id f r rs h.1 (free.0, free.1.1),
)

pub update-Unique :
    (user_id : ℕ) (f : Fields) (rs : List UserRecord)
    → IsFree user_id f.email rs
    → Unique rs
    → Unique (update_where (apply_fields f) (has_id user_id) rs)
update-Unique user_id f [] free u = tt
update-Unique user_id f (r ∷ rs) free u =
    (update-Apart user_id f r rs u.0 free, update-Unique user_id f rs free.1 u.1)

-- The row that has the email is the only one that has it.
pub holder_only :
    (email : String) (r : UserRecord) (rs : List UserRecord)
    → Unique rs
    → find (has_email email) rs ≡ some r
    → All (λ s. s.id ≢ r.id → s.email ≢ email) rs
holder_only email r [] u h = tt
holder_only email r (s ∷ rs) u h = elim (Bool-cases (s.email == email)) [
  | inl hit ↦
      let found : s ≡ r = ground arith in
      (
        λ ne. absurd (ne (ap (λ (q : UserRecord). q.id) found)),
        All-map rs (λ q apart ne e. apart.1 ((eq_iff s.email email).0 hit ∙ sym e)) u.0,
      )
  | inr miss ↦
      (λ ne e. ground (arith, eq_iff s.email email), holder_only email r rs u.1 (ground arith))
]
