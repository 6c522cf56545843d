-- ===== src/Incidents/Statuses.antt =====
-- The life of an incident in services/incident-manager: it is never removed, and its status only takes
-- the steps that packages/shared allows.
use brasaland_digital.Base.{
  ℕ, ◌≡◌, refl, inl, inr, true, some, List, [], ◌∷◌, String, arith, find, find-append, update_where,
  eqb, Bool-cases, if◌then◌else◌,
}
use brasaland_digital.Base.Sql.{has_key}
use brasaland_digital.Shared.{validate_transition}
use brasaland_digital.Shared.Transitions.{IsStep, validate_transition_iff}
use brasaland_digital.Incidents.Store.{IncidentRecord, id_of, source_of, Env, set_status}
use brasaland_digital.Incidents.Service.{Call, run}
use brasaland_digital.Incidents.Writes.{run_keeps}

-- Zero or more allowed changes.
pub data Reaches : String → String → Type 0 where
  stays : (s : String) → Reaches s s
  then_step : {a b c : String} → Reaches a b → IsStep b c → Reaches a c

-- The columns that no call changes.
abbrev IsSame : IncidentRecord → IncidentRecord → Type 0
IsSame r s =
    (r.id ≡ s.id)
    × (r.source_incident_id ≡ s.source_incident_id)
    × (r.title ≡ s.title)
    × (r.description ≡ s.description)
    × (r.category ≡ s.category)
    × (r.origin ≡ s.origin)
    × (r.branch ≡ s.branch)
    × (r.created_at ≡ s.created_at)

-- The incident with the key is still there, the same but for its status, which allowed changes led
-- to, and the time of its last change.
abbrev pub IsFollowed : (env : Env) → ℕ → IncidentRecord → env.incidents.Tab → Type 0
IsFollowed env k r t =
    (s : IncidentRecord) × (find (has_key id_of source_of k) (env.incidents.rows t) ≡ some s)
    × IsSame r s
    × Reaches r.status s.status

find-update_where :
    (k target_key : ℕ) (target : String) (time : ℕ) (rows : List IncidentRecord)
    (s : IncidentRecord)
    → find (has_key id_of source_of k) rows ≡ some s
    → find
        (has_key id_of source_of k)
        (update_where (set_status target time) (has_key id_of source_of target_key) rows)
      ≡ some (if eqb s.id target_key then set_status target time s else s)
find-update_where k target_key target time [] s h = absurd (ground arith)
find-update_where k target_key target time (x ∷ xs) s h =
    ground (arith, find-update_where k target_key target time xs s)

find_key :
    (k : ℕ) (rows : List IncidentRecord) (s : IncidentRecord)
    → find (has_key id_of source_of k) rows ≡ some s
    → s.id ≡ k
find_key k [] s h = absurd (ground arith)
find_key k (x ∷ xs) s h = ground (arith, find_key k xs s)

module _ (env : Env) (k : ℕ) (r : IncidentRecord) where
  update_follows :
      (t : env.incidents.Tab) (target_key : ℕ) (q : IncidentRecord) (target : String) (time : ℕ)
      → IsFollowed env k r t
      → find (has_key id_of source_of target_key) (env.incidents.rows t) ≡ some q
      → (validate_transition q.status target).is_allowed ≡ true
      → IsFollowed env k r (env.incidents.update (set_status target time) target_key t)
  update_follows t target_key q target time (s, found, same, path) hit allowed =
      let e = env.incidents.rows-update (set_status target time) target_key t in
      let f = find-update_where k target_key target time (env.incidents.rows t) s found in
      elim (Bool-cases (eqb s.id target_key)) [
        | inr other ↦ (s, ground arith, same, path)
        | inl own ↦
            let one : some s ≡ some q = ground (arith, find_key k (env.incidents.rows t) s found) in
            let step : IsStep s.status target =
              (validate_transition_iff s.status target).0 (ground arith) in
            (set_status target time s, ground arith, same, then_step path step)
      ]

  insert_follows :
      (t : env.incidents.Tab) (q : IncidentRecord)
      → IsFollowed env k r t
      → IsFollowed env k r (env.incidents.insert q t)
  insert_follows t q (s, found, same, path) = (
    s,
    ground (
      arith,
      env.incidents.rows-insert q t,
      find-append (has_key id_of source_of k) (env.incidents.rows t) (q ∷ []),
    ),
    same,
    path,
  )

-- After any calls of the service an incident is still there, with the same id, source, title,
-- description, category, origin, branch and time of creation, and its status was reached by allowed
-- changes: from open over in_progress to resolved, or from either of the two to discarded.
pub run-IsFollowed :
    (env : Env) (calls : List (ℕ × Call)) (t : env.incidents.Tab) (k : ℕ) (r : IncidentRecord)
    → find (has_key id_of source_of k) (env.incidents.rows t) ≡ some r
    → IsFollowed env k r (run env calls t)
run-IsFollowed env calls t k r found =
    run_keeps env (IsFollowed env k r) (λ t q h _ _. insert_follows env k r t q h)
      (λ t j q target time h hit allowed. update_follows env k r t j q target time h hit allowed)
      calls t (r, found, (refl, refl, refl, refl, refl, refl, refl, refl), stays r.status)
