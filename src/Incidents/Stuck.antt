-- ===== src/Incidents/Stuck.antt =====
-- The incidents of services/incident-manager that are created with blanks around their status.
use brasaland_digital.Base.{
  ℕ, ◌≡◌, ◌<◌, refl, ◌∙◌, inl, inr, false, some, none, List, [], ◌∷◌, ◌++◌, String, contains, arith,
  eq_iff, find, find-append, All, ok, Result-cases, List-cases,
}
use brasaland_digital.Base.Sql.{has_key}
use brasaland_digital.Shared.{valid_statuses, validate_incident_fields}
use brasaland_digital.Shared.Transitions.{IsStep}
use brasaland_digital.Incidents.Store.{
  IncidentRecord, id_of, source_of, Env, insert, commit_row, new_row, parse_timestamp,
}
use brasaland_digital.Incidents.Service.{
  IncidentCreateInput, create_payload, create_dict, create_checked, create_incident, initial_status,
  Call, run,
}
use brasaland_digital.Incidents.Statuses.{Reaches, stays, then_step, run-IsFollowed}

-- No step begins at a status that is none of the four.
no_step :
    (current target : String) → contains current valid_statuses ≡ false → IsStep current target → ⊥
no_step current target h (inl (e, _)) = absurd (ground (arith, eq_iff current "open"))
no_step current target h (inr (inl (e, _))) = absurd (ground (arith, eq_iff current "open"))
no_step current target h (inr (inr (inl (e, _)))) =
    absurd (ground (arith, eq_iff current "in_progress"))
no_step current target h (inr (inr (inr (e, _)))) =
    absurd (ground (arith, eq_iff current "in_progress"))

unknown_stays : {a b : String} → contains a valid_statuses ≡ false → Reaches a b → b ≡ a
unknown_stays h (stays s) = refl
unknown_stays h (then_step {b = b} {c = c} path step) =
    let same = unknown_stays h path in absurd (no_step b c (rw same h) step)

find_fresh :
    (k : ℕ) (rows : List IncidentRecord)
    → All (λ r. id_of r < k) rows
    → find (has_key id_of source_of k) rows ≡ none
find_fresh k [] h = refl
find_fresh k (x ∷ xs) (here, there) = ground (arith, here, find_fresh k xs there)

module _ (env : Env) where
  -- The incident that was created stands behind the others, with a new key and the status it was given.
  created_row :
      (now : ℕ) (input : IncidentCreateInput) (r : IncidentRecord) (t : env.incidents.Tab)
      → (create_incident env now input t).0 ≡ ok (some r, [])
      → (env.incidents.rows (create_incident env now input t).1 ≡ env.incidents.rows t ++ r ∷ [])
        × (r.id ≡ env.incidents.next_key t)
        × (r.status ≡ initial_status input.status)
  unfolding create_incident create_checked insert commit_row new_row create_dict
  created_row now input r t h =
      elim (List-cases (validate_incident_fields (create_payload input))) [
        | inr (e, es, invalid) ↦ absurd (ground arith)
        | inl valid ↦ elim (Result-cases (parse_timestamp env (env.isoformat now))) [
          | inr (e, failed) ↦ absurd (ground arith)
          | inl (time, parsed) ↦
              (ground (arith, env.incidents.rows-insert r t), ground arith, ground arith)
        ]
      ]

  created_found :
      (now : ℕ) (input : IncidentCreateInput) (r : IncidentRecord) (t : env.incidents.Tab)
      → (create_incident env now input t).0 ≡ ok (some r, [])
      → find (has_key id_of source_of r.id) (env.incidents.rows (create_incident env now input t).1)
        ≡ some r
  created_found now input r t h =
      let (rows, key, _) = created_row now input r t h in
      let fresh =
        find_fresh (env.incidents.next_key t) (env.incidents.rows t)
          (env.incidents.next_key-above t) in
      ground
        (arith, fresh, find-append (has_key id_of source_of r.id) (env.incidents.rows t) (r ∷ []))

  -- An incident that is created with a status that is none of the four, such as one of them with blanks
  -- around it, which the validation admits, has this status ever after, whatever calls are made.
  pub unknown_status_stuck :
      (now : ℕ) (input : IncidentCreateInput) (r : IncidentRecord) (t : env.incidents.Tab)
      → (create_incident env now input t).0 ≡ ok (some r, [])
      → contains (initial_status input.status) valid_statuses ≡ false
      → (calls : List (ℕ × Call))
      → (s : IncidentRecord) × (find
            (has_key id_of source_of r.id)
            (env.incidents.rows (run env calls (create_incident env now input t).1))
          ≡ some s)
        × (s.status ≡ initial_status input.status)
  unknown_status_stuck now input r t created unknown calls =
      let (_, _, given) = created_row now input r t created in
      let (s, found, _, path) =
        run-IsFollowed env calls (create_incident env now input t).1 r.id r
          (created_found now input r t created) in
      (s, found, unknown_stays (rw given unknown) path ∙ given)
