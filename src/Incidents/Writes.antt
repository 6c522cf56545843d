-- ===== src/Incidents/Writes.antt =====
-- The two writes that all calls of services/incident-manager come down to: an insertion of a row that
-- passes the validation, and an allowed change of status. What both keep, all calls keep.
use brasaland_digital.Base.{
  ℕ, ◌≡◌, refl, inl, inr, true, some, List, [], ◌∷◌, String, arith, Result-cases, Bool-cases,
  Option-cases, find,
}
use brasaland_digital.Base.Monad.{after_bind}
use brasaland_digital.Base.Sql.{has_key}
use brasaland_digital.Shared.{FieldError, validate_incident_fields, validate_transition}
use brasaland_digital.Incidents.Store.{
  IncidentRecord, id_of, source_of, Env, NewIncident, new_row, set_status, parse_timestamp,
  commit_row, insert, get, find_by_source_incident_id, update_status_fields,
}
use brasaland_digital.Incidents.Service.{
  payload_of, validation_payload, create_payload, create_dict, seed_dict, IncidentSeedInput,
  SeedReport, IncidentCreateInput, seed_checked, seed_rows, seed_batch, create_checked,
  create_incident, change_status, update_incident_status, Call, creates, seeds, changes, serve, run,
  empty_report,
}

-- The fields of a row pass the validation.
abbrev pub IsValid : IncidentRecord → Type 0
IsValid r =
    validate_incident_fields
      (payload_of r.title r.description r.category r.status r.origin r.branch)
    ≡ []

-- The fields of the dict that is inserted pass the validation.
abbrev IsValidNew : NewIncident → Type 0
IsValidNew r =
    validate_incident_fields
      (payload_of r.title r.description r.category r.status r.origin r.branch)
    ≡ []

module _ (env : Env) (P : env.incidents.Tab → Type 0)
    (inserted : (t : env.incidents.Tab) (r : IncidentRecord)
      → P t
      → r.id ≡ env.incidents.next_key t
      → IsValid r
      → P (env.incidents.insert r t))
    (updated : (t : env.incidents.Tab) (k : ℕ) (r : IncidentRecord) (target : String) (time : ℕ)
      → P t
      → find (has_key id_of source_of k) (env.incidents.rows t) ≡ some r
      → (validate_transition r.status target).is_allowed ≡ true
      → P (env.incidents.update (set_status target time) k t)) where
  commit_keeps :
      (flushed : String) (r : IncidentRecord) (t : env.incidents.Tab)
      → P t
      → r.id ≡ env.incidents.next_key t
      → IsValid r
      → P (commit_row env flushed r t).1
  unfolding commit_row
  commit_keeps flushed r t h e v = ground (arith, inserted t r h e v)

  insert_keeps :
      (incident : NewIncident) (t : env.incidents.Tab)
      → P t
      → IsValidNew incident
      → P (insert env incident t).1
  unfolding insert new_row
  insert_keeps incident t h v = elim (Result-cases (parse_timestamp env incident.created_at)) [
    | inr (e, failed) ↦ rw failed h
    | inl (c, parsed) ↦ elim (Result-cases (parse_timestamp env incident.updated_at)) [
      | inr (e, failed) ↦ rw (parsed, failed) h
      | inl (u, parsed') ↦ rw (parsed, parsed') (commit_keeps _ _ t h refl v)
    ]
  ]

  seed_keeps :
      (row : IncidentSeedInput) (report : SeedReport) (errors : List FieldError)
      (t : env.incidents.Tab)
      → validate_incident_fields (validation_payload row) ≡ errors
      → P t
      → P (seed_checked env row report errors t).1
  unfolding seed_checked validation_payload find_by_source_incident_id
  seed_keeps row report (e ∷ es) t v h = h
  seed_keeps row report [] t v h = ground (arith, insert_keeps (seed_dict row) t h v)

  pub seed_rows_keeps :
      (rows : List IncidentSeedInput) (report : SeedReport) (t : env.incidents.Tab)
      → P t
      → P (seed_rows env rows report t).1
  unfolding seed_rows
  seed_rows_keeps [] report t h = h
  seed_rows_keeps (row ∷ rows) report t h =
      after_bind P (seed_checked env row report (validate_incident_fields (validation_payload row)))
        (seed_rows env rows) t (seed_keeps row report _ t refl h)
        (λ later e. seed_rows_keeps rows later _ (seed_keeps row report _ t refl h))

  create_keeps :
      (now : ℕ) (input : IncidentCreateInput) (errors : List FieldError) (t : env.incidents.Tab)
      → validate_incident_fields (create_payload input) ≡ errors
      → P t
      → P (create_checked env now input errors t).1
  unfolding create_checked create_payload create_dict
  create_keeps now input (e ∷ es) t v h = h
  create_keeps now input [] t v h =
      ground (arith, insert_keeps (create_dict input (env.isoformat now)) t h v)

  change_keeps :
      (now k : ℕ) (target : String) (t : env.incidents.Tab)
      → P t
      → P (update_incident_status env now k target t).1
  unfolding update_incident_status change_status get update_status_fields
  change_keeps now k target t h = elim (Option-cases (env.incidents.get k t)) [
    | inl missing ↦ rw missing h
    | inr (r, e) ↦ elim (Bool-cases (validate_transition r.status target).is_allowed) [
      | inr refused ↦ ground arith
      | inl allowed ↦ elim (Result-cases (parse_timestamp env (env.isoformat now))) [
        | inr (x, failed) ↦ ground arith
        | inl (time, parsed) ↦
            let found : find (has_key id_of source_of k) (env.incidents.rows t) ≡ some r =
              ground (arith, env.incidents.get-find k t) in
            ground (arith, updated t k r target time h found allowed)
      ]
    ]
  ]

  -- A call, whether it returns or raises, keeps what both writes keep.
  serve_keeps : (now : ℕ) (c : Call) (t : env.incidents.Tab) → P t → P (serve env now c t)
  unfolding serve create_incident seed_batch
  serve_keeps now (creates input) t h = create_keeps now input _ t refl h
  serve_keeps now (seeds rows) t h = seed_rows_keeps rows empty_report t h
  serve_keeps now (changes k target) t h = change_keeps now k target t h

  pub run_keeps : (calls : List (ℕ × Call)) (t : env.incidents.Tab) → P t → P (run env calls t)
  unfolding run
  run_keeps [] t h = h
  run_keeps ((now, c) ∷ calls) t h = run_keeps calls (serve env now c t) (serve_keeps now c t h)
