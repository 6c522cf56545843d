-- ===== src/Incidents/Seeding.antt =====
-- `seed_batch` of services/incident-manager: its report, and what a second run does.
use brasaland_digital.Base.{
  ℕ, suc, ◌≡◌, refl, sym, ap, subst, ◌∙◌, inl, inr, Bool, true, false, List, [], ◌∷◌, ◌++◌, String,
  eq_refl, arith, All, All-map, exists, exists-find, update_where, is_blank, Result, ok,
  Result-cases, Option-cases,
}
use brasaland_digital.Base.Monad.{>>=-eq-ok}
use brasaland_digital.Base.Sql.{has_key, has_unique}
use brasaland_digital.Shared.{FieldError, validate_incident_fields}
use brasaland_digital.Incidents.Store.{
  IncidentRecord, id_of, source_of, Env, set_status, new_row, committed_source, commit_row,
  parse_timestamp, insert, find_by_source_incident_id,
}
use brasaland_digital.Incidents.Service.{
  IncidentSeedInput, SeedReport, empty_report, seed_dict, validation_payload, insert_or_skip,
  seed_checked, seed_rows, seed_batch, Call, run,
}
use brasaland_digital.Incidents.Writes.{run_keeps, seed_rows_keeps}

abbrev HasSource : String → (env : Env) → env.incidents.Tab → Type 0
HasSource source env t = exists (has_unique id_of source_of source) (env.incidents.rows t) ≡ true

-- A row that passes the validation has its source in the database.
abbrev IsSettled : (env : Env) → env.incidents.Tab → IncidentSeedInput → Type 0
IsSettled env t row =
    validate_incident_fields (validation_payload row) ≡ [] → HasSource row.source_incident_id env t

exists-append :
    (p : IncidentRecord → Bool) (rs : List IncidentRecord) (r : IncidentRecord)
    → exists p rs ≡ true
    → exists p (rs ++ r ∷ []) ≡ true
exists-append p [] r h = absurd (ground arith)
exists-append p (x ∷ xs) r h = ground (arith, exists-append p xs r)

exists-append_last :
    (p : IncidentRecord → Bool) (rs : List IncidentRecord) (r : IncidentRecord)
    → p r ≡ true
    → exists p (rs ++ r ∷ []) ≡ true
exists-append_last p [] r h = ground arith
exists-append_last p (x ∷ xs) r h = ground (arith, exists-append_last p xs r h)

exists-set_status :
    (source target : String) (time k : ℕ) (rs : List IncidentRecord)
    → exists (has_unique id_of source_of source) rs ≡ true
    → exists
        (has_unique id_of source_of source)
        (update_where (set_status target time) (has_key id_of source_of k) rs)
      ≡ true
exists-set_status source target time k [] h = absurd (ground arith)
exists-set_status source target time k (x ∷ xs) h =
    ground (arith, exists-set_status source target time k xs)

module _ (env : Env) where
  inserted_has :
      (source : String) (t : env.incidents.Tab) (r : IncidentRecord)
      → HasSource source env t
      → HasSource source env (env.incidents.insert r t)
  inserted_has source t r h =
      subst (λ rs. exists (has_unique id_of source_of source) rs ≡ true)
        (sym (env.incidents.rows-insert r t)) (exists-append _ (env.incidents.rows t) r h)

  updated_has :
      (source : String) (t : env.incidents.Tab) (k : ℕ) (target : String) (time : ℕ)
      → HasSource source env t
      → HasSource source env (env.incidents.update (set_status target time) k t)
  updated_has source t k target time h =
      subst (λ rs. exists (has_unique id_of source_of source) rs ≡ true)
        (sym (env.incidents.rows-update (set_status target time) k t))
        (exists-set_status source target time k (env.incidents.rows t) h)

  insert_has :
      (row : IncidentSeedInput) (t : env.incidents.Tab) (r : IncidentRecord)
      → is_blank row.source_incident_id ≡ false
      → (insert env (seed_dict row) t).0 ≡ ok r
      → HasSource row.source_incident_id env (insert env (seed_dict row) t).1
  unfolding insert commit_row new_row committed_source
  insert_has row t r given h = elim (Result-cases (parse_timestamp env row.created_at)) [
    | inr (e, failed) ↦ absurd (ground arith)
    | inl (c, parsed) ↦ elim (Result-cases (parse_timestamp env row.updated_at)) [
      | inr (e, failed) ↦ absurd (ground arith)
      | inl (u, parsed') ↦
          let q = new_row (seed_dict row) (env.incidents.next_key t) row.source_incident_id c u in
          let has : HasSource row.source_incident_id env (env.incidents.insert q t) =
            subst (λ rs. exists (has_unique id_of source_of row.source_incident_id) rs ≡ true)
              (sym (env.incidents.rows-insert q t))
              (exists-append_last _ (env.incidents.rows t) q (eq_refl row.source_incident_id)) in
          ground (arith, has)
    ]
  ]

  checked_settles :
      (row : IncidentSeedInput) (report out : SeedReport) (errors : List FieldError)
      (t : env.incidents.Tab)
      → is_blank row.source_incident_id ≡ false
      → validate_incident_fields (validation_payload row) ≡ errors
      → (seed_checked env row report errors t).0 ≡ ok out
      → IsSettled env (seed_checked env row report errors t).1 row
  unfolding seed_checked find_by_source_incident_id insert_or_skip
  checked_settles row report out (e ∷ es) t given v h valid = absurd (ground arith)
  checked_settles row report out [] t given v h valid =
      elim (Option-cases (env.incidents.first row.source_incident_id t)) [
        | inr (r, found) ↦ ground (
          arith,
          env.incidents.first-find row.source_incident_id t,
          exists-find (has_unique id_of source_of row.source_incident_id) (env.incidents.rows t),
        )
        | inl missing ↦ elim (Result-cases (insert env (seed_dict row) t).0) [
          | inr (e, failed) ↦ absurd (ground arith)
          | inl (r, done) ↦ ground (arith, insert_has row t r given done)
        ]
      ]

  rows_settle :
      (rows : List IncidentSeedInput) (report out : SeedReport) (t : env.incidents.Tab)
      → All (λ row. is_blank row.source_incident_id ≡ false) rows
      → (seed_rows env rows report t).0 ≡ ok out
      → All (IsSettled env (seed_rows env rows report t).1) rows
  unfolding seed_rows
  rows_settle [] report out t given h = tt
  rows_settle (row ∷ rows) report out t given h =
      let errors = validate_incident_fields (validation_payload row) in
      let (mid, first, rest) =
        >>=-eq-ok (seed_checked env row report errors) (seed_rows env rows) t h in
      let t' = (seed_checked env row report errors t).1 in
      let settled = checked_settles row report mid errors t given.0 refl first in
      let head : IsSettled env (seed_rows env rows mid t').1 row = λ valid.
        seed_rows_keeps env (HasSource row.source_incident_id env)
          (λ s r keeps _ _. inserted_has row.source_incident_id s r keeps)
          (λ s k r target time keeps _ _. updated_has row.source_incident_id s k target time keeps)
          rows mid t' (settled valid) in
      let tail =
        rows_settle rows mid out t' given.1
          (ap (λ (p : Result _ SeedReport × env.incidents.Tab). p.0) (sym rest) ∙ h) in
      subst (λ (p : Result _ SeedReport × env.incidents.Tab). All (IsSettled env p.1) (row ∷ rows))
        (sym rest) (head, tail)

  run_settles :
      (calls : List (ℕ × Call)) (row : IncidentSeedInput) (t : env.incidents.Tab)
      → IsSettled env t row
      → IsSettled env (run env calls t) row
  run_settles calls row t settled valid =
      run_keeps env (HasSource row.source_incident_id env)
        (λ s r keeps _ _. inserted_has row.source_incident_id s r keeps)
        (λ s k r target time keeps _ _. updated_has row.source_incident_id s k target time keeps)
        calls t (settled valid)

  checked_skips :
      (row : IncidentSeedInput) (report : SeedReport) (errors : List FieldError)
      (t : env.incidents.Tab)
      → validate_incident_fields (validation_payload row) ≡ errors
      → IsSettled env t row
      → (out : SeedReport) × (seed_checked env row report errors t ≡ (ok out, t))
        × (out.inserted ≡ report.inserted)
  unfolding seed_checked find_by_source_incident_id insert_or_skip
  checked_skips row report (e ∷ es) t v settled = (_, refl, refl)
  checked_skips row report [] t v settled =
      elim (Option-cases (env.incidents.first row.source_incident_id t)) [
        | inr (r, found) ↦
            (record report { skipped_duplicate = suc report.skipped_duplicate }, ground arith, refl)
        | inl missing ↦ absurd (
            let has = settled v in
            ground (
              arith,
              env.incidents.first-find row.source_incident_id t,
              exists-find (has_unique id_of source_of row.source_incident_id)
                  (env.incidents.rows t),
            ))
      ]

  rows_skip :
      (rows : List IncidentSeedInput) (report : SeedReport) (t : env.incidents.Tab)
      → All (IsSettled env t) rows
      → (out : SeedReport) × (seed_rows env rows report t ≡ (ok out, t))
        × (out.inserted ≡ report.inserted)
  unfolding seed_rows
  rows_skip [] report t settled = (report, refl, refl)
  rows_skip (row ∷ rows) report t settled =
      let (mid, step, same) = checked_skips row report _ t refl settled.0 in
      let (out, steps, same') = rows_skip rows mid t settled.1 in
      (out, ground (arith, step, steps), same' ∙ same)

  -- Once a batch whose rows have a source was seeded, seeding it again, after whatever calls, returns,
  -- inserts nothing and leaves the database as it is.
  pub seed_batch-again :
      (rows : List IncidentSeedInput) (first : SeedReport) (t : env.incidents.Tab)
      → All (λ row. is_blank row.source_incident_id ≡ false) rows
      → (seed_batch env rows t).0 ≡ ok first
      → (calls : List (ℕ × Call))
      → let later = run env calls (seed_batch env rows t).1 in
        (out : SeedReport) × (seed_batch env rows later ≡ (ok out, later)) × (out.inserted ≡ 0)
  unfolding seed_batch
  seed_batch-again rows first t given h calls = rows_skip rows empty_report _ (
      All-map rows (λ row settled. run_settles calls row _ settled)
        (rows_settle rows empty_report first t given h))
