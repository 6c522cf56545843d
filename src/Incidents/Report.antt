-- ===== src/Incidents/Report.antt =====
-- The report of `seed_batch` of services/incident-manager, against the batch and the database.
use mathlib.Core.List.{append-nil, append_assoc}
use brasaland_digital.Base.{
  ℕ, ◌+◌, ◌≡◌, refl, subst, sym, ap, ◌∙◌, inl, inr, Bool, List, [], ◌∷◌, ◌++◌, arith, map, length,
  length-append, is_empty, some, select, not, Result, ok, Result-cases, Option-cases, List-cases,
  Bool-cases,
}
use brasaland_digital.Base.Monad.{>>=-eq-ok}
use brasaland_digital.Shared.{FieldError, validate_incident_fields}
use brasaland_digital.Incidents.Store.{
  IncidentRecord, Env, new_row, committed_source, insert, commit_row, find_by_source_incident_id,
  parse_timestamp,
}
use brasaland_digital.Incidents.Service.{
  IncidentSeedInput, SeedReport, RejectedSeedRow, reason, empty_report, seed_dict,
  validation_payload, insert_or_skip, seed_checked, seed_rows, seed_batch,
}

-- Whether a row passes the validation.
abbrev pub is_valid_row : IncidentSeedInput → Bool
is_valid_row row = is_empty (validate_incident_fields (validation_payload row))

-- The rows of a batch that do not pass, each with its errors.
abbrev pub rejections : List IncidentSeedInput → List RejectedSeedRow
rejections rows =
    map
      (λ row. record {
        source_incident_id = row.source_incident_id;
        reasons = map reason (validate_incident_fields (validation_payload row));
      })
      (select (λ row. not (is_valid_row row)) rows)

abbrev counted : SeedReport → ℕ
counted report = report.inserted + report.skipped_duplicate

module _ (env : Env) where
  -- From the first report and table to the second ones, as many rows were added as are counted.
  abbrev IsAdded : SeedReport → env.incidents.Tab → SeedReport → env.incidents.Tab → Type 0
  IsAdded report t out t' =
      (added : List IncidentRecord) × (env.incidents.rows t' ≡ env.incidents.rows t ++ added)
      × (out.inserted ≡ report.inserted + length added)

  IsAdded-trans :
      (a b c : SeedReport) (t u v : env.incidents.Tab)
      → IsAdded a t b u
      → IsAdded b u c v
      → IsAdded a t c v
  IsAdded-trans a b c t u v (first, e, n) (second, e', n') = (
    first ++ second,
    e' ∙ ap (λ rows. rows ++ second) e ∙ append_assoc (env.incidents.rows t) first second,
    omega (arith, n, n', length-append first second),
  )

  insert_adds :
      (row : IncidentSeedInput) (t : env.incidents.Tab) (r : IncidentRecord)
      → (insert env (seed_dict row) t).0 ≡ ok r
      → (q : IncidentRecord) × (env.incidents.rows (insert env (seed_dict row) t).1
          ≡ env.incidents.rows t ++ q ∷ [])
  unfolding insert commit_row new_row committed_source
  insert_adds row t r h = elim (Result-cases (parse_timestamp env row.created_at)) [
    | inr (e, failed) ↦ absurd (ground arith)
    | inl (c, parsed) ↦ elim (Result-cases (parse_timestamp env row.updated_at)) [
      | inr (e, failed) ↦ absurd (ground arith)
      | inl (u, parsed') ↦
          let key = env.incidents.next_key t in
          let q =
            new_row (seed_dict row) key (committed_source key (some row.source_incident_id)) c u in
          (q, ground (arith, env.incidents.rows-insert q t))
    ]
  ]

  checked_adds :
      (row : IncidentSeedInput) (report out : SeedReport) (errors : List FieldError)
      (t : env.incidents.Tab)
      → (seed_checked env row report errors t).0 ≡ ok out
      → IsAdded report t out (seed_checked env row report errors t).1
  unfolding seed_checked find_by_source_incident_id insert_or_skip
  checked_adds row report out (e ∷ es) t h =
      ([], sym (append-nil (env.incidents.rows t)), ground arith)
  checked_adds row report out [] t h =
      elim (Option-cases (env.incidents.first row.source_incident_id t)) [
        | inr (r, found) ↦ ([], ground (arith, append-nil (env.incidents.rows t)), ground arith)
        | inl missing ↦ elim (Result-cases (insert env (seed_dict row) t).0) [
          | inr (e, failed) ↦ absurd (ground arith)
          | inl (r, done) ↦
              let (q, added) = insert_adds row t r done in (q ∷ [], ground arith, ground arith)
        ]
      ]

  checked_counts :
      (row : IncidentSeedInput) (report out : SeedReport) (t : env.incidents.Tab)
      → (seed_checked env row report (validate_incident_fields (validation_payload row)) t).0
        ≡ ok out
      → (out.rejected ≡ report.rejected ++ rejections (row ∷ []))
        × (counted out ≡ counted report + length (select is_valid_row (row ∷ [])))
  unfolding seed_checked find_by_source_incident_id insert_or_skip
  checked_counts row report out t h =
      elim (List-cases (validate_incident_fields (validation_payload row))) [
        | inl none_found ↦ (ground (arith, append-nil report.rejected), ground arith)
        | inr (e, es, found) ↦ (ground arith, ground arith)
      ]

  rejections-cons :
      (row : IncidentSeedInput) (rows : List IncidentSeedInput)
      → rejections (row ∷ rows) ≡ rejections (row ∷ []) ++ rejections rows
  rejections-cons row rows = elim (Bool-cases (is_valid_row row)) [
    | inl valid ↦ rw valid refl
    | inr invalid ↦ rw invalid refl
  ]

  rows_reported :
      (rows : List IncidentSeedInput) (report out : SeedReport) (t : env.incidents.Tab)
      → (seed_rows env rows report t).0 ≡ ok out
      → IsAdded report t out (seed_rows env rows report t).1
        × (out.rejected ≡ report.rejected ++ rejections rows)
        × (counted out ≡ counted report + length (select is_valid_row rows))
  unfolding seed_rows
  rows_reported [] report out t h = (
    ([], sym (append-nil (env.incidents.rows t)), ground arith),
    ground (arith, append-nil report.rejected),
    ground arith,
  )
  rows_reported (row ∷ rows) report out t h =
      let errors = validate_incident_fields (validation_payload row) in
      let (mid, first, rest) =
        >>=-eq-ok (seed_checked env row report errors) (seed_rows env rows) t h in
      let t' = (seed_checked env row report errors t).1 in
      let (rejected, counts) = checked_counts row report mid t first in
      let (adds, rejected', counts') =
        rows_reported rows mid out t'
          (ap (λ (p : Result _ SeedReport × env.incidents.Tab). p.0) (sym rest) ∙ h) in
      (
        subst (λ (p : Result _ SeedReport × env.incidents.Tab). IsAdded report t out p.1) (sym rest)
            (IsAdded-trans report mid out t t' _ (checked_adds row report mid errors t first) adds),
        rejected'
            ∙ ap (λ r. r ++ rejections rows) rejected
            ∙ append_assoc report.rejected (rejections (row ∷ [])) (rejections rows)
            ∙ ap (λ r. report.rejected ++ r) (sym (rejections-cons row rows)),
        ground (arith, counts, counts'),
      )

  -- When seeding returns, the rows of the table are those before with as many new ones after them as
  -- are counted as inserted; the rejected rows are those of the batch that do not pass the validation,
  -- with their errors; and all others are counted as inserted or as skipped.
  pub seed_batch-accounts :
      (rows : List IncidentSeedInput) (out : SeedReport) (t : env.incidents.Tab)
      → (seed_batch env rows t).0 ≡ ok out
      → ((added : List IncidentRecord) × (env.incidents.rows (seed_batch env rows t).1
            ≡ env.incidents.rows t ++ added)
          × (out.inserted ≡ length added))
        × (out.rejected ≡ rejections rows)
        × (out.inserted + out.skipped_duplicate ≡ length (select is_valid_row rows))
  unfolding seed_batch
  seed_batch-accounts rows out t h =
      let ((added, rows_after, inserted), rejected, counts) =
        rows_reported rows empty_report out t h in
      ((added, rows_after, omega (arith, inserted)), rejected, omega (arith, counts))
