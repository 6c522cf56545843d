-- ===== src/Jobs/Claims/Machine.antt =====
-- claim_job of data/pipelines/job_runner.py as a machine on the one row of its job and date.
use brasaland_digital.Base.{
  ℕ, zero, suc, ◌≡◌, refl, ap, true, false, not, Option, is_some, List, [], ◌∷◌, String,
  if◌then◌else◌, subst,
}
use brasaland_digital.Jobs.Store.{JobRun, JobTable, restart, fail_stale}
use brasaland_digital.Jobs.Claims.{
  Claimer, at_insert, at_select, at_reinsert, at_stale, at_retry, done, after_select, claim_step,
  Processes, advance, interleave,
}
use brasaland_digital.Jobs.Claims.Rows.{
  has, updated, row_of, IsSingle, inserted, get_job_run_lem, transition_lem, mark_stale_lem,
  claim_insert_lem,
}

module _ (jobs : JobTable) (name : String) (date stale_lock : ℕ) where
  -- A statement, as one on the row.
  abbrev pub row_step : ℕ → Claimer → Option JobRun → Claimer × Option JobRun
  row_step now at_insert row = (
    if not (is_some row) then done true "claimed" else at_select,
    inserted jobs name date now row,
  )
  row_step now at_select row = (after_select jobs name date stale_lock now row, row)
  row_step now at_reinsert row = (
    if not (is_some row) then done true "claimed" else done false "skipped_running",
    inserted jobs name date now row,
  )
  row_step now at_stale row = (
    if has "processing" row
        then at_retry "claimed_stale_takeover"
        else done false "skipped_running",
    updated (fail_stale now) "processing" row,
  )
  row_step now (at_retry reason) row = (
    if has "failed" row then done true reason else done false "skipped_running",
    updated (restart now) "failed" row,
  )
  row_step now (done won reason) row = (done won reason, row)

  step_lem :
      (now : ℕ) (c : Claimer) (t : jobs.Tab)
      → IsSingle jobs name date t
      → let after = claim_step jobs name date stale_lock now c t in
        (after.0 ≡ (row_step now c (row_of jobs name date t)).0)
        × (row_of jobs name date after.1 ≡ (row_step now c (row_of jobs name date t)).1)
        × IsSingle jobs name date after.1
  unfolding claim_step
  step_lem now at_insert t one =
      let (does, answer, single) = claim_insert_lem jobs name date now t one in
      (rw (answer) refl, does, single)
  step_lem now at_select t one = (
    ap (after_select jobs name date stale_lock now) (get_job_run_lem jobs name date t),
    refl,
    one,
  )
  step_lem now at_reinsert t one =
      let (does, answer, single) = claim_insert_lem jobs name date now t one in
      (rw (answer) refl, does, single)
  step_lem now at_stale t one =
      let (does, answer, single) = mark_stale_lem jobs name date now t one in
      (rw (answer) refl, does, single)
  step_lem now (at_retry reason) t one =
      let (does, answer, single) = transition_lem jobs name date now t one in
      (rw (answer) refl, does, single)
  step_lem now (done won reason) t one = (refl, refl, one)

  abbrev pub row_advance : ℕ → Processes × Option JobRun → Processes × Option JobRun
  row_advance i ([], row) = ([], row)
  row_advance zero (p ∷ rest, row) = let (c, row') = row_step p.0 p.1 row in ((p.0, c) ∷ rest, row')
  row_advance (suc i) (p ∷ rest, row) =
      let (rest', row') = row_advance i (rest, row) in (p ∷ rest', row')

  abbrev pub row_interleave : List ℕ → Processes × Option JobRun → Processes × Option JobRun
  row_interleave [] s = s
  row_interleave (i ∷ schedule) s = row_interleave schedule (row_advance i s)

  advance_lem :
      (i : ℕ) (ps : Processes) (t : jobs.Tab)
      → IsSingle jobs name date t
      → let after = advance jobs name date stale_lock i (ps, t) in
        (after.0 ≡ (row_advance i (ps, row_of jobs name date t)).0)
        × (row_of jobs name date after.1 ≡ (row_advance i (ps, row_of jobs name date t)).1)
        × IsSingle jobs name date after.1
  advance_lem i [] t one = (refl, refl, one)
  advance_lem zero (p ∷ rest) t one =
      let (moved, does, single) = step_lem p.0 p.1 t one in
      (ap (λ c. (p.0, c) ∷ rest) moved, does, single)
  advance_lem (suc i) (p ∷ rest) t one =
      let (moved, does, single) = advance_lem i rest t one in
      (ap (λ others. p ∷ others) moved, does, single)

  -- The processes that claim a job of a table which has at most one row for it move as they do on that
  -- row alone, and leave it as they leave it there, in whatever order their statements come.
  pub interleave_refines :
      (schedule : List ℕ) (ps : Processes) (t : jobs.Tab)
      → IsSingle jobs name date t
      → let after = interleave jobs name date stale_lock schedule (ps, t) in
        let alone = row_interleave schedule (ps, row_of jobs name date t) in
        (after.0 ≡ alone.0) × (row_of jobs name date after.1 ≡ alone.1)
  interleave_refines [] ps t one = (refl, refl)
  interleave_refines (i ∷ schedule) ps t one =
      let (moved, does, single) = advance_lem i ps t one in
      let (ps', t') = advance jobs name date stale_lock i (ps, t) in
      let same : (ps', row_of jobs name date t') ≡ row_advance i (ps, row_of jobs name date t) =
        λ k. (moved k, does k) in
      let after = interleave jobs name date stale_lock schedule (ps', t') in
      subst
        (λ s.
          (after.0 ≡ (row_interleave schedule s).0)
          × (row_of jobs name date after.1 ≡ (row_interleave schedule s).1))
        same (interleave_refines schedule ps' t' single)
