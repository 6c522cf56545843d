-- ===== src/Jobs/Claims/Alone.antt =====
-- claim_job of data/pipelines/job_runner.py, of a process that runs alone.
use brasaland_digital.Base.{
  ℕ, ◌≡◌, refl, ap, Bool, true, false, Option, some, none, String, ◌==◌, if◌then◌else◌, Bool-cases,
  Option-cases, inl, inr, ◌∙◌,
}
use brasaland_digital.Jobs.Store.{
  JobRun, JobTable, new_run, restart, fail_stale, get_job_run, claim_insert,
  transition_failed_to_processing, mark_stale_failed, is_fresh_processing,
}
use brasaland_digital.Jobs.Claims.{claim_existing, claim_job}
use brasaland_digital.Jobs.Claims.Rows.{
  has, updated, row_of, IsSingle, inserted, get_job_run_lem, transition_lem, mark_stale_lem,
  claim_insert_lem,
}

-- What a process that runs alone makes of the row, and what it is told.
unfoldable pub claim_row : String → ℕ → ℕ → ℕ → Option JobRun → (Bool × String) × Option JobRun
claim_row name date stale_lock now none = ((true, "claimed"), some (new_run name date now))
claim_row name date stale_lock now (some r) =
    if r.status == "completed"
    then ((false, "skipped_completed"), some r)
    else if r.status == "processing"
    then if is_fresh_processing stale_lock r now
      then ((false, "skipped_running"), some r)
      else ((true, "claimed_stale_takeover"), some (restart now (fail_stale now r)))
    else if r.status == "failed"
    then ((true, "claimed_retry"), some (restart now r))
    else ((false, "skipped_running"), some r)

module _ (jobs : JobTable) (name : String) (date stale_lock now : ℕ) where
  -- Of a lock that is stale, and of a job that failed.
  stale_taken :
      (t : jobs.Tab) (r : JobRun)
      → IsSingle jobs name date t
      → row_of jobs name date t ≡ some r
      → (r.status == "processing") ≡ true
      → let marked = mark_stale_failed jobs name date now t in
        let taken = transition_failed_to_processing jobs name date now marked.0 in
        (marked.1 ≡ true)
        × (taken.1 ≡ true)
        × (row_of jobs name date taken.0 ≡ some (restart now (fail_stale now r)))
  stale_taken t r one stored locked =
      let (marks, marked, single) = mark_stale_lem jobs name date now t one in
      let (takes, taken, _) =
        transition_lem jobs name date now (mark_stale_failed jobs name date now t).0 single in
      let failed : updated (fail_stale now) "processing" (row_of jobs name date t)
          ≡ some (fail_stale now r) =
        rw (stored, locked) refl in
      (
        marked ∙ rw (stored) locked,
        taken ∙ ap (has "failed") (marks ∙ failed),
        takes ∙ ap (updated (restart now) "failed") (marks ∙ failed),
      )

  failed_taken :
      (t : jobs.Tab) (r : JobRun)
      → IsSingle jobs name date t
      → row_of jobs name date t ≡ some r
      → (r.status == "failed") ≡ true
      → let taken = transition_failed_to_processing jobs name date now t in
        (taken.1 ≡ true) × (row_of jobs name date taken.0 ≡ some (restart now r))
  failed_taken t r one stored failed =
      let (takes, taken, _) = transition_lem jobs name date now t one in
      (taken ∙ rw (stored) failed, takes ∙ rw (stored, failed) refl)

  existing_refines :
      (t : jobs.Tab) (r : JobRun)
      → IsSingle jobs name date t
      → row_of jobs name date t ≡ some r
      → let after = claim_existing jobs name date stale_lock now (some r) t in
        let alone = claim_row name date stale_lock now (some r) in
        (after.0 ≡ alone.0) × (row_of jobs name date after.1 ≡ alone.1)
  unfolding claim_existing claim_row
  existing_refines t r one stored = elim (Bool-cases (r.status == "completed")) [
    | inl completed ↦ rw (completed) (refl, stored)
    | inr open_job ↦ elim (Bool-cases (r.status == "processing")) [
      | inl locked ↦
          let (marked, taken, restarted) = stale_taken t r one stored locked in
          elim (Bool-cases (is_fresh_processing stale_lock r now)) [
            | inl fresh ↦ rw (open_job, locked, fresh) (refl, stored)
            | inr stale ↦ rw (open_job, locked, stale, marked, taken) (refl, restarted)
          ]
      | inr free ↦ elim (Bool-cases (r.status == "failed")) [
        | inl failed ↦
            let (taken, restarted) = failed_taken t r one stored failed in
            rw (open_job, free, failed, taken) (refl, restarted)
        | inr other ↦ rw (open_job, free, other) (refl, stored)
      ]
    ]
  ]

  -- In a table with at most one row of the job, a process that runs alone is told what the state of
  -- the job calls for: it wins a job that was never run, has failed or has a stale lock, and leaves a
  -- job that is completed, is locked or has another status as it is.
  pub claim_job_refines :
      (t : jobs.Tab)
      → IsSingle jobs name date t
      → let after = claim_job jobs name date stale_lock now t in
        let alone = claim_row name date stale_lock now (row_of jobs name date t) in
        (after.0 ≡ alone.0) × (row_of jobs name date after.1 ≡ alone.1)
  unfolding claim_job claim_row
  claim_job_refines t one =
      let (does, answer, single) = claim_insert_lem jobs name date now t one in
      let t' = (claim_insert jobs name date now t).0 in
      let read = get_job_run_lem jobs name date t' in
      elim (Option-cases (row_of jobs name date t)) [
        | inl absent ↦
            let won : (claim_insert jobs name date now t).1 ≡ true = answer ∙ rw (absent) refl in
            rw (won, absent) (refl, does ∙ ap (inserted jobs name date now) absent)
        | inr (r, stored) ↦
            let lost : (claim_insert jobs name date now t).1 ≡ false = answer ∙ rw (stored) refl in
            let there : row_of jobs name date t' ≡ some r =
              does ∙ ap (inserted jobs name date now) stored in
            let seen : get_job_run jobs name date t' ≡ some r = read ∙ there in
            rw (lost, seen, stored) (existing_refines t' r single there)
      ]
