-- ===== src/Jobs/Tests.antt =====
-- The theorems on data/pipelines/job_runner.py at concrete inputs.
use brasaland_digital.Base.{ℕ, ◌≡◌, ◌≤◌, refl, inr, true, some, List, [], ◌∷◌, String, arith, ok}
use brasaland_digital.Base.Affixes.{len}
use brasaland_digital.Jobs.Store.{
  JobRun, list_jobs, new_run, fail_stale, claim_insert, get_job_run, mark_stale_failed,
  transition_failed_to_processing,
}
use brasaland_digital.Jobs.Claims.{claim_job, claim_existing, interleave, winners}
use brasaland_digital.Jobs.Claims.Rows.{row_of}
use brasaland_digital.Jobs.Claims.Winner.{starters, held, one_winner}
use brasaland_digital.Jobs.Claims.Alone.{claim_row, claim_job_refines}
use brasaland_digital.Jobs.Claims.Takeover.{both_read, stale_lock_taken_twice}
use brasaland_digital.Jobs.Finish.{answers, lost_before, lost_after, mark_failed}
use brasaland_digital.Jobs.Finish.Attempts.{mark_failed_returns}

-- A lock that was taken at 10, of the job of the night 5.
abbrev locked : List JobRun
locked = new_run "sales" 5 10 ∷ []

abbrev failed : List JobRun
failed = fail_stale 20 (new_run "sales" 5 10) ∷ []

-- Two processes claim the failed job, in turns.
abbrev in_turns : List ℕ
in_turns = 0 ∷ 1 ∷ 0 ∷ 1 ∷ 1 ∷ 0 ∷ []

one_winner_example :
    let after = interleave list_jobs "sales" 5 6 in_turns (starters (30 ∷ 32 ∷ []), failed) in
    (winners after.0 ≤ 1) × (winners after.0 ≡ held (row_of list_jobs "sales" 5 after.1))
one_winner_example =
    one_winner list_jobs "sales" 5 6 30 (30 ∷ 32 ∷ []) in_turns failed (omega arith) refl
      ((omega arith, omega arith), ((omega arith, omega arith), tt))

claim_job_refines_example :
    let after = claim_job list_jobs "sales" 5 6 40 locked in
    let alone = claim_row "sales" 5 6 40 (row_of list_jobs "sales" 5 locked) in
    (after.0 ≡ alone.0) × (row_of list_jobs "sales" 5 after.1 ≡ alone.1)
claim_job_refines_example = claim_job_refines list_jobs "sales" 5 6 40 locked (omega arith)

taken_over : (claim_job list_jobs "sales" 5 6 40 locked).0 ≡ (true, "claimed_stale_takeover")
unfolding claim_job claim_insert claim_existing get_job_run mark_stale_failed
    transition_failed_to_processing
taken_over = refl

stale_lock_taken_twice_example :
    winners (interleave list_jobs "sales" 5 6 both_read (starters (40 ∷ 41 ∷ []), locked)).0 ≡ 2
stale_lock_taken_twice_example =
    stale_lock_taken_twice list_jobs "sales" 5 6 40 41 locked (new_run "sales" 5 10) (omega arith)
      refl refl (omega arith) (omega arith)

mark_failed_returns_example :
    let after =
      mark_failed list_jobs "sales" 5 "no data"
        (50, lost_after)
        (51, lost_before)
        (52, answers)
        locked in
    (after.0 ≡ ok tt)
    × ((r : JobRun) × (text : String) × (row_of list_jobs "sales" 5 after.1 ≡ some r)
        × (r.status ≡ "failed")
        × (r.error_message ≡ some text)
        × (len text ≤ 2000))
mark_failed_returns_example =
    mark_failed_returns list_jobs "sales" 5 "no data" (50, lost_after) (51, lost_before)
      (52, answers) locked (omega arith) refl (inr (inr refl))
