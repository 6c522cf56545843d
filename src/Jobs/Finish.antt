-- ===== src/Jobs/Finish.antt =====
-- data/pipelines/job_runner.py: the end of a job, written again where the database fails.
pub mod Attempts
use brasaland_digital.Base.{
  ℕ, ◌-◌, Bool, true, false, Option, some, none, List, [], ◌∷◌, String, ◌==◌, leb, concat,
  if◌then◌else◌, Result, ok, err,
}
use brasaland_digital.Base.Affixes.{len, prefix}
use brasaland_digital.Jobs.Store.{JobRun, JobTable, has_status, get_job_run}

abbrev pub max_error_message_chars : ℕ
max_error_message_chars = 2000

unfoldable pub bound_error : Option String → Option String
bound_error none = none
bound_error (some message) =
    if leb (len message) max_error_message_chars
    then some message
    else some (concat (prefix (max_error_message_chars - 3) message) "...")

-- What the database does in an attempt: it answers, or the connection is lost before or after the
-- update is committed.
pub data Fault : Type 0 where
  answers : Fault
  lost_before : Fault
  lost_after : Fault

pub data Error : Type 0 where
  connection_lost : Error
  -- The `RuntimeError` of an update that found no processing row.
  not_finalized : Error

-- The values of the update.
abbrev pub finish : String → Option String → ℕ → JobRun → JobRun
finish status message now r = record r {
  status = status;
  finished_at = some now;
  error_message = bound_error message;
}

-- Whether the row has the status already.
abbrev pub is_finished : String → Option JobRun → Bool
is_finished status none = false
is_finished status (some r) = r.status == status

module _ (jobs : JobTable) (name : String) (date : ℕ) (status : String)
    (message : Option String) where
  -- The update of an attempt at a time.
  unfoldable pub finish_row : ℕ → jobs.Tab → jobs.Tab × Bool
  finish_row now t =
      let (t', count) =
        jobs.update (finish status message now) (has_status name date "processing") t in
      (t', leb 1 count)

  unfoldable pub attempt : ℕ → Fault → jobs.Tab → Result Error (Unit {0}) × jobs.Tab
  attempt now lost_before t = (err connection_lost, t)
  attempt now lost_after t = (err connection_lost, (finish_row now t).0)
  attempt now answers t =
      let (t', changed) = finish_row now t in
      (
        if changed
            then ok tt
            else if is_finished status (get_job_run jobs name date t')
            then ok tt
            else err not_finalized,
        t',
      )

  -- The attempts in turn, up to the first that succeeds; the last error is raised again.
  unfoldable pub attempts : Error → List (ℕ × Fault) → jobs.Tab → Result Error (Unit {0}) × jobs.Tab
  attempts last [] t = (err last, t)
  attempts last (a ∷ rest) t =
      let (result, t') = attempt a.0 a.1 t in
      elim result [ ok u ↦ (ok u, t') | err e ↦ attempts e rest t' ]

  -- There are three attempts.
  unfoldable pub finalize_with_retry :
      (first second third : ℕ × Fault) → jobs.Tab → Result Error (Unit {0}) × jobs.Tab
  finalize_with_retry first second third t =
      attempts connection_lost (first ∷ second ∷ third ∷ []) t

module _ (jobs : JobTable) (name : String) (date : ℕ) where
  unfoldable pub mark_completed :
      (first second third : ℕ × Fault) → jobs.Tab → Result Error (Unit {0}) × jobs.Tab
  mark_completed = finalize_with_retry jobs name date "completed" none

  unfoldable pub mark_failed :
      String → (first second third : ℕ × Fault) → jobs.Tab → Result Error (Unit {0}) × jobs.Tab
  mark_failed message = finalize_with_retry jobs name date "failed" (some message)
