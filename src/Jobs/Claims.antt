-- ===== src/Jobs/Claims.antt =====
-- data/pipelines/job_runner.py: claim_job, as a whole and statement by statement.
pub mod Rows
pub mod Winner
pub mod Machine
pub mod Alone
pub mod Takeover
use brasaland_digital.Base.{
  ℕ, zero, suc, ◌+◌, Bool, true, false, Option, some, none, List, [], ◌∷◌, String, ◌==◌,
  if◌then◌else◌,
}
use brasaland_digital.Jobs.Store.{
  JobRun, JobTable, get_job_run, claim_insert, transition_failed_to_processing, mark_stale_failed,
  is_fresh_processing,
}

-- Where a process stands in `claim_job`, before its next statement.
pub data Claimer : Type 0 where
  at_insert : Claimer
  at_select : Claimer
  at_reinsert : Claimer
  at_stale : Claimer
  -- Before the change from failed to processing, with the reason it gives when it wins.
  at_retry : String → Claimer
  done : Bool → String → Claimer

module _ (jobs : JobTable) (name : String) (date stale_lock : ℕ) where
  -- What follows from the row that a process reads.
  unfoldable pub after_select : ℕ → Option JobRun → Claimer
  after_select now none = at_reinsert
  after_select now (some r) =
      if r.status == "completed"
      then done false "skipped_completed"
      else if r.status == "processing"
      then if is_fresh_processing stale_lock r now then done false "skipped_running" else at_stale
      else if r.status == "failed"
      then at_retry "claimed_retry"
      else done false "skipped_running"

  -- One statement of a process that read the clock at `now`. Each statement commits.
  unfoldable pub claim_step : ℕ → Claimer → jobs.Tab → Claimer × jobs.Tab
  claim_step now at_insert t =
      let (t', won) = claim_insert jobs name date now t in
      (if won then done true "claimed" else at_select, t')
  claim_step now at_select t = (after_select now (get_job_run jobs name date t), t)
  claim_step now at_reinsert t =
      let (t', won) = claim_insert jobs name date now t in
      (if won then done true "claimed" else done false "skipped_running", t')
  claim_step now at_stale t =
      let (t', marked) = mark_stale_failed jobs name date now t in
      (if marked then at_retry "claimed_stale_takeover" else done false "skipped_running", t')
  claim_step now (at_retry reason) t =
      let (t', won) = transition_failed_to_processing jobs name date now t in
      (if won then done true reason else done false "skipped_running", t')
  claim_step now (done won reason) t = (done won reason, t)

  -- `claim_job` of a process that runs alone.
  unfoldable pub claim_existing : ℕ → Option JobRun → jobs.Tab → (Bool × String) × jobs.Tab
  claim_existing now none t =
      let (t', won) = claim_insert jobs name date now t in
      (if won then (true, "claimed") else (false, "skipped_running"), t')
  claim_existing now (some r) t =
      let (marked, is_marked) = mark_stale_failed jobs name date now t in
      let (taken, is_taken) = transition_failed_to_processing jobs name date now marked in
      let (retried, is_retried) = transition_failed_to_processing jobs name date now t in
      if r.status == "completed"
      then ((false, "skipped_completed"), t)
      else if r.status == "processing"
      then if is_fresh_processing stale_lock r now
        then ((false, "skipped_running"), t)
        else if is_marked
        then (
          if is_taken then (true, "claimed_stale_takeover") else (false, "skipped_running"),
          taken,
        )
        else ((false, "skipped_running"), marked)
      else if r.status == "failed"
      then (if is_retried then (true, "claimed_retry") else (false, "skipped_running"), retried)
      else ((false, "skipped_running"), t)

  unfoldable pub claim_job : ℕ → jobs.Tab → (Bool × String) × jobs.Tab
  claim_job now t =
      let (t', won) = claim_insert jobs name date now t in
      let rest = claim_existing now (get_job_run jobs name date t') t' in
      if won then ((true, "claimed"), t') else rest

-- Processes that claim the same job, each with the time at which it read the clock.
abbrev pub Processes : Type 0
Processes = List (ℕ × Claimer)

abbrev pub is_winner : Claimer → Bool
is_winner (done won reason) = won
is_winner at_insert = false
is_winner at_select = false
is_winner at_reinsert = false
is_winner at_stale = false
is_winner (at_retry reason) = false

abbrev pub winners : Processes → ℕ
winners [] = 0
winners (p ∷ rest) = (if is_winner p.1 then 1 else 0) + winners rest

module _ (jobs : JobTable) (name : String) (date stale_lock : ℕ) where
  -- The next statement of the process with the index.
  abbrev pub advance : ℕ → Processes × jobs.Tab → Processes × jobs.Tab
  advance i ([], t) = ([], t)
  advance zero (p ∷ rest, t) =
      let (c, t') = claim_step jobs name date stale_lock p.0 p.1 t in ((p.0, c) ∷ rest, t')
  advance (suc i) (p ∷ rest, t) = let (rest', t') = advance i (rest, t) in (p ∷ rest', t')

  -- Statements in the order of a schedule, which names the process of each.
  abbrev pub interleave : List ℕ → Processes × jobs.Tab → Processes × jobs.Tab
  interleave [] s = s
  interleave (i ∷ schedule) s = interleave schedule (advance i s)
