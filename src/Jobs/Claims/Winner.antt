-- ===== src/Jobs/Claims/Winner.antt =====
-- Of the processes that claim a job of data/pipelines/job_runner.py at once, one wins at most.
use brasaland_digital.Base.{
  ℕ, zero, suc, ◌+◌, ◌≤◌, ◌≡◌, refl, sym, subst, inl, inr, Bool, true, false, not, Option, some,
  none, is_some, List, [], ◌∷◌, String, ◌==◌, eq_iff, arith, All, Bool-cases, if◌then◌else◌,
}
use brasaland_digital.Jobs.Store.{JobRun, JobTable, restart}
use brasaland_digital.Jobs.Claims.{
  Claimer, at_insert, at_select, at_reinsert, at_stale, at_retry, done, after_select, claim_step,
  Processes, is_winner, winners, advance, interleave,
}
use brasaland_digital.Jobs.Claims.Rows.{
  has, updated, row_of, IsSingle, inserted, get_job_run_lem, transition_lem, claim_insert_lem,
}

-- One if the row is a lock.
abbrev pub held : Option JobRun → ℕ
held row = if has "processing" row then 1 else 0

abbrev pub wins : Claimer → ℕ
wins c = if is_winner c then 1 else 0

abbrev pub takes_over : Claimer → Bool
takes_over at_stale = true
takes_over at_insert = false
takes_over at_select = false
takes_over at_reinsert = false
takes_over (at_retry reason) = false
takes_over (done won reason) = false

failed_unlocked : (status : String) → (status == "failed") ≡ true → (status == "processing") ≡ false
failed_unlocked status h =
    subst (λ x. (x == "processing") ≡ false) (sym ((eq_iff status "failed").0 h)) refl

module _ (jobs : JobTable) (name : String) (date stale_lock from : ℕ) where
  -- A lock was taken at `from` or later.
  abbrev pub IsRecent : Option JobRun → Type 0
  IsRecent none = Unit
  IsRecent (some r) = (r.status == "processing") ≡ true → from ≤ r.started_at

  -- The process read the clock no later than the life of a lock after `from`, and is not about to
  -- take over a stale lock.
  abbrev pub IsPrompt : ℕ × Claimer → Type 0
  IsPrompt p = (from ≤ p.0) × (p.0 ≤ from + stale_lock) × (takes_over p.1 ≡ false)

  -- After a statement: a new winner has a new lock, and nothing is about to be taken over.
  abbrev Tallies : ℕ → Claimer → jobs.Tab → Claimer → jobs.Tab → Type 0
  Tallies now c t c' t' =
      IsSingle jobs name date t'
      × IsRecent (row_of jobs name date t')
      × (takes_over c' ≡ false)
      × (wins c' + held (row_of jobs name date t) ≡ wins c + held (row_of jobs name date t'))

  after_select_good :
      (now : ℕ) (row : Option JobRun)
      → now ≤ from + stale_lock
      → IsRecent row
      → (takes_over (after_select jobs name date stale_lock now row) ≡ false)
        × (wins (after_select jobs name date stale_lock now row) ≡ 0)
  unfolding after_select
  after_select_good now none early recent = (refl, refl)
  after_select_good now (some r) early recent = elim (Bool-cases (r.status == "processing")) [
    | inl locked ↦ ground (arith, recent locked)
    | inr free ↦ ground arith
  ]

  insert_good :
      (now : ℕ) (row : Option JobRun)
      → from ≤ now
      → IsRecent row
      → IsRecent (inserted jobs name date now row)
        × (held (inserted jobs name date now row) ≡ (if not (is_some row) then 1 else 0) + held row)
  insert_good now none later recent = (λ _. later, refl)
  insert_good now (some r) later recent = (recent, omega arith)

  retry_good :
      (now : ℕ) (row : Option JobRun)
      → from ≤ now
      → IsRecent row
      → IsRecent (updated (restart now) "failed" row)
        × (held (updated (restart now) "failed" row)
            ≡ (if has "failed" row then 1 else 0) + held row)
  retry_good now none later recent = (tt, refl)
  retry_good now (some r) later recent = elim (Bool-cases (r.status == "failed")) [
    | inl failed ↦ rw (failed, failed_unlocked r.status failed) (λ _. later, refl)
    | inr other ↦ rw (other) (recent, omega arith)
  ]

  step_good :
      (now : ℕ) (c : Claimer) (t : jobs.Tab)
      → IsSingle jobs name date t
      → IsRecent (row_of jobs name date t)
      → IsPrompt (now, c)
      → Tallies now c t
          (claim_step jobs name date stale_lock now c t).0
          (claim_step jobs name date stale_lock now c t).1
  unfolding claim_step
  step_good now at_insert t one recent (later, early, calm) =
      let row = row_of jobs name date t in
      let (does, answer, single) = claim_insert_lem jobs name date now t one in
      let (kept, counted) = insert_good now row later recent in
      (
        single,
        subst IsRecent (sym does) kept,
        ground (arith, answer),
        ground (arith, answer, does, counted),
      )
  step_good now at_select t one recent (later, early, calm) =
      let row = row_of jobs name date t in
      let read = get_job_run_lem jobs name date t in
      let (calm', lost) = after_select_good now row early recent in
      (one, recent, rw (read) calm', rw (read) (omega (arith, lost)))
  step_good now at_reinsert t one recent (later, early, calm) =
      let row = row_of jobs name date t in
      let (does, answer, single) = claim_insert_lem jobs name date now t one in
      let (kept, counted) = insert_good now row later recent in
      (
        single,
        subst IsRecent (sym does) kept,
        ground (arith, answer),
        ground (arith, answer, does, counted),
      )
  step_good now at_stale t one recent (later, early, calm) = absurd (ground arith)
  step_good now (at_retry reason) t one recent (later, early, calm) =
      let row = row_of jobs name date t in
      let (does, answer, single) = transition_lem jobs name date now t one in
      let (kept, counted) = retry_good now row later recent in
      (
        single,
        subst IsRecent (sym does) kept,
        ground (arith, answer),
        ground (arith, answer, does, counted),
      )
  step_good now (done won reason) t one recent (later, early, calm) = (one, recent, refl, refl)

  advance_good :
      (i : ℕ) (ps : Processes) (t : jobs.Tab)
      → IsSingle jobs name date t
      → IsRecent (row_of jobs name date t)
      → All IsPrompt ps
      → let after = advance jobs name date stale_lock i (ps, t) in
        IsSingle jobs name date after.1
        × IsRecent (row_of jobs name date after.1)
        × All IsPrompt after.0
        × (winners after.0 + held (row_of jobs name date t)
            ≡ winners ps + held (row_of jobs name date after.1))
  advance_good i [] t one recent prompt = (one, recent, tt, refl)
  advance_good zero (p ∷ rest) t one recent prompt =
      let (single, kept, calm, counted) = step_good p.0 p.1 t one recent prompt.0 in
      (single, kept, ((prompt.0.0, prompt.0.1, calm), prompt.1), omega (arith, counted))
  advance_good (suc i) (p ∷ rest) t one recent prompt =
      let (single, kept, others, counted) = advance_good i rest t one recent prompt.1 in
      (single, kept, (prompt.0, others), omega (arith, counted))

  interleave_good :
      (schedule : List ℕ) (ps : Processes) (t : jobs.Tab)
      → IsSingle jobs name date t
      → IsRecent (row_of jobs name date t)
      → All IsPrompt ps
      → let after = interleave jobs name date stale_lock schedule (ps, t) in
        winners after.0 + held (row_of jobs name date t)
        ≡ winners ps + held (row_of jobs name date after.1)
  interleave_good [] ps t one recent prompt = refl
  interleave_good (i ∷ schedule) ps t one recent prompt =
      let (single, kept, still, counted) = advance_good i ps t one recent prompt in
      let (ps', t') = advance jobs name date stale_lock i (ps, t) in
      omega (arith, counted, interleave_good schedule ps' t' single kept still)

-- Processes that have read the clock and are about to claim the job.
abbrev pub starters : List ℕ → Processes
starters [] = []
starters (now ∷ nows) = (now, at_insert) ∷ starters nows

winners-starters : (nows : List ℕ) → winners (starters nows) ≡ 0
winners-starters [] = refl
winners-starters (now ∷ nows) = omega (arith, winners-starters nows)

starters-IsPrompt :
    (jobs : JobTable) (name : String) (date stale_lock from : ℕ) (nows : List ℕ)
    → All (λ now. (from ≤ now) × (now ≤ from + stale_lock)) nows
    → All (IsPrompt jobs name date stale_lock from) (starters nows)
starters-IsPrompt jobs name date stale_lock from [] h = tt
starters-IsPrompt jobs name date stale_lock from (now ∷ nows) h =
    ((h.0.0, h.0.1, refl), starters-IsPrompt jobs name date stale_lock from nows h.1)

held_small : (row : Option JobRun) → held row ≤ 1
held_small row = ground arith

unlocked-IsRecent :
    (jobs : JobTable) (name : String) (date stale_lock from : ℕ) (row : Option JobRun)
    → has "processing" row ≡ false
    → IsRecent jobs name date stale_lock from row
unlocked-IsRecent jobs name date stale_lock from none h = tt
unlocked-IsRecent jobs name date stale_lock from (some r) h = λ locked. absurd (ground arith)

-- Of any processes that claim a job which is not locked, in a table with at most one row of it, having
-- read the clock within the life of one lock, at most one has won, in whatever order their statements
-- are interleaved, and one has won exactly when the job is locked.
pub one_winner :
    (jobs : JobTable) (name : String) (date stale_lock from : ℕ) (nows schedule : List ℕ)
    (t : jobs.Tab)
    → IsSingle jobs name date t
    → has "processing" (row_of jobs name date t) ≡ false
    → All (λ now. (from ≤ now) × (now ≤ from + stale_lock)) nows
    → let after = interleave jobs name date stale_lock schedule (starters nows, t) in
      (winners after.0 ≤ 1) × (winners after.0 ≡ held (row_of jobs name date after.1))
one_winner jobs name date stale_lock from nows schedule t one unlocked timely =
    let after = interleave jobs name date stale_lock schedule (starters nows, t) in
    let recent =
      unlocked-IsRecent jobs name date stale_lock from (row_of jobs name date t) unlocked in
    let counted =
      interleave_good jobs name date stale_lock from schedule (starters nows) t one recent
        (starters-IsPrompt jobs name date stale_lock from nows timely) in
    let same : winners after.0 ≡ held (row_of jobs name date after.1) =
      ground (arith, counted, winners-starters nows, unlocked) in
    (omega (arith, same, held_small (row_of jobs name date after.1)), same)
