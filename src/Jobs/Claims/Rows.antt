-- ===== src/Jobs/Claims/Rows.antt =====
-- What the statements of data/pipelines/job_runner.py do to the row of one job and date.
use brasaland_digital.Base.{
  ℕ, ◌≡◌, ◌≤◌, refl, inl, inr, Bool, false, not, Option, some, none, List, [], ◌∷◌, ◌++◌, String,
  ◌==◌, leb, arith, exists, find, find-append, exists-find, select, update_where, length,
  if◌then◌else◌, is_some, Option-cases, eq_refl, Bool-cases,
}
use brasaland_digital.Jobs.Store.{
  JobRun, JobTable, is_for, has_status, new_run, restart, fail_stale, get_job_run, claim_insert,
  transition_failed_to_processing, mark_stale_failed,
}

-- The row that an update with a test on the status leaves.
abbrev pub updated : (JobRun → JobRun) → String → Option JobRun → Option JobRun
updated f status none = none
updated f status (some r) = some (if r.status == status then f r else r)

abbrev pub has : String → Option JobRun → Bool
has status none = false
has status (some r) = r.status == status

module _ (name : String) (date : ℕ) where
  -- An update that keeps the name and the date.
  abbrev Keeps : (JobRun → JobRun) → Type 0
  Keeps f = (r : JobRun) → is_for name date (f r) ≡ is_for name date r

  find-update :
      (f : JobRun → JobRun) (status : String) (rs : List JobRun)
      → Keeps f
      → find (is_for name date) (update_where f (has_status name date status) rs)
        ≡ updated f status (find (is_for name date) rs)
  find-update f status [] keeps = refl
  find-update f status (r ∷ rs) keeps = ground (arith, find-update f status rs keeps, keeps r)

  select_status :
      (status : String) (rs : List JobRun)
      → length (select (has_status name date status) rs) ≤ length (select (is_for name date) rs)
  select_status status [] = omega arith
  select_status status (r ∷ rs) = ground (arith, select_status status rs)

  -- Of at most one row the count of an update tells the status.
  count-has :
      (status : String) (rs : List JobRun)
      → length (select (is_for name date) rs) ≤ 1
      → leb 1 (length (select (has_status name date status) rs))
        ≡ has status (find (is_for name date) rs)
  count-has status [] one = refl
  count-has status (r ∷ rs) one = elim (Bool-cases (is_for name date r)) [
    | inl own ↦ ground (arith, select_status status rs)
    | inr other ↦ ground (arith, count-has status rs)
  ]

  one-update :
      (f : JobRun → JobRun) (status : String) (rs : List JobRun)
      → Keeps f
      → length (select (is_for name date) (update_where f (has_status name date status) rs))
        ≡ length (select (is_for name date) rs)
  one-update f status [] keeps = refl
  one-update f status (r ∷ rs) keeps = ground (arith, one-update f status rs keeps, keeps r)

  one-append :
      (rs : List JobRun) (r : JobRun)
      → exists (is_for name date) rs ≡ false
      → length (select (is_for name date) (rs ++ r ∷ [])) ≤ 1
  one-append [] r absent = ground arith
  one-append (x ∷ rs) r absent = ground (arith, one-append rs r)

module _ (jobs : JobTable) (name : String) (date : ℕ) where
  abbrev pub row_of : jobs.Tab → Option JobRun
  row_of t = find (is_for name date) (jobs.rows t)

  -- The unique constraint, for the job and the date.
  abbrev pub IsSingle : jobs.Tab → Type 0
  IsSingle t = length (select (is_for name date) (jobs.rows t)) ≤ 1

  -- What a statement makes of the row, and what it returns.
  abbrev pub Does : (jobs.Tab → jobs.Tab × Bool) → jobs.Tab → Option JobRun → Bool → Type 0
  Does statement t row answer =
      (row_of (statement t).0 ≡ row) × ((statement t).1 ≡ answer) × IsSingle (statement t).0

  pub get_job_run_lem : (t : jobs.Tab) → get_job_run jobs name date t ≡ row_of t
  unfolding get_job_run
  get_job_run_lem t = jobs.first-find (is_for name date) t

  pub update_lem :
      (f : JobRun → JobRun) (status : String) (t : jobs.Tab)
      → ((r : JobRun) → is_for name date (f r) ≡ is_for name date r)
      → IsSingle t
      → Does
          (λ t.
            let (t', count) = jobs.update f (has_status name date status) t in (t', leb 1 count))
          t
          (updated f status (row_of t))
          (has status (row_of t))
  update_lem f status t keeps one = (
    ground (
      arith,
      jobs.rows-update f (has_status name date status) t,
      find-update name date f status (jobs.rows t) keeps,
    ),
    ground (
      arith,
      jobs.count-update f (has_status name date status) t,
      count-has name date status (jobs.rows t) one,
    ),
    ground (
      arith,
      one,
      jobs.rows-update f (has_status name date status) t,
      one-update name date f status (jobs.rows t) keeps,
    ),
  )

  pub transition_lem :
      (now : ℕ) (t : jobs.Tab)
      → IsSingle t
      → Does
          (transition_failed_to_processing jobs name date now)
          t
          (updated (restart now) "failed" (row_of t))
          (has "failed" (row_of t))
  unfolding transition_failed_to_processing
  transition_lem now t one = update_lem (restart now) "failed" t (λ r. refl) one

  pub mark_stale_lem :
      (now : ℕ) (t : jobs.Tab)
      → IsSingle t
      → Does
          (mark_stale_failed jobs name date now)
          t
          (updated (fail_stale now) "processing" (row_of t))
          (has "processing" (row_of t))
  unfolding mark_stale_failed
  mark_stale_lem now t one = update_lem (fail_stale now) "processing" t (λ r. refl) one

  -- The row after an insert that does nothing on a conflict.
  abbrev pub inserted : ℕ → Option JobRun → Option JobRun
  inserted now none = some (new_run name date now)
  inserted now (some r) = some r

  pub claim_insert_lem :
      (now : ℕ) (t : jobs.Tab)
      → IsSingle t
      → Does
          (claim_insert jobs name date now)
          t
          (inserted now (row_of t))
          (not (is_some (row_of t)))
  unfolding claim_insert
  claim_insert_lem now t one =
      let r = new_run name date now in
      let there = exists-find (is_for name date) (jobs.rows t) in
      let stored = jobs.rows-insert r t in
      let count = jobs.count-insert r t in
      elim (Option-cases (row_of t)) [
        | inr (old, found) ↦ (
          ground (arith, there, stored),
          ground (arith, there, count),
          ground (arith, one, there, stored),
        )
        | inl absent ↦ (
          ground (
            arith,
            there,
            stored,
            find-append (is_for name date) (jobs.rows t) (r ∷ []),
            eq_refl name,
          ),
          ground (arith, there, count),
          ground (arith, there, stored, one-append name date (jobs.rows t) r),
        )
      ]
