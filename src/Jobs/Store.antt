-- ===== src/Jobs/Store.antt =====
-- data/pipelines/job_runner.py: the table reporting.job_runs and the statements on it.
use brasaland_digital.Base.{
  ℕ, ◌+◌, ◌≡◌, refl, Bool, false, ◌&&◌, Option, some, none, List, [], ◌∷◌, ◌++◌, String, ◌==◌, eqb,
  leb, exists, find, select, update_where, length, arith, if◌then◌else◌,
}

-- Dates are counted in days, datetimes in microseconds.
pub record JobRun : Type 0 where
  pub job_name : String
  pub target_date : ℕ
  pub status : String
  pub started_at : ℕ
  pub finished_at : Option ℕ
  pub error_message : Option String
  pub created_at : ℕ

-- `job_name == name and target_date == date`
abbrev pub is_for : String → ℕ → JobRun → Bool
is_for name date r = r.job_name == name && eqb r.target_date date

abbrev pub has_status : String → ℕ → String → JobRun → Bool
has_status name date status r = is_for name date r && r.status == status

-- The table, with the documented behaviour of the three statements: an insert that does nothing on a
-- conflict of name and date, an update with a test, and the first row that passes a test. The number
-- is the `rowcount`.
pub record JobTable : Type 1 where
  pub Tab : Type 0
  pub rows : Tab → List JobRun
  pub insert : JobRun → Tab → Tab × ℕ
  pub update : (JobRun → JobRun) → (JobRun → Bool) → Tab → Tab × ℕ
  pub first : (JobRun → Bool) → Tab → Option JobRun
  pub rows-insert :
      (r : JobRun) (t : Tab)
      → rows (insert r t).0
        ≡ (if exists (is_for r.job_name r.target_date) (rows t) then rows t else rows t ++ r ∷ [])
  pub count-insert :
      (r : JobRun) (t : Tab)
      → (insert r t).1 ≡ (if exists (is_for r.job_name r.target_date) (rows t) then 0 else 1)
  pub rows-update :
      (f : JobRun → JobRun) (p : JobRun → Bool) (t : Tab)
      → rows (update f p t).0 ≡ update_where f p (rows t)
  pub count-update :
      (f : JobRun → JobRun) (p : JobRun → Bool) (t : Tab)
      → (update f p t).1 ≡ length (select p (rows t))
  pub first-find : (p : JobRun → Bool) (t : Tab) → first p t ≡ find p (rows t)

-- A list of rows meets the interface.
abbrev pub list_jobs : JobTable
list_jobs = record {
  Tab = List JobRun;
  rows = λ t. t;
  insert = λ r t. if exists (is_for r.job_name r.target_date) t then (t, 0) else (t ++ r ∷ [], 1);
  update = λ f p t. (update_where f p t, length (select p t));
  first = find;
  rows-insert = λ r t. ground arith;
  count-insert = λ r t. ground arith;
  rows-update = λ f p t. refl;
  count-update = λ f p t. refl;
  first-find = λ p t. refl;
}

abbrev pub new_run : String → ℕ → ℕ → JobRun
new_run name date now = record {
  job_name = name;
  target_date = date;
  status = "processing";
  started_at = now;
  finished_at = none;
  error_message = none;
  created_at = now;
}

-- The values of the three updates.
abbrev pub restart : ℕ → JobRun → JobRun
restart now r = record r {
  status = "processing";
  started_at = now;
  finished_at = none;
  error_message = none;
}

abbrev pub fail_stale : ℕ → JobRun → JobRun
fail_stale now r = record r {
  status = "failed";
  finished_at = some now;
  error_message = some "stale lock takeover";
}

module _ (jobs : JobTable) (name : String) (date : ℕ) where
  unfoldable pub get_job_run : jobs.Tab → Option JobRun
  get_job_run t = jobs.first (is_for name date) t

  unfoldable pub has_processing_lock : jobs.Tab → Bool
  has_processing_lock t = elim (get_job_run t) [ none ↦ false | some r ↦ r.status == "processing" ]

  unfoldable pub has_completed_for_date : jobs.Tab → Bool
  has_completed_for_date t = elim (get_job_run t) [
    | none ↦ false
    | some r ↦ r.status == "completed"
  ]

  unfoldable pub claim_insert : ℕ → jobs.Tab → jobs.Tab × Bool
  claim_insert now t = let (t', count) = jobs.insert (new_run name date now) t in (t', leb 1 count)

  unfoldable pub transition_failed_to_processing : ℕ → jobs.Tab → jobs.Tab × Bool
  transition_failed_to_processing now t =
      let (t', count) = jobs.update (restart now) (has_status name date "failed") t in
      (t', leb 1 count)

  unfoldable pub mark_stale_failed : ℕ → jobs.Tab → jobs.Tab × Bool
  mark_stale_failed now t =
      let (t', count) = jobs.update (fail_stale now) (has_status name date "processing") t in
      (t', leb 1 count)

-- A lock that was taken within the last `stale_lock` is fresh.
abbrev pub is_fresh_processing : ℕ → JobRun → ℕ → Bool
is_fresh_processing stale_lock r now = leb now (r.started_at + stale_lock)
