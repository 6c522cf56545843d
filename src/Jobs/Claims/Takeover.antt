-- ===== src/Jobs/Claims/Takeover.antt =====
-- Two processes of data/pipelines/job_runner.py that take over the same stale lock.
use brasaland_digital.Base.{
  ℕ, ◌+◌, ◌<◌, ◌≡◌, refl, ap, true, false, some, List, [], ◌∷◌, String, ◌==◌, arith, ◌∙◌,
}
use brasaland_digital.Jobs.Store.{JobRun, JobTable, is_fresh_processing}
use brasaland_digital.Jobs.Claims.{at_stale, after_select, winners, interleave}
use brasaland_digital.Jobs.Claims.Rows.{row_of, IsSingle}
use brasaland_digital.Jobs.Claims.Winner.{starters}
use brasaland_digital.Jobs.Claims.Machine.{row_interleave, interleave_refines}

-- The row machine: two processes that both see the same stale lock.
seen_stale :
    (jobs : JobTable) (name : String) (date stale_lock now : ℕ) (r : JobRun)
    → r.status ≡ "processing"
    → r.started_at + stale_lock < now
    → after_select jobs name date stale_lock now (some r) ≡ at_stale
unfolding after_select
seen_stale jobs name date stale_lock now r locked old =
    let locked' : (r.status == "processing") ≡ true = rw (locked) refl in
    let open_job : (r.status == "completed") ≡ false = rw (locked) refl in
    let stale : is_fresh_processing stale_lock r now ≡ false = ground arith in
    rw (open_job, locked', stale) refl

-- The order in which both read the row before either changes it.
abbrev pub both_read : List ℕ
both_read = 0 ∷ 0 ∷ 1 ∷ 1 ∷ 0 ∷ 0 ∷ 1 ∷ 1 ∷ []

row_taken_twice :
    (jobs : JobTable) (name : String) (date stale_lock now later : ℕ) (r : JobRun)
    → r.status ≡ "processing"
    → r.started_at + stale_lock < now
    → r.started_at + stale_lock < later
    → winners
        (row_interleave jobs name date stale_lock both_read (starters (now ∷ later ∷ []), some r)).0
      ≡ 2
row_taken_twice jobs name date stale_lock now later r locked old older =
    let lock : (r.status == "processing") ≡ true = rw (locked) refl in
    rw
      (
        seen_stale jobs name date stale_lock now r locked old,
        seen_stale jobs name date stale_lock later r locked older,
        lock,
      )
      refl

-- Two processes that claim a job whose lock is stale, and both read its row before one changes it,
-- both win: the second one takes over the new lock of the first. The table has at most one row of the
-- job and the date.
pub stale_lock_taken_twice :
    (jobs : JobTable) (name : String) (date stale_lock now later : ℕ) (t : jobs.Tab) (r : JobRun)
    → IsSingle jobs name date t
    → row_of jobs name date t ≡ some r
    → r.status ≡ "processing"
    → r.started_at + stale_lock < now
    → r.started_at + stale_lock < later
    → winners (interleave jobs name date stale_lock both_read (starters (now ∷ later ∷ []), t)).0
      ≡ 2
stale_lock_taken_twice jobs name date stale_lock now later t r one stored locked old older =
    let moved =
      (interleave_refines jobs name date stale_lock both_read (starters (now ∷ later ∷ [])) t
        one).0 in
    ap winners moved
    ∙ ap
        (λ row.
          winners
            (row_interleave jobs name date stale_lock both_read
              (starters (now ∷ later ∷ []), row)).0)
        stored
    ∙ row_taken_twice jobs name date stale_lock now later r locked old older
