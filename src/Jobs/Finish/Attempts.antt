-- ===== src/Jobs/Finish/Attempts.antt =====
-- The attempts of data/pipelines/job_runner.py to write the end of a job.
use brasaland_digital.Base.{
  ℕ, ◌≤◌, ◌-◌, ◌≡◌, ◌⊎◌, inl, inr, refl, sym, ◌∙◌, subst, Bool, true, false, Option, some, none,
  List, [], ◌∷◌, String, ◌==◌, arith, leb, eq_iff, eq_refl, concat, Bool-cases, Result, ok, err,
  exists, if◌then◌else◌,
}
use brasaland_digital.Base.Affixes.{len, prefix, len-prefix, len-concat}
use brasaland_digital.Jobs.Store.{JobRun, JobTable, get_job_run}
use brasaland_digital.Jobs.Claims.Rows.{
  has, updated, row_of, IsSingle, Does, update_lem, get_job_run_lem,
}
use brasaland_digital.Jobs.Finish.{
  bound_error, max_error_message_chars, Fault, answers, lost_before, lost_after, Error,
  connection_lost, finish, is_finished, finish_row, attempt, attempts, finalize_with_retry,
  mark_failed,
}

three_dots : len "..." ≡ 3
unfolding len
three_dots = refl

bounded_text :
    (message : String) (short : Bool)
    → (short ≡ true → len message ≤ 2000)
    → let start = prefix (max_error_message_chars - 3) message in
      (kept : String) × ((if short then some message else some (concat start "...")) ≡ some kept)
      × (len kept ≤ 2000)
bounded_text message true fits = (message, refl, fits refl)
bounded_text message false fits =
    let start = prefix (max_error_message_chars - 3) message in
    (
      concat start "...",
      refl,
      omega (
        arith,
        len-prefix (max_error_message_chars - 3) message,
        len-concat start "...",
        three_dots,
      ),
    )

-- What is stored of a message has at most 2000 characters.
bounded :
    (message : String)
    → (kept : String) × (bound_error (some message) ≡ some kept) × (len kept ≤ 2000)
unfolding bound_error
bounded message =
    bounded_text message (leb (len message) max_error_message_chars) (λ h. ground arith)

module _ (jobs : JobTable) (name : String) (date : ℕ) (status : String)
    (message : Option String) where
  finish_lem :
      (now : ℕ) (t : jobs.Tab)
      → IsSingle jobs name date t
      → Does jobs name date
          (finish_row jobs name date status message now)
          t
          (updated (finish status message now) "processing" (row_of jobs name date t))
          (has "processing" (row_of jobs name date t))
  unfolding finish_row
  finish_lem now t one =
      update_lem jobs name date (finish status message now) "processing" t (λ r. refl) one

  -- The row of a job that has ended with the status and the message.
  abbrev pub HasEnded : Option JobRun → Type 0
  HasEnded row =
      (r : JobRun) × (row ≡ some r)
      × ((r.status == status) ≡ true)
      × (r.error_message ≡ bound_error message)

  abbrev IsEnding : Option JobRun → Type 0
  IsEnding row = (has "processing" row ≡ true) ⊎ HasEnded row

  finish-HasEnded :
      (now : ℕ) (row : Option JobRun)
      → IsEnding row
      → HasEnded (updated (finish status message now) "processing" row)
  finish-HasEnded now none (inl h) = absurd (ground arith)
  finish-HasEnded now none (inr (r, h, _, _)) = absurd (ground arith)
  finish-HasEnded now (some r) (inl locked) =
      (finish status message now r, rw (locked) refl, eq_refl status, refl)
  finish-HasEnded now (some r) (inr (q, same, ended, text)) =
      elim (Bool-cases (r.status == "processing")) [
        | inl locked ↦ (finish status message now r, rw (locked) refl, eq_refl status, refl)
        | inr free ↦ (q, rw (free) same, ended, text)
      ]

  -- An update, whether its answer arrives or not.
  finish_row_ends :
      (now : ℕ) (t : jobs.Tab)
      → IsSingle jobs name date t
      → IsEnding (row_of jobs name date t)
      → IsSingle jobs name date (finish_row jobs name date status message now t).0
        × HasEnded (row_of jobs name date (finish_row jobs name date status message now t).0)
  finish_row_ends now t one ending =
      let (does, _, single) = finish_lem now t one in
      (single, subst HasEnded (sym does) (finish-HasEnded now (row_of jobs name date t) ending))

  answered :
      (now : ℕ) (t : jobs.Tab)
      → HasEnded (row_of jobs name date (finish_row jobs name date status message now t).0)
      → (attempt jobs name date status message now answers t).0 ≡ ok tt
  unfolding attempt
  answered now t (r, found, ended, _) =
      let t' = (finish_row jobs name date status message now t).0 in
      let seen : is_finished status (get_job_run jobs name date t') ≡ true =
        rw (get_job_run_lem jobs name date t', found) ended in
      elim (Bool-cases (finish_row jobs name date status message now t).1) [
        | inl changed ↦ rw (changed) refl
        | inr unchanged ↦ rw (unchanged, seen) refl
      ]

  answered_state :
      (now : ℕ) (t : jobs.Tab)
      → (attempt jobs name date status message now answers t).1
        ≡ (finish_row jobs name date status message now t).0
  unfolding attempt
  answered_state now t = refl

  abbrev is_answer : ℕ × Fault → Bool
  is_answer a = elim a.1 [ answers ↦ true | lost_before ↦ false | lost_after ↦ false ]

  attempts_answered :
      (last : Error) (now : ℕ) (rest : List (ℕ × Fault)) (t : jobs.Tab)
      → IsSingle jobs name date t
      → IsEnding (row_of jobs name date t)
      → let after = attempts jobs name date status message last ((now, answers) ∷ rest) t in
        (after.0 ≡ ok tt) × HasEnded (row_of jobs name date after.1)
  unfolding attempts
  attempts_answered last now rest t one ending =
      let (single, ended) = finish_row_ends now t one ending in
      let t' = (finish_row jobs name date status message now t).0 in
      let done : attempt jobs name date status message now answers t ≡ (ok tt, t') =
        λ k. (answered now t ended k, answered_state now t k) in
      subst
        (λ p.
          let after = elim p.0 as (λ x. Result Error (Unit {0}) × jobs.Tab) [
            | ok u ↦ (ok u, p.1)
            | err e ↦ attempts jobs name date status message e rest p.1
          ] in
          (after.0 ≡ ok tt) × HasEnded (row_of jobs name date after.1))
        (sym done) (refl, ended)

  attempts_end :
      (last : Error) (tries : List (ℕ × Fault)) (t : jobs.Tab)
      → IsSingle jobs name date t
      → IsEnding (row_of jobs name date t)
      → exists is_answer tries ≡ true
      → let after = attempts jobs name date status message last tries t in
        (after.0 ≡ ok tt) × HasEnded (row_of jobs name date after.1)
  unfolding attempts attempt
  attempts_end last [] t one ending some_answer = absurd (ground arith)
  attempts_end last ((now, answers) ∷ rest) t one ending some_answer =
      attempts_answered last now rest t one ending
  attempts_end last ((now, lost_before) ∷ rest) t one ending some_answer =
      attempts_end connection_lost rest t one ending some_answer
  attempts_end last ((now, lost_after) ∷ rest) t one ending some_answer =
      let (single, ended) = finish_row_ends now t one ending in
      attempts_end connection_lost rest (finish_row jobs name date status message now t).0 single
        (inr ended) some_answer

  answered_of_three :
      (first second third : ℕ × Fault)
      → (first.1 ≡ answers) ⊎ ((second.1 ≡ answers) ⊎ (third.1 ≡ answers))
      → exists is_answer (first ∷ second ∷ third ∷ []) ≡ true
  answered_of_three first second third (inl h) = rw (h) refl
  answered_of_three first second third (inr (inl h)) = ground (arith, h)
  answered_of_three first second third (inr (inr h)) = ground (arith, h)

-- The end of a job is written once the database answers: of a job that is locked, in a table with at
-- most one row of it, mark_failed returns if one of its three attempts is answered, even where the
-- connection was lost after an update was committed, and then the job has failed, with an error
-- message of at most 2000 characters.
pub mark_failed_returns :
    (jobs : JobTable) (name : String) (date : ℕ) (message : String) (first second third : ℕ × Fault)
    (t : jobs.Tab)
    → IsSingle jobs name date t
    → has "processing" (row_of jobs name date t) ≡ true
    → (first.1 ≡ answers) ⊎ ((second.1 ≡ answers) ⊎ (third.1 ≡ answers))
    → let after = mark_failed jobs name date message first second third t in
      (after.0 ≡ ok tt)
      × ((r : JobRun) × (text : String) × (row_of jobs name date after.1 ≡ some r)
          × (r.status ≡ "failed")
          × (r.error_message ≡ some text)
          × (len text ≤ 2000))
unfolding mark_failed finalize_with_retry
mark_failed_returns jobs name date message first second third t one locked some_answer =
    let tries = first ∷ second ∷ third ∷ [] in
    let answered_once : exists (is_answer jobs name date "failed" (some message)) tries ≡ true =
      answered_of_three jobs name date "failed" (some message) first second third some_answer in
    let (returned, (r, found, ended, told)) =
      attempts_end jobs name date "failed" (some message) connection_lost tries t one (inl locked)
        answered_once in
    let (text, kept, short) = bounded message in
    (returned, (r, text, found, (eq_iff r.status "failed").0 ended, told ∙ kept, short))
