-- ===== src/Rfp/Response/Loop.antt =====
-- The loop of a worker of data/pipelines/rfp_intake/response_graph.py.
use brasaland_digital.Base.{
  ℕ, zero, suc, ◌+◌, ◌≤◌, ◌≡◌, ◌∙◌, sym, ap, subst, refl, inl, inr, true, false, not, List, String,
  arith, Bool-cases,
}
use brasaland_digital.Rfp.Prompt.{Metadata}
use brasaland_digital.Rfp.Evaluators.{evaluate_all}
use brasaland_digital.Rfp.Response.{
  Env, ResponseState, Evaluation, DepartmentSection, key_aspects_for, check, next_draft, rounds,
  draft_section,
}

module _ (env : Env) (department : String) (metadata : Metadata) (aspects : List String) where
  -- The section has the checks of its draft, and is left to a person exactly when they fail.
  abbrev pub IsChecked : DepartmentSection env → Type 0
  IsChecked s =
      let e = s.evaluation_results in
      let fresh = check env department metadata aspects s.draft_content in
      (e.overall_pass ≡ fresh.overall_pass)
      × (e.compliance ≡ fresh.compliance)
      × (e.needs_human_review ≡ not e.overall_pass)
      × (e.is_exhausted ≡ not e.overall_pass)

  check_open :
      (draft : String)
      → ((check env department metadata aspects draft).needs_human_review ≡ false)
        × ((check env department metadata aspects draft).is_exhausted ≡ false)
  unfolding check evaluate_all
  check_open draft = (refl, refl)

  -- The check of a draft in a round.
  abbrev checked_in : ℕ → String → Evaluation env
  checked_in i draft = record (check env department metadata aspects draft) { iterations = i }

  round_passed :
      (i left : ℕ) (draft : String) (evaluation : Evaluation env)
      → let next = next_draft env department metadata aspects i evaluation.feedback_for_generator in
        (check env department metadata aspects next).overall_pass ≡ true
        → rounds env department metadata aspects i (suc left) draft evaluation ≡ record {
          department_id = department;
          draft_content = next;
          evaluation_results = checked_in i next;
        }
  unfolding rounds
  round_passed i left draft evaluation passed = rw (passed) refl

  round_failed :
      (i left : ℕ) (draft : String) (evaluation : Evaluation env)
      → let next = next_draft env department metadata aspects i evaluation.feedback_for_generator in
        (check env department metadata aspects next).overall_pass ≡ false
        → rounds env department metadata aspects i (suc left) draft evaluation
          ≡ rounds env department metadata aspects (suc i) left next (checked_in i next)
  unfolding rounds
  round_failed i left draft evaluation failed = rw (failed) refl

  -- A section that comes out of the rounds from `i` on, of which `left` come after it.
  abbrev IsFrom : ℕ → ℕ → DepartmentSection env → Type 0
  IsFrom i left s =
      IsChecked s
      × (i ≤ s.evaluation_results.iterations)
      × (s.evaluation_results.iterations ≤ i + left)

  -- A round either passes, or leaves it to the rounds after it.
  round_checked :
      (i left : ℕ) (draft : String) (evaluation : Evaluation env)
      → let next = next_draft env department metadata aspects i evaluation.feedback_for_generator in
        ((check env department metadata aspects next).overall_pass ≡ false
          → IsFrom i left
              (rounds env department metadata aspects (suc i) left next (checked_in i next)))
        → IsFrom i left (rounds env department metadata aspects i (suc left) draft evaluation)
  round_checked i left draft evaluation later =
      let next = next_draft env department metadata aspects i evaluation.feedback_for_generator in
      let (review, exhausted) = check_open next in
      elim (Bool-cases (check env department metadata aspects next).overall_pass) [
        | inl passed ↦ subst (IsFrom i left) (sym (round_passed i left draft evaluation passed)) (
          (refl, refl, review ∙ sym (ap not passed), exhausted ∙ sym (ap not passed)),
          omega arith,
          omega arith,
        )
        | inr failed ↦
            subst (IsFrom i left) (sym (round_failed i left draft evaluation failed)) (later failed)
      ]

  rounds_checked :
      (i left : ℕ) (draft : String) (evaluation : Evaluation env)
      → IsFrom i left (rounds env department metadata aspects i (suc left) draft evaluation)
  unfolding rounds
  rounds_checked i zero draft evaluation =
      round_checked i zero draft evaluation (λ failed.
        ((refl, refl, sym (ap not failed), sym (ap not failed)), omega arith, omega arith))
  rounds_checked i (suc left) draft evaluation =
      round_checked i (suc left) draft evaluation (λ failed.
        let next = next_draft env department metadata aspects i evaluation.feedback_for_generator in
        let (checked, from, upto) = rounds_checked (suc i) left next (checked_in i next) in
        (checked, omega (arith, from), omega (arith, upto)))

-- A worker ends after at most three rounds, whatever the language model answers, and the section that
-- it returns carries the checks of its own draft; the section is left to a person exactly when they
-- fail.
pub draft_section-IsChecked :
    (env : Env) (department : String) (state : ResponseState)
    → let s = draft_section env department state in
      IsChecked env department state.metadata (key_aspects_for department state.input_sections) s
      × (1 ≤ s.evaluation_results.iterations)
      × (s.evaluation_results.iterations ≤ 3)
unfolding draft_section
draft_section-IsChecked env department state =
    rounds_checked env department state.metadata (key_aspects_for department state.input_sections) 1
      2 "" _
