-- ===== src/Rfp/Tests.antt =====
-- The theorems on data/pipelines/rfp_intake at concrete inputs.
pub mod Rules
use brasaland_digital.Base.{
  ◌≡◌, ◌≤◌, refl, ◌↔◌, true, false, some, none, ok, is_blank, ℕ, arith, List, [], ◌∷◌, String,
  length,
}
use brasaland_digital.Rfp.Approval.{
  number, missing, parsed, Decision, said, mapping, Env, State, run_graph, text_of, approve_node,
  regen_node, route_after_approve, merged, action_of,
}
use brasaland_digital.Rfp.Approval.Ending.{approval_ends}
use brasaland_digital.Rfp.Lifecycle.{validate_transition}
use brasaland_digital.Rfp.Lifecycle.Order.{
  IsStep, IsChain, validate_transition_rfp_iff, chain_bound,
}

abbrev to_the_end : List String
to_the_end = "drafting" ∷ "under_evaluation" ∷ "waiting_for_approval" ∷ "done" ∷ []

to_the_end-IsChain : IsChain "intake_complete" to_the_end
unfolding validate_transition
to_the_end-IsChain = (refl, (refl, (refl, (refl, tt))))

chain_bound_example : length to_the_end ≤ 5
chain_bound_example = chain_bound "intake_complete" to_the_end to_the_end-IsChain

-- A language model that always writes the same draft, with a cost of 12.
abbrev steady : Env
steady = record {
  Number = ℕ;
  to_float = λ text. none;
  generate_json = λ system user. ok (parsed (some "a new draft") (number 12) missing missing);
  repr = λ d. "answer";
}

abbrev waiting : State steady
waiting = record {
  department = "training";
  section = record {
    draft_content = some "a draft";
    cost = none;
    setup_days = some 20;
    price_per_cover = none;
    needs_regen = false;
    forced_request_changes = true;
    arbiter_feedback = none;
    human_feedback = none;
  };
  rework_count = 0;
  outcome = none;
  error = none;
  trace = [];
}

abbrev answers : List Decision
answers =
    said "reject"
    ∷ mapping none (some "request_changes") (some "shorter")
    ∷ said "reject"
    ∷ said "reject"
    ∷ []

approval_ends_example :
    let after = run_graph steady answers waiting in
    (is_blank (text_of after.outcome) ≡ false) × (after.rework_count ≤ 3)
approval_ends_example = approval_ends steady answers waiting refl (omega arith) (omega arith)

exhausted : (run_graph steady answers waiting).outcome ≡ some "exhausted"
unfolding run_graph approve_node regen_node route_after_approve merged action_of
exhausted = refl
