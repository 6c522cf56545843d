-- ===== src/Rfp/Approval/Ending.antt =====
-- The approval of a section comes to an end.
use Prim.Native.String.append.{cons}
use brasaland_digital.Base.{
  suc, ◌+◌, ◌≤◌, ◌<◌, ◌≡◌, max, refl, ap, ◌∙◌, inl, inr, ◌⊎◌, true, false, ◌&&◌, is_some, List, [],
  ◌∷◌, String, ◌==◌, arith, leb, length, is_blank, concat, Bool-cases,
}
use brasaland_digital.Rfp.Approval.{
  Env, Decision, State, text_of, action_of, asks_for_changes, approve_node, regen_node,
  route_after_approve, run_graph, iteration_limit,
}

unknown_given : (rest : String) → is_blank (concat "unknown:" rest) ≡ false
unknown_given rest = ap is_blank (cons "u" "nknown:" rest)

module _ (env : Env) where
  -- A decision settles the outcome, or asks for a regeneration while some are left.
  abbrev Settles : State env → State env → Type 0
  Settles before after =
      (is_blank (text_of after.outcome) ≡ false) × (after.rework_count ≡ before.rework_count)

  abbrev Asks : State env → State env → Type 0
  Asks before after =
      (after.outcome ≡ before.outcome)
      × (after.section.needs_regen ≡ true)
      × (before.rework_count < 3)
      × (after.rework_count ≡ before.rework_count)

  approve_node_cases :
      (d : Decision) (state : State env)
      → Settles state (approve_node env d state) ⊎ Asks state (approve_node env d state)
  unfolding approve_node
  approve_node_cases d state =
      let action = text_of (action_of d) in
      elim (Bool-cases (is_some (action_of d) && action == "approve")) [
        | inl approves ↦ rw (approves) (inl (refl, refl))
        | inr other ↦ elim (Bool-cases (is_some (action_of d) && asks_for_changes action)) [
          | inr unknown ↦ rw (other, unknown) (inl (unknown_given _, refl))
          | inl changes ↦ elim (Bool-cases (leb iteration_limit state.rework_count)) [
            | inl last ↦ rw (other, changes, last) (inl (refl, refl))
            | inr left ↦ rw (other, changes, left) (inr (refl, refl, ground arith, refl))
          ]
        ]
      ]

  route_settled :
      (state : State env)
      → is_blank (text_of state.outcome) ≡ false
      → route_after_approve env state ≡ false
  unfolding route_after_approve
  route_settled state h = rw (h) refl

  route_asked :
      (state : State env)
      → is_blank (text_of state.outcome) ≡ true
      → state.section.needs_regen ≡ true
      → route_after_approve env state ≡ true
  unfolding route_after_approve
  route_asked state h asked = rw (h) asked

  regenerated_outcome :
      (state : State env)
      → is_blank (text_of (regen_node env state).outcome) ≡ is_blank (text_of state.outcome)
  unfolding regen_node
  regenerated_outcome state = refl

  regenerated_count :
      (state : State env) → (regen_node env state).rework_count ≡ suc state.rework_count
  unfolding regen_node
  regenerated_count state = refl

  -- From any state of the graph that waits for a decision, decisions enough for the regenerations that
  -- are left, and one more, lead to an outcome, whatever they are and whatever the language model
  -- answers; there are at most three regenerations in all.
  pub approval_ends :
      (decisions : List Decision) (state : State env)
      → is_blank (text_of state.outcome) ≡ true
      → 4 ≤ state.rework_count + length decisions
      → 1 ≤ length decisions
      → let after = run_graph env decisions state in
        (is_blank (text_of after.outcome) ≡ false) × (after.rework_count ≤ max 3 state.rework_count)
  unfolding run_graph
  approval_ends [] state waiting enough given = absurd (omega (arith, given))
  approval_ends (d ∷ rest) state waiting enough given = elim (approve_node_cases d state) [
    | inl (settled, same) ↦
        let ends : route_after_approve env (approve_node env d state) ≡ false =
          route_settled _ settled in
        rw (ends) (settled, omega (arith, same))
    | inr (open_still, asked, left, same) ↦
        let decided = approve_node env d state in
        let goes_on : route_after_approve env decided ≡ true =
          route_asked decided (ap (λ o. is_blank (text_of o)) open_still ∙ waiting) asked in
        let (closed, few) =
          approval_ends rest (regen_node env decided)
            (regenerated_outcome decided ∙ (ap (λ o. is_blank (text_of o)) open_still ∙ waiting))
            (omega (arith, regenerated_count decided, same, enough))
            (omega (arith, left, enough)) in
        rw (goes_on) (closed, omega (arith, few, regenerated_count decided, same, left))
  ]
