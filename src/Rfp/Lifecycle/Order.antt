-- ===== src/Rfp/Lifecycle/Order.antt =====
-- The changes of status that data/pipelines/rfp_intake/lifecycle.py allows go one way.
use brasaland_digital.Base.{
  ℕ, ◌≡◌, refl, ◌↔◌, ◌⊎◌, inl, inr, ◌<◌, ◌≤◌, true, Bool, List, [], ◌∷◌, String, ◌==◌, eq_iff,
  arith, if◌then◌else◌, contains, length, not, none, is_empty,
}
use brasaland_digital.Rfp.Lifecycle.{
  refused, rfp_statuses, rfp_allowed_transitions, validate_transition,
}

-- The six changes, by the statuses before and after.
abbrev pub IsStep : String → String → Type 0
IsStep current target =
    ((current ≡ "analyzing") × (target ≡ "discarded"))
    ⊎ ((current ≡ "analyzing") × (target ≡ "intake_complete"))
    ⊎ ((current ≡ "intake_complete") × (target ≡ "drafting"))
    ⊎ ((current ≡ "drafting") × (target ≡ "under_evaluation"))
    ⊎ ((current ≡ "under_evaluation") × (target ≡ "waiting_for_approval"))
    ⊎ ((current ≡ "waiting_for_approval") × (target ≡ "done"))

allowed_at :
    {current target here there : String}
    → current ≡ here
    → target ≡ there
    → (validate_transition here there).is_allowed ≡ true
    → (validate_transition current target).is_allowed ≡ true
allowed_at e f h = rw (e, f) h

allowed_at_step :
    (current target : String)
    → IsStep current target
    → (validate_transition current target).is_allowed ≡ true
unfolding validate_transition
allowed_at_step current target (inl (e, f)) = allowed_at e f refl
allowed_at_step current target (inr (inl (e, f))) = allowed_at e f refl
allowed_at_step current target (inr (inr (inl (e, f)))) = allowed_at e f refl
allowed_at_step current target (inr (inr (inr (inl (e, f))))) = allowed_at e f refl
allowed_at_step current target (inr (inr (inr (inr (inl (e, f)))))) = allowed_at e f refl
allowed_at_step current target (inr (inr (inr (inr (inr (e, f)))))) = allowed_at e f refl

listed-IsStep :
    (current target : String)
    → contains target (rfp_allowed_transitions current) ≡ true
    → IsStep current target
unfolding rfp_allowed_transitions
listed-IsStep current target h = ground (
  arith,
  eq_iff current "analyzing",
  eq_iff current "intake_complete",
  eq_iff current "drafting",
  eq_iff current "under_evaluation",
  eq_iff current "waiting_for_approval",
  eq_iff target "discarded",
  eq_iff target "intake_complete",
  eq_iff target "drafting",
  eq_iff target "under_evaluation",
  eq_iff target "waiting_for_approval",
  eq_iff target "done",
)

-- The tests of `validate_transition`, in their order.
tests_passed :
    (known wanted same terminal listed : Bool) (m1 m2 m3 m4 m5 : String)
    → (if not known
        then refused m1
        else if not wanted
        then refused m2
        else if same
        then refused m3
        else if terminal
        then refused m4
        else if listed
        then record { is_allowed = true; message = none }
        else refused m5).is_allowed
      ≡ true
    → listed ≡ true
tests_passed known wanted same terminal listed m1 m2 m3 m4 m5 h = ground arith

allowed_listed :
    (current target : String)
    → (validate_transition current target).is_allowed ≡ true
    → contains target (rfp_allowed_transitions current) ≡ true
unfolding validate_transition
allowed_listed current target h =
    tests_passed (contains current rfp_statuses) (contains target rfp_statuses) (current == target)
      (is_empty (rfp_allowed_transitions current))
      (contains target (rfp_allowed_transitions current)) _ _ _ _ _ h

-- A change of status of a request is allowed exactly for the six steps of the chain from analyzing to
-- done, or from analyzing to discarded.
pub validate_transition_rfp_iff :
    (current target : String)
    → ((validate_transition current target).is_allowed ≡ true) ↔ IsStep current target
validate_transition_rfp_iff current target = (
  λ h. listed-IsStep current target (allowed_listed current target h),
  allowed_at_step current target,
)

-- How many changes may still follow.
unfoldable pub remaining : String → ℕ
remaining s =
    if s == "analyzing"
    then 5
    else if s == "intake_complete"
    then 4
    else if s == "drafting"
    then 3
    else if s == "under_evaluation"
    then 2
    else if s == "waiting_for_approval"
    then 1
    else 0

less_at :
    {current target here there : String}
    → current ≡ here
    → target ≡ there
    → remaining there < remaining here
    → remaining target < remaining current
less_at e f h = rw (e, f) h

remaining_step :
    (current target : String) → IsStep current target → remaining target < remaining current
unfolding remaining
remaining_step current target (inl (e, f)) = less_at e f (omega arith)
remaining_step current target (inr (inl (e, f))) = less_at e f (omega arith)
remaining_step current target (inr (inr (inl (e, f)))) = less_at e f (omega arith)
remaining_step current target (inr (inr (inr (inl (e, f))))) = less_at e f (omega arith)
remaining_step current target (inr (inr (inr (inr (inl (e, f)))))) = less_at e f (omega arith)
remaining_step current target (inr (inr (inr (inr (inr (e, f)))))) = less_at e f (omega arith)

-- A series of changes, each allowed from the status that the one before it led to.
abbrev pub IsChain : String → List String → Type 0
IsChain current [] = Unit
IsChain current (target ∷ targets) =
    ((validate_transition current target).is_allowed ≡ true) × IsChain target targets

at_most_remaining :
    (current : String) (targets : List String)
    → IsChain current targets
    → length targets ≤ remaining current
at_most_remaining current [] chain = omega arith
at_most_remaining current (target ∷ targets) (allowed, chain) =
    let here =
      remaining_step current target ((validate_transition_rfp_iff current target).0 allowed) in
    let later = at_most_remaining target targets chain in omega (arith, here, later)

remaining_bound : (s : String) → remaining s ≤ 5
unfolding remaining
remaining_bound s = ground arith

-- Whatever its status is, a request changes its status at most five times.
pub chain_bound :
    (current : String) (targets : List String) → IsChain current targets → length targets ≤ 5
chain_bound current targets chain =
    omega (arith, at_most_remaining current targets chain, remaining_bound current)
