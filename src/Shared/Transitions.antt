-- ===== src/Shared/Transitions.antt =====
-- The changes of status that packages/shared/brasaland_shared/lifecycle.py allows, as a relation.
use brasaland_digital.Base.{◌≡◌, refl, ◌⊎◌, inl, inr, ◌↔◌, true, String, eq_iff, arith}
use brasaland_digital.Shared.{validate_transition}

-- The four changes, by the statuses before and after.
abbrev pub IsStep : String → String → Type 0
IsStep current target =
    ((current ≡ "open") × (target ≡ "in_progress"))
    ⊎ ((current ≡ "open") × (target ≡ "discarded"))
    ⊎ ((current ≡ "in_progress") × (target ≡ "resolved"))
    ⊎ ((current ≡ "in_progress") × (target ≡ "discarded"))

allowed_at :
    {current target here there : String}
    → current ≡ here
    → target ≡ there
    → (validate_transition here there).is_allowed ≡ true
    → (validate_transition current target).is_allowed ≡ true
allowed_at e f h = rw (e, f) h

allowed_at_step :
    (current target : String)
    → IsStep current target
    → (validate_transition current target).is_allowed ≡ true
unfolding validate_transition
allowed_at_step current target (inl (e, f)) = allowed_at e f refl
allowed_at_step current target (inr (inl (e, f))) = allowed_at e f refl
allowed_at_step current target (inr (inr (inl (e, f)))) = allowed_at e f refl
allowed_at_step current target (inr (inr (inr (e, f)))) = allowed_at e f refl

allowed-IsStep :
    (current target : String)
    → (validate_transition current target).is_allowed ≡ true
    → IsStep current target
unfolding validate_transition
allowed-IsStep current target h = ground (
  arith,
  eq_iff current "open",
  eq_iff current "in_progress",
  eq_iff target "in_progress",
  eq_iff target "discarded",
  eq_iff target "resolved",
)

-- A change of status is allowed exactly for the four steps: an open incident may be taken up or
-- discarded, one in progress resolved or discarded, and nothing else.
pub validate_transition_iff :
    (current target : String)
    → ((validate_transition current target).is_allowed ≡ true) ↔ IsStep current target
validate_transition_iff current target =
    (allowed-IsStep current target, allowed_at_step current target)
