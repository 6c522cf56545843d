-- ===== src/Agent/Guard/Turns.antt =====
-- data/pipelines/guardrails.py: the turns of the sessions.
pub mod Escalation
use brasaland_digital.Base.{
  ℕ, Bool, true, false, ◌&&◌, Option, some, none, is_some, List, [], ◌∷◌, String, ◌==◌, leb,
  if◌then◌else◌,
}
use brasaland_digital.Agent.Env.{Env}
use brasaland_digital.Agent.Memory.Screen.{or_text}
use brasaland_digital.Agent.Guard.Input.{
  GuardDecision, FailureType, security, block, refusal, sensitive_data_refusal, classify_input,
  is_extraction_continuation,
}
use brasaland_digital.Agent.Guard.Ledger.{
  World, Entry, Pending, given, get_session_entry, record_guardrail, get_pending_memory,
  set_pending_memory, clear_pending_memory, clear_session_guard, get_guardrail_summary,
}

-- `decision["reason"] == "sensitive_extraction"`
abbrev pub is_extraction_reason : Option String → Bool
is_extraction_reason reason = or_text reason "" == "sensitive_extraction"

-- Whether the session has an extraction before.
abbrev pub has_extraction : Option Entry → Bool
has_extraction none = false
has_extraction (some entry) = leb 1 entry.extraction_turns

abbrev pub continuation_refusal : GuardDecision
continuation_refusal =
    refusal security block sensitive_data_refusal "session_extraction_continuation"

module _ (env : Env) where
  -- A continuation in a session: it is refused where the session has an extraction before.
  unfoldable pub continue_session :
      ℕ → Option String → GuardDecision → Option Entry → World → GuardDecision × World
  continue_session now session_id decision entry w =
      if has_extraction entry
      then (
        continuation_refusal,
        record_guardrail env now session_id security (some "session_extraction_continuation") true
            w,
      )
      else (decision, w)

  -- The escalation for a question that was not blocked.
  unfoldable pub escalate :
      ℕ → String → Option String → GuardDecision → World → GuardDecision × World
  escalate now question session_id decision w =
      let seen = get_session_entry env now (or_text session_id "") w in
      if is_some (given session_id) && is_extraction_continuation env question
      then continue_session now session_id decision seen.0 seen.1
      else (decision, w)

  -- `apply_input_guard` after the classification.
  unfoldable pub decide_turn :
      ℕ → String → Option String → GuardDecision → World → GuardDecision × World
  decide_turn now question session_id decision w =
      let passed = escalate now question session_id decision w in
      if decision.is_blocked
      then elim decision.failure_type [
        | none ↦ passed
        | some kind ↦ (
          decision,
          record_guardrail env now session_id kind decision.reason
              (is_extraction_reason decision.reason) w,
        )
      ]
      else passed

  unfoldable pub apply_input_guard : ℕ → String → Option String → World → GuardDecision × World
  apply_input_guard now question session_id w =
      decide_turn now question session_id (classify_input env question) w

-- The functions through which the ledger is read and written.
pub data Call : Type 0 where
  ask : String → Option String → Call
  records : Option String → FailureType → Option String → Bool → Call
  propose : Option String → Option Pending → Call
  forgets : Option String → Call
  recall : Option String → Call
  looks_up : String → Call
  summarise : Option String → Call
  clears : Call

-- The reset of the whole ledger, which is for tests and administrators.
abbrev pub is_clear : Call → Bool
is_clear clears = true
is_clear other = false

module _ (env : Env) where
  abbrev pub after : ℕ → Call → World → World
  after now (ask question session_id) w = (apply_input_guard env now question session_id w).1
  after now (records session_id kind reason extraction) w =
      record_guardrail env now session_id kind reason extraction w
  after now (propose session_id pending) w = set_pending_memory env now session_id pending w
  after now (forgets session_id) w = clear_pending_memory env now session_id w
  after now (recall session_id) w = (get_pending_memory env now session_id w).1
  after now (looks_up session_id) w = (get_session_entry env now session_id w).1
  after now (summarise session_id) w = (get_guardrail_summary env now session_id w).1
  after now clears w = clear_session_guard w

  abbrev pub run : List (ℕ × Call) → World → World
  run [] w = w
  run (c ∷ rest) w = run rest (after c.0 c.1 w)
