-- ===== src/Agent/Guard/Ledger.antt =====
-- data/pipelines/guardrails.py: the ledger of the sessions, kept in the process.
use brasaland_digital.Base.{
  ℕ, suc, ◌+◌, Bool, Option, some, none, List, [], ◌∷◌, ◌++◌, String, is_blank, ltb, length, select,
  reject, if◌then◌else◌,
}
use brasaland_digital.Base.Dicts.{Dict, lookup, put}
use brasaland_digital.Agent.Env.{Env}
use brasaland_digital.Agent.Memory.Audit.{Proposal, ProposalAuditEvent, log_proposal_event}
use brasaland_digital.Agent.Guard.Input.{FailureType, structural, content, security}

abbrev pub session_ttl_seconds : ℕ
session_ttl_seconds = 3600

pub record Counts : Type 0 where
  pub structural_count : ℕ
  pub content_count : ℕ
  pub security_count : ℕ

abbrev pub no_counts : Counts
no_counts = record { structural_count = 0; content_count = 0; security_count = 0 }

-- `counts[failure_type] += 1`
abbrev pub count_up : FailureType → Counts → Counts
count_up structural c = record c { structural_count = suc c.structural_count }
count_up content c = record c { content_count = suc c.content_count }
count_up security c = record c { security_count = suc c.security_count }

pub record Event : Type 0 where
  pub failure_type : FailureType
  pub reason : Option String
  pub is_extraction : Bool
  pub ts : ℕ

-- A pending proposal with the message it came from.
pub record Pending : Type 0 where
  pub proposal : Proposal
  pub originating_message : Option String

pub record Entry : Type 0 where
  pub events : List Event
  pub extraction_turns : ℕ
  pub counts : Counts
  pub pending_memory : Option Pending
  pub updated_at : ℕ

-- `SESSION_GUARD`, `PROCESS_COUNTS` and the log of memory_store.py.
pub record World : Type 0 where
  pub session_guard : Dict Entry
  pub process_counts : Counts
  pub audit : List ProposalAuditEvent

pub record Summary : Type 0 where
  pub counts : Counts
  -- Of one session: its id and its turns; of the process: the number of sessions.
  pub session_id : Option String
  pub extraction_turns : ℕ
  pub sessions : ℕ

-- A session id that is given and is not empty.
abbrev pub given : Option String → Option String
given none = none
given (some s) = if is_blank s then none else some s

abbrev pub new_entry : ℕ → Entry
new_entry now = record {
  events = [];
  extraction_turns = 0;
  counts = no_counts;
  pending_memory = none;
  updated_at = now;
}

unfoldable pub clear_session_guard : World → World
clear_session_guard w = record w { session_guard = []; process_counts = no_counts }

abbrev pub is_expired : ℕ → String × Entry → Bool
is_expired now item = ltb (item.1.updated_at + session_ttl_seconds) now

module _ (env : Env) where
  -- The event of a proposal that was neither approved nor rejected in time.
  unfoldable pub log_pending_ttl_reject :
      ℕ → String → Entry → String → List ProposalAuditEvent → List ProposalAuditEvent
  log_pending_ttl_reject now session_id entry reason log = elim entry.pending_memory [
    | none ↦ log
    | some pending ↦
        (log_proposal_event env now
          (record {
            id = none;
            session_id = some session_id;
            outcome = some "rejected";
            proposal = some pending.proposal;
            originating_message = pending.originating_message;
            timestamp = none;
            reason = some reason;
          })
          log).1
  ]

  -- The log after the loop over the expired sessions.
  unfoldable pub log_expired :
      ℕ → List (String × Entry) → List ProposalAuditEvent → List ProposalAuditEvent
  log_expired now [] log = log
  log_expired now (item ∷ rest) log =
      log_expired now rest (log_pending_ttl_reject now item.0 item.1 "ttl_expired" log)

  unfoldable pub purge_expired : ℕ → World → World
  purge_expired now w = record w {
    session_guard = reject (is_expired now) w.session_guard;
    audit = log_expired now (select (is_expired now) w.session_guard) w.audit;
  }

  -- The entry of the session, and the world that has it.
  unfoldable pub ensure_session : ℕ → String → World → Entry × World
  ensure_session now session_id w =
      let kept = purge_expired now w in
      elim (lookup session_id kept.session_guard) [
        | some entry ↦ (entry, kept)
        | none ↦ (
          new_entry now,
          record kept { session_guard = put session_id (new_entry now) kept.session_guard },
        )
      ]

  unfoldable pub get_session_entry : ℕ → String → World → Option Entry × World
  get_session_entry now session_id w =
      let kept = purge_expired now w in (lookup session_id kept.session_guard, kept)

  unfoldable pub get_pending_memory : ℕ → Option String → World → Option Pending × World
  get_pending_memory now session_id w = elim (given session_id) [
    | none ↦ (none, w)
    | some s ↦
        let (entry, kept) = get_session_entry now s w in
        (elim entry [ none ↦ none | some e ↦ e.pending_memory ], kept)
  ]

  unfoldable pub set_pending_memory : ℕ → Option String → Option Pending → World → World
  set_pending_memory now session_id pending w = elim (given session_id) [
    | none ↦ w
    | some s ↦
        let (entry, kept) = ensure_session now s w in
        record kept {
          session_guard =
              put s (record entry { pending_memory = pending; updated_at = now })
                kept.session_guard;
        }
  ]

  unfoldable pub clear_pending_memory : ℕ → Option String → World → World
  clear_pending_memory now session_id w = set_pending_memory now session_id none w

  -- The entry of the session after the event.
  unfoldable pub recorded : ℕ → FailureType → Option String → Bool → Entry → Entry
  recorded now kind reason extraction entry = record entry {
    counts = count_up kind entry.counts;
    updated_at = now;
    events =
        entry.events
        ++ record { failure_type = kind; reason = reason; is_extraction = extraction; ts = now }
          ∷ [];
    extraction_turns = if extraction then suc entry.extraction_turns else entry.extraction_turns;
  }

  unfoldable pub record_guardrail :
      ℕ → Option String → FailureType → Option String → Bool → World → World
  record_guardrail now session_id kind reason extraction w =
      let counted = record w { process_counts = count_up kind w.process_counts } in
      elim (given session_id) [
        | none ↦ counted
        | some s ↦
            let (entry, kept) = ensure_session now s counted in
            record kept {
              session_guard = put s (recorded now kind reason extraction entry) kept.session_guard;
            }
      ]

  unfoldable pub get_guardrail_summary : ℕ → Option String → World → Summary × World
  get_guardrail_summary now session_id w =
      let kept = purge_expired now w in
      elim (given session_id) [
        | none ↦ (
          record {
            counts = kept.process_counts;
            session_id = none;
            extraction_turns = 0;
            sessions = length kept.session_guard;
          },
          kept,
        )
        | some s ↦ elim (lookup s kept.session_guard) [
          | none ↦ (
            record { counts = no_counts; session_id = some s; extraction_turns = 0; sessions = 0 },
            kept,
          )
          | some entry ↦ (
            record {
              counts = entry.counts;
              session_id = some s;
              extraction_turns = entry.extraction_turns;
              sessions = 0;
            },
            kept,
          )
        ]
      ]
