-- ===== src/Agent/Memory/Audit.antt =====
-- data/pipelines/memory_store.py: the log of the proposals to remember something.
use brasaland_digital.Base.{
  ℕ, Option, some, none, List, [], ◌∷◌, ◌++◌, String, length, eqb, leb, if◌then◌else◌,
}
use brasaland_digital.Agent.Env.{Env}
use brasaland_digital.Agent.Memory.Screen.{or_text, scrub_for_audit}

-- The `dict` that the callers give as a proposal.
pub record Proposal : Type 0 where
  pub summary : Option String
  pub location : Option String
  pub category : Option String
  pub why : Option String
  pub proposal_id : Option String

-- What a caller gives; `id`, `outcome` and `timestamp` may be missing.
pub record EventInput : Type 0 where
  pub id : Option String
  pub session_id : Option String
  pub outcome : Option String
  pub proposal : Option Proposal
  pub originating_message : Option String
  pub timestamp : Option String
  pub reason : Option String

pub record ProposalAuditEvent : Type 0 where
  pub id : String
  pub session_id : Option String
  pub outcome : String
  pub proposal : Option Proposal
  pub originating_message : String
  pub timestamp : String
  pub reason : Option String

-- `rows[-count:]` for a positive count.
unfoldable pub last_rows {ℓ} : {A : Type ℓ} → ℕ → List A → List A
last_rows count [] = []
last_rows count (row ∷ rest) =
    let later = last_rows count rest in
    if leb (length (row ∷ rest)) count then row ∷ rest else later

module _ (env : Env) where
  abbrev scrub_option : Option String → Option String
  scrub_option none = none
  scrub_option (some text) = some (scrub_for_audit env text)

  -- Every text of a proposal is redacted.
  unfoldable pub scrub_proposal : Proposal → Proposal
  scrub_proposal p = record {
    summary = scrub_option p.summary;
    location = scrub_option p.location;
    category = scrub_option p.category;
    why = scrub_option p.why;
    proposal_id = scrub_option p.proposal_id;
  }

  unfoldable pub scrub_audit_payload : ProposalAuditEvent → ProposalAuditEvent
  unfolding scrub_proposal
  scrub_audit_payload event = record {
    id = scrub_for_audit env event.id;
    session_id = scrub_option event.session_id;
    outcome = scrub_for_audit env event.outcome;
    proposal = elim event.proposal [ none ↦ none | some p ↦ some (scrub_proposal p) ];
    originating_message = scrub_for_audit env event.originating_message;
    timestamp = scrub_for_audit env event.timestamp;
    reason = scrub_option event.reason;
  }

  -- The event before its redaction, with a new id and the time where none is given.
  unfoldable pub raw_record : ℕ → EventInput → List ProposalAuditEvent → ProposalAuditEvent
  raw_record now event log = record {
    id = or_text event.id (env.uuid (length log));
    session_id = event.session_id;
    outcome = or_text event.outcome "proposed";
    proposal = event.proposal;
    originating_message = or_text event.originating_message "";
    timestamp = or_text event.timestamp (env.isoformat now);
    reason = event.reason;
  }

  unfoldable pub log_proposal_event :
      ℕ → EventInput → List ProposalAuditEvent → ProposalAuditEvent × List ProposalAuditEvent
  unfolding scrub_audit_payload raw_record
  log_proposal_event now event log =
      let scrubbed = scrub_audit_payload (raw_record now event log) in
      (scrubbed, log ++ scrubbed ∷ [])

-- `limit` is not negative; 0 gives nothing.
unfoldable pub list_audit : ℕ → List ProposalAuditEvent → List ProposalAuditEvent
unfolding last_rows
list_audit limit log = if eqb limit 0 then [] else last_rows limit log
