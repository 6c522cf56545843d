-- ===== src/Rfp.antt =====
-- data/pipelines/rfp_intake: the handling of a request for proposals.
pub mod Lifecycle
pub mod Approval
pub mod Patterns
pub mod Evaluators
pub mod Arbitration
pub mod Prompt
pub mod Response
pub mod Orchestration
pub mod Tests
