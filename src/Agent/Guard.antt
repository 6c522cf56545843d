-- ===== src/Agent/Guard.antt =====
-- data/pipelines/guardrails.py: what the support agent refuses, with the ledger of its sessions.
pub mod Patterns
pub mod Input
pub mod Ledger
pub mod Memories
pub mod Output
pub mod Turns
