-- ===== src/Agent.antt =====
-- data/pipelines: the guardrails and the memory of the support agent.
pub mod Env
pub mod Memory
pub mod Guard
pub mod Tests
