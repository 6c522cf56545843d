-- ===== src/Agent/Memory.antt =====
-- data/pipelines/memory_store.py: what the support agent remembers of the locations, and the log of
-- the proposals to remember something, kept in the process (REDIS_URL is not set).
pub mod Patterns
pub mod Screen
pub mod Audit
pub mod Store
