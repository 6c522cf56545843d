-- ===== src/Jobs.antt =====
-- data/pipelines/job_runner.py: the nightly jobs, which several processes may want to run at once.
pub mod Store
pub mod Claims
pub mod Finish
pub mod Tests
