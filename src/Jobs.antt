-- ===== src/Jobs.antt =====
-- Backtest jobs: db/models/backtest_jobs.py, the two repositories over them
-- (db/repositories/backtest_repo.py, db/repositories/worker_repo.py), api/services/backtest_service.py,
-- and the last step of a job in core/backtest.py.
pub mod Table
pub mod Repository
pub mod Request
pub mod Service
pub mod Finalize
