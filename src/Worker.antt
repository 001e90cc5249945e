-- ===== src/Worker.antt =====
-- The Celery workers: core/backtest.py, core/market_data/market_data_tasks.py, and the pipeline that
-- api/services/celery_task_dispatcher.py sends to them.
pub mod Externals
pub mod Backtest
pub mod Fetch
pub mod Pipeline
pub mod Redelivery
