-- ===== src/Strategy.antt =====
-- The trading strategies: core/strategies/, and the session clock of core/utils.py.
pub mod Floats
pub mod Session
pub mod Trades
pub mod Metrics
pub mod Bollinger
pub mod Params
pub mod Report
pub mod Registry
