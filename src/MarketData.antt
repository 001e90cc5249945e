-- ===== src/MarketData.antt =====
-- Market data: the mapping of bar intervals to the provider's parameters and back
-- (core/market_data/providers/massive/), the bars, the rows that store them, the service that reads
-- the database first and the provider on a miss (core/market_data/market_data_service.py), and the
-- validation in front of it (api/services/market_data_fetcher.py).
pub mod Intervals
pub mod Bars
pub mod Rows
pub mod Service
pub mod Fetcher
