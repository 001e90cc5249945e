-- ===== src/Examples.antt =====
-- Concrete instances of the parameters, and an application of each theorem to them.
mod Redis
mod Limiters
mod Rows
mod JobRuns
mod Naturals
mod Backtests
mod Requests
mod Submissions
mod Markets
mod Caches
mod Pipelines
mod Routes
mod Lifecycles
mod Migrations
mod Redeliveries
mod Fetches
