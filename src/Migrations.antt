-- ===== src/Migrations.antt =====
-- The migrations of db/migrations/ and the tables that the models of db/models/ declare.
pub mod Schema
pub mod Settled
pub mod Database
pub mod Plan
pub mod Revisions
pub mod Tables
pub mod Head
pub mod Return
pub mod Setup
