-- ===== src/Migrations.antt =====
-- The deployment of a whole market: tasks/helpers/deploy-steps.ts, the migrations of
-- tasks/migrations and the final step tasks/full/99-finalize.ts.
pub mod Steps
pub mod Runs
pub mod Mainnet
pub mod Incremental
pub mod Finalize
