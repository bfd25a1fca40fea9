-- ===== src/Reserves.antt =====
-- The reserves of a market: helpers/init-helpers.ts and helpers/oracles-helpers.ts.
pub mod Strategies
pub mod Plan
pub mod Init
pub mod Configure
pub mod Feeds
