-- ===== src/Rewards.antt =====
-- The task full:init-reward-pools, tasks/full/10-token-reward-pools.ts: reward pools for the tokens of
-- the reserves and for the team, the referrals, the treasury and the holders of frozen rewards.
pub mod Selection
pub mod Pools
pub mod Extra
pub mod Task
