-- ===== src/Verification.antt =====
-- Source verification at the explorer: helpers/contract-verification.ts and tasks/misc/verify-all.ts.
pub mod Proxy
pub mod VerifyAll
