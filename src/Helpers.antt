-- ===== src/Helpers.antt =====
-- The helpers of the deployment tooling, under helpers/ and tasks/helpers/.
pub mod Batches
pub mod Answers
pub mod Addresses
