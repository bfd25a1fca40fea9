-- ===== src/Markets.antt =====
-- The configurations of markets: markets/augmented.
pub mod Assets
pub mod TestReserves
pub mod Sound
