-- ===== src/Calculations.antt =====
-- What the scenarios of the test suite expect of a reserve and of its users after each action:
-- test-suites/test-augmented/helpers/utils (calculations.ts, math.ts and interfaces/index.ts).
pub mod Math
pub mod Data
pub mod Interest
pub mod Rates
pub mod Reserves
pub mod Loans
pub mod Users
pub mod Switches
pub mod Settled
pub mod Others
