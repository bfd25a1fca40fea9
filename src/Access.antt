-- ===== src/Access.antt =====
-- Which callers the contracts let in: the roles, the exceptions and the checker.
pub mod Exceptions
pub mod Checker
pub mod Flags
