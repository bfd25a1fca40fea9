-- ===== src/Types.antt =====
-- The shared enums of helpers/types.ts.
pub mod ContractIds
pub mod ContractGetters
pub mod ProtocolErrors
