-- ===== src/Commands.antt =====
-- The subtask `helper:call-cmd` of tasks/helpers/call-cmd.ts: it turns named commands into contract
-- calls, collects them, and encodes, simulates or sends them.
pub mod Session
pub mod Split
pub mod Dispatch
pub mod Objects
pub mod Prepare
pub mod Tokens
pub mod Aliases
pub mod Task
