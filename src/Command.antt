-- ===== src/Command.antt =====
-- shell/commands.c and `dispatch` of shell/shell.c.
pub mod World
pub mod Memory
pub mod Core
pub mod Files
pub mod Processes
pub mod User
pub mod Dispatch
pub mod Session
mod Tests
