-- ===== src/Cli.antt =====
-- internal/cli: the commands.
pub mod Flags
pub mod Lifecycle
pub mod Configure
pub mod Bundle
pub mod Exec
pub mod Observe
