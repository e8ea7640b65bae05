-- ===== src/Scenarios.antt =====
-- Concrete runs: the theorems at inputs where their hypotheses hold.
pub mod Restrictions
pub mod Launching
pub mod Jailing
pub mod Leases
pub mod Rules
pub mod Records
pub mod Images
pub mod Limits
pub mod Commands
pub mod Descriptions
pub mod Bundles
pub mod Joining
pub mod Bridging
pub mod Commits
