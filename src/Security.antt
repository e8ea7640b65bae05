-- ===== src/Security.antt =====
-- internal/security: the seccomp filter, the capability sets, the order in which they apply, and the
-- sealed copy of the binary.
pub mod Filter
pub mod Policy
pub mod Capabilities
pub mod Apply
pub mod SelfExe
