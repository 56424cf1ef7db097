-- ===== src/Changelog.antt =====
-- The change log of two builds (pkg/changelog).
pub mod Names
pub mod Messages
pub mod Repos
pub mod Sysctl
pub mod Additions
pub mod Run
mod Tests
