-- ===== src/Gob.antt =====
-- Reading Git on Borg and Gerrit (pkg/utils): errors, and retrieving commits.
pub mod Errors
pub mod Commits
pub mod Urls
pub mod Manifest
pub mod Sample
mod Tests
