-- ===== src/Findbuild.antt =====
-- The build finder (pkg/findbuild): the first build that contains a change.
pub mod Types
pub mod Range
pub mod Builds
pub mod Project
pub mod Repo
pub mod First
pub mod Query
pub mod Search
mod Tests
