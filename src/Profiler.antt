-- ===== src/Profiler.antt =====
-- The node profiler (pkg/nodeprofiler): reading what the commands print.
pub mod Fields
pub mod Columns
pub mod Rows
pub mod Grid
mod Tests
