-- ===== src/Partutil.antt =====
-- The package src/pkg/tools/partutil: partition tables, sizes, the commands that change a disk, and
-- the GRUB configuration.
pub mod Table
pub mod Size
pub mod Commands
pub mod Grub
pub mod Sfdisk
mod Tests
