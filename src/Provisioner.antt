-- ===== src/Provisioner.antt =====
-- The package src/pkg/provisioner: provisioning a machine in steps, with reboots in between.
pub mod Types
pub mod Systemd
pub mod Address
pub mod State
pub mod Steps
pub mod Disk
pub mod MountOptions
pub mod Setup
pub mod Cleanup
pub mod Run
mod Tests
