-- ===== src/Layout.antt =====
-- Changing the partitions of a COS disk (pkg/tools/handle_disk_layout.go).
pub mod Moves
pub mod Whole
pub mod Reclaim
mod Tests
use cos_tools.Base.{
  ℕ, ◌+◌, ◌-◌, ◌*◌, ◌/◌, ◌%◌, Bool, true, false, not, ◌||◌, leb, ◌==◌, if◌then◌else◌,
}
use cos_tools.Base.Errors.{refuse_if}
use cos_tools.Text.{Bytes, codes, u64_mod, format_uint}
use cos_tools.Os.{Os}
use cos_tools.Os.Action.{Action, ◌>>=◌, ◌>>◌, pure, lift, wrap_action}
use cos_tools.Partutil.Size.{convert_size_to_bytes, find_last_4k_sector}
use cos_tools.Partutil.Commands.{
  is_empty, read_partition_table, read_partition_size, read_partition_start, is_partition_minimal,
  minimize_partition, extend_partition, move_partition,
}

abbrev pub sda : Bytes
sda = codes "/dev/sda"

-- `sda3Margin`
abbrev pub sda3_margin : ℕ
sda3_margin = 4096

module _ {W : Type 0} (os : Os W) where
  -- The start point, and whether to return and wait for a reboot.
  unfoldable pub check_and_reclaim_sda3 : Bytes → ℕ → Bool → Action W (ℕ × Bool)
  check_and_reclaim_sda3 disk state_part_num true = do
    minimal ← is_partition_minimal os sda 3
    if not minimal
        then (do next ← wrap_action (minimize_partition os sda 3); pure (0, true))
        else do
          sda3_start ← wrap_action (read_partition_start os sda 3)
          pure ((sda3_start + sda3_margin) % u64_mod, false)
  check_and_reclaim_sda3 disk state_part_num false = do
    start ← wrap_action (read_partition_start os disk state_part_num)
    pure (start, false)

  -- Whether the new OEM size is not larger than the old one; then the stateful partition is moved
  -- here if sda3 is reclaimed.
  unfoldable pub check_new_oem_size_smaller : Bytes → ℕ → Bool → ℕ → ℕ → ℕ → Action W Bool
  check_new_oem_size_smaller disk state_part_num reclaim_sda3 old_bytes new_bytes start_point =
      if leb new_bytes old_bytes
      then (if not reclaim_sda3 then pure true else do
        wrap_action (move_partition os disk state_part_num (format_uint start_point))
        table ← wrap_action (read_partition_table os disk)
        pure true)
      else pure false

  -- The part of `HandleDiskLayout` that makes room for a larger OEM partition.
  unfoldable pub relocate : Bytes → ℕ → ℕ → ℕ → ℕ → Action W (Unit {0})
  relocate disk state_part_num oem_part_num new_bytes start_point = do
    let new_state_start = find_last_4k_sector ((start_point + new_bytes / 512) % u64_mod)
    wrap_action (move_partition os disk state_part_num (format_uint new_state_start))
    wrap_action (move_partition os disk oem_part_num (format_uint start_point))
    wrap_action (extend_partition os disk oem_part_num ((new_state_start + u64_mod - 1) % u64_mod))
    table ← wrap_action (read_partition_table os disk)
    pure tt

  unfoldable pub handle_disk_layout : Bytes → ℕ → ℕ → Bytes → Bool → Action W (Unit {0})
  handle_disk_layout disk state_part_num oem_part_num oem_size reclaim_sda3 = do
    lift (refuse_if (is_empty disk || state_part_num == 0 || oem_part_num == 0))
    table ← wrap_action (read_partition_table os disk)
    new_bytes ←
        wrap_action
          (lift (convert_size_to_bytes (if is_empty oem_size then codes "0" else oem_size)))
    old_sectors ← wrap_action (read_partition_size os disk oem_part_num)
    let old_bytes = old_sectors * 512 % u64_mod
    (start_point, return_and_reboot) ←
        wrap_action (check_and_reclaim_sda3 disk state_part_num reclaim_sda3)
    if return_and_reboot then pure tt else do
      oem_smaller ← wrap_action (
          check_new_oem_size_smaller disk state_part_num reclaim_sda3 old_bytes new_bytes
            start_point)
      if oem_smaller
          then pure tt
          else relocate disk state_part_num oem_part_num new_bytes start_point
