-- ===== src/Partutil/Grub.antt =====
-- Commands in the boot loader's configuration (pkg/tools/partutil/grub_utils.go) and masking a
-- systemd service there (pkg/tools/disable_systemd_service.go).
pub mod Lines
pub mod Mask
pub mod Places
mod Tests
use cos_tools.Base.{
  ℕ, ◌+◌, Bool, Option, none, some, List, [], ◌∷◌, ◌++◌, take, drop, if◌then◌else◌,
}
use cos_tools.Text.{Bytes, codes, split, join, index, contains}
use cos_tools.Os.{Os, command, read_file, write_file, temp_dir}
use cos_tools.Os.Action.{Action, ◌>>=◌, ◌>>◌, pure, wrap_action, ask, order, deferring}

abbrev pub append_point : Bytes
append_point = codes "cros_efi"

abbrev pub grub_path_in : Bytes → Bytes
grub_path_in dir = dir ++ codes "/efi/boot/grub.cfg"

abbrev pub mount_argv : Bytes → List Bytes
mount_argv dir = codes "sudo" ∷ codes "mount" ∷ codes "/dev/sda12" ∷ dir ∷ []

abbrev pub unmount_argv : List Bytes
unmount_argv = codes "sudo" ∷ codes "umount" ∷ codes "/dev/sda12" ∷ []

-- A command behind the first `cros_efi` of a line.
abbrev pub insert_at : Bytes → Bytes → ℕ → Bytes
insert_at cmd line start_pos = take start_pos line ++ (b' ' ∷ (cmd ++ (b' ' ∷ drop start_pos line)))

unfoldable pub add_cmd_to_line : Bytes → Bytes → Bytes
add_cmd_to_line cmd line = elim (index append_point line) [
  | none ↦ line
  | some i ↦ insert_at cmd line (i + 8)
]

unfoldable pub add_cmd_to_lines : Bytes → List Bytes → List Bytes
add_cmd_to_lines cmd [] = []
add_cmd_to_lines cmd (line ∷ lines) = add_cmd_to_line cmd line ∷ add_cmd_to_lines cmd lines

-- The new content of the file.
unfoldable pub add_cmd : Bytes → Bytes → Bytes
add_cmd cmd content = join (add_cmd_to_lines cmd (split content b'\n')) b'\n'

abbrev pub mask_cmd : Bytes → Bytes
mask_cmd service = codes "systemd.mask=" ++ service

module _ {W : Type 0} (os : Os W) where
  unfoldable pub mount_efi_partition : Action W Bytes
  mount_efi_partition = do
    dir ← wrap_action (ask os temp_dir)
    wrap_action (order os (command (mount_argv dir) []))
    pure (grub_path_in dir)

  unfoldable pub unmount_efi_partition : Action W (Unit {0})
  unmount_efi_partition = wrap_action (order os (command unmount_argv []))

  unfoldable pub grub_contains : Bytes → Bytes → Action W Bool
  grub_contains grub_path cmd = do
    content ← wrap_action (ask os (read_file grub_path))
    pure (contains cmd content)

  unfoldable pub add_cmd_to_grub : Bytes → Bytes → Action W (Unit {0})
  add_cmd_to_grub grub_path cmd = do
    content ← wrap_action (ask os (read_file grub_path))
    wrap_action (order os (write_file grub_path (add_cmd cmd content)))

  -- The part of `DisableSystemdService` behind the mounting.
  unfoldable pub mask_in_grub : Bytes → Bytes → Action W (Unit {0})
  mask_in_grub grub_path cmd = do
    found ← wrap_action (grub_contains grub_path cmd)
    if found then pure tt else wrap_action (add_cmd_to_grub grub_path cmd)

  unfoldable pub disable_systemd_service : Bytes → Action W (Unit {0})
  disable_systemd_service service = do
    grub_path ← wrap_action mount_efi_partition
    deferring unmount_efi_partition (mask_in_grub grub_path (mask_cmd service))
