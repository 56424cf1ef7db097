-- ===== src/Partutil/Grub/Mask.antt =====
-- Masking a systemd service in grub.cfg (pkg/tools/disable_systemd_service.go).
use cos_tools.Base.{
  ℕ, Bool, ◌⊎◌, true, false, some, [], ◌≡◌, refl, ◌∙◌, get_elem?, All, if◌then◌else◌, Bool-cases,
  inl, inr,
}
use cos_tools.Base.Errors.{ok}
use cos_tools.Text.{Bytes, split, contains}
use cos_tools.Os.{Os, command, read_file, write_file, temp_dir}
use cos_tools.Partutil.Grub.{
  append_point, grub_path_in, mount_argv, unmount_argv, add_cmd, mask_cmd, mount_efi_partition,
  unmount_efi_partition, grub_contains, add_cmd_to_grub, mask_in_grub, disable_systemd_service,
}
use cos_tools.Partutil.Grub.Lines.{HasNoPoint, contains-add_cmd, add_cmd_same}

-- A system on which the EFI partition is mounted in a new directory, read, written and unmounted.
pub record Efi {W : Type 0} (os : Os W) : Type 0 where
  pub dir : W → Bytes
  pub grub : W → Bytes
  pub created : W → W
  pub mounted : W → W
  pub unmounted : W → W
  pub written : Bytes → W → W
  pub create_lem : (w : W) → os temp_dir w ≡ (some (dir w), created w)
  pub mount_lem : (d : Bytes) (w : W) → os (command (mount_argv d) []) w ≡ (some [], mounted w)
  pub unmount_lem : (w : W) → os (command unmount_argv []) w ≡ (some [], unmounted w)
  pub read_lem : (d : Bytes) (w : W) → os (read_file (grub_path_in d)) w ≡ (some (grub w), w)
  pub write_lem :
      (d text : Bytes) (w : W) → os (write_file (grub_path_in d) text) w ≡ (some [], written text w)
  pub grub-created : (w : W) → grub (created w) ≡ grub w
  pub grub-mounted : (w : W) → grub (mounted w) ≡ grub w
  pub grub-unmounted : (w : W) → grub (unmounted w) ≡ grub w
  pub grub-written : (text : Bytes) (w : W) → grub (written text w) ≡ text

module _ {W : Type 0} {os : Os W} (efi : Efi os) where
  abbrev masked : Bytes → Bytes → Bytes
  masked cmd content = if contains cmd content then content else add_cmd cmd content

  mask_in_grub_lem :
      (d cmd : Bytes) (w : W)
      → (w' : W) × (mask_in_grub os (grub_path_in d) cmd w ≡ (ok tt, w'))
        × (efi.grub w' ≡ masked cmd (efi.grub w))
  unfolding mask_in_grub grub_contains add_cmd_to_grub
  mask_in_grub_lem d cmd w = elim (Bool-cases (contains cmd (efi.grub w))) [
    | inl there ↦ (w, rw (efi.read_lem d w, there), rw there)
    | inr missing ↦
        let text = add_cmd cmd (efi.grub w) in
        (
          efi.written text w,
          rw (efi.read_lem d w, missing, efi.read_lem d w, efi.write_lem d text w),
          rw missing (efi.grub-written text w),
        )
  ]

  disable_systemd_service_lem :
      (service : Bytes) (w : W)
      → (w' : W) × (disable_systemd_service os service w ≡ (ok tt, w'))
        × (efi.grub w' ≡ masked (mask_cmd service) (efi.grub w))
  unfolding disable_systemd_service mount_efi_partition unmount_efi_partition
  disable_systemd_service_lem service w =
      let at_mount = efi.created w in
      let ready = efi.mounted at_mount in
      let same : efi.grub ready ≡ efi.grub w = efi.grub-mounted at_mount ∙ efi.grub-created w in
      let (w', done, held) = mask_in_grub_lem (efi.dir w) (mask_cmd service) ready in
      (
        efi.unmounted w',
        rw (efi.create_lem w, efi.mount_lem (efi.dir w) at_mount, done, efi.unmount_lem w'),
        efi.grub-unmounted w' ∙ held ∙ rw same,
      )

  -- On a system whose EFI partition can be mounted, read and written: where a line of grub.cfg has a
  -- `cros_efi`, disabling a service succeeds and its mask is in grub.cfg then.
  pub disable_systemd_service_masks :
      (service : Bytes) (w : W) (i : ℕ) (line : Bytes)
      → get_elem? (split (efi.grub w) b'\n') i ≡ some line
      → contains append_point line ≡ true
      → (w' : W) × (disable_systemd_service os service w ≡ (ok tt, w'))
        × (contains (mask_cmd service) (efi.grub w') ≡ true)
  disable_systemd_service_masks service w i line e h =
      let (w', done, held) = disable_systemd_service_lem service w in
      let cmd = mask_cmd service in
      (w', done, rw held (by_test cmd (Bool-cases (contains cmd (efi.grub w)))))
    where
      by_test :
          (cmd : Bytes)
          → (contains cmd (efi.grub w) ≡ true) ⊎ (contains cmd (efi.grub w) ≡ false)
          → contains cmd (masked cmd (efi.grub w)) ≡ true
      by_test cmd (inl there) = rw there there
      by_test cmd (inr missing) = rw missing (contains-add_cmd cmd (efi.grub w) i line e h)

  -- On such a system, where no line of grub.cfg has a `cros_efi`, disabling a service succeeds all the same, and grub.cfg stays as it was.
  pub disable_systemd_service_misses :
      (service : Bytes) (w : W)
      → All HasNoPoint (split (efi.grub w) b'\n')
      → (w' : W) × (disable_systemd_service os service w ≡ (ok tt, w')) × (efi.grub w' ≡ efi.grub w)
  disable_systemd_service_misses service w h =
      let (w', done, held) = disable_systemd_service_lem service w in
      (w', done, held ∙ by_test (contains (mask_cmd service) (efi.grub w)))
    where
      by_test :
          (b : Bool)
          → (if b then efi.grub w else add_cmd (mask_cmd service) (efi.grub w)) ≡ efi.grub w
      by_test true = refl
      by_test false = add_cmd_same (mask_cmd service) (efi.grub w) h
