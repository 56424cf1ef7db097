-- ===== src/Partutil/Grub/Tests.antt =====
-- The GRUB functions on a machine whose state is the content of grub.cfg.
use cos_tools.Base.{true, some, [], ◌≡◌, refl}
use cos_tools.Base.Errors.{ok}
use cos_tools.Text.{Bytes, codes, split, join, contains, index, has_prefix}
use cos_tools.Os.{Os, read_file, write_file, temp_dir}
use cos_tools.Partutil.Grub.{
  mask_cmd, add_cmd, add_cmd_to_line, add_cmd_to_lines, disable_systemd_service,
}
use cos_tools.Partutil.Grub.Places.{AreLinesWith, split-add_cmd}
use cos_tools.Partutil.Grub.Mask.{
  Efi, disable_systemd_service_masks, disable_systemd_service_misses,
}

machine : Unit {0}
unfolding split contains index has_prefix
machine = tt

abbrev grub_os : Os Bytes
grub_os temp_dir content = (some (codes "/tmp/efi"), content)
grub_os (read_file path) content = (some content, content)
grub_os (write_file path text) content = (some [], text)
grub_os c content = (some [], content)

abbrev grub_efi : Efi grub_os
grub_efi = record {
  dir = λ w. codes "/tmp/efi";
  grub = λ w. w;
  created = λ w. w;
  mounted = λ w. w;
  unmounted = λ w. w;
  written = λ text w. text;
  create_lem = λ w. refl;
  mount_lem = λ d w. refl;
  unmount_lem = λ w. refl;
  read_lem = λ d w. refl;
  write_lem = λ d text w. refl;
  grub-created = λ w. refl;
  grub-mounted = λ w. refl;
  grub-unmounted = λ w. refl;
  grub-written = λ text w. refl;
}

abbrev grub_text : Bytes
grub_text = codes "timeout 2\nlinux cros_efi quiet"

abbrev service_name : Bytes
service_name = codes "a.service"

add_cmd_run :
    add_cmd (mask_cmd service_name) grub_text
    ≡ codes "timeout 2\nlinux cros_efi systemd.mask=a.service  quiet"
unfolding add_cmd add_cmd_to_lines add_cmd_to_line join machine
add_cmd_run = refl

split-add_cmd_example :
    AreLinesWith (codes "x") (split grub_text b'\n') (split (add_cmd (codes "x") grub_text) b'\n')
split-add_cmd_example = split-add_cmd (codes "x") grub_text ((λ e. cc), tt)

disable_systemd_service_masks_example :
    (w' : Bytes) × (disable_systemd_service grub_os service_name grub_text ≡ (ok tt, w'))
    × (contains (mask_cmd service_name) w' ≡ true)
unfolding machine
disable_systemd_service_masks_example =
    disable_systemd_service_masks grub_efi service_name grub_text 1 (codes "linux cros_efi quiet")
      refl refl

disable_systemd_service_misses_example :
    (w' : Bytes) × (disable_systemd_service grub_os service_name (codes "timeout 2") ≡ (ok tt, w'))
    × (w' ≡ codes "timeout 2")
unfolding machine
disable_systemd_service_misses_example =
    disable_systemd_service_misses grub_efi service_name (codes "timeout 2") (refl, tt)
