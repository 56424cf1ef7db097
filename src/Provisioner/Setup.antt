-- ===== src/Provisioner/Setup.antt =====
-- Preparing the machine (function setup of pkg/provisioner/provisioner.go).
pub mod Reboot
use cos_tools.Base.{
  ℕ, Bool, true, false, not, ◌||◌, Option, none, some, List, [], ◌∷◌, ◌++◌, length, get_elem?, ltb,
  if◌then◌else◌,
}
use cos_tools.Base.Errors.{
  Error, Result, ok, err, panic, message, reboot_required, or_fail, refuse_if,
}
use cos_tools.Text.{Bytes, codes, eqb, is_space, split, has_prefix}
use cos_tools.Os.{
  Os, MountFlag, remount, bind, nosuid, nodev, noexec, noatime, nodiratime, relatime, nosymfollow,
  rdonly, mount, unmount, is_missing, mkdir, chmod, getenv, setenv, command, walk, create_file,
  close_file, read_dir, remove_all, read_file,
}
use cos_tools.Os.Action.{
  Action, ◌>>=◌, ◌>>◌, pure, lift, wrap_action, ask, order, succeeds, succeeded, on_system, fetch,
  for_each, when, copy_file,
}
use cos_tools.Provisioner.Types.{join_path, Config, StepConfig, StateData, Deps}
use cos_tools.Provisioner.State.{StateJson, init_state, load_state}
use cos_tools.Provisioner.Systemd.{stop}
use cos_tools.Provisioner.Disk.{in_root, repartition_boot_disk}
use cos_tools.Provisioner.Steps.{execute_steps}
use cos_tools.Provisioner.MountOptions.{without_noexec, mount_options_of}

module _ {W : Type 0} (os : Os W) (deps : Deps) where
  unfoldable pub mount_options : Bytes → Action W (List MountFlag)
  mount_options mount_point = do
    text ← ask os (read_file (in_root deps (codes "proc/self/mountinfo")))
    lift (mount_options_of text mount_point)

  abbrev pub none_there : Bytes → Action W Bool
  none_there path = succeeds os (is_missing path)

  -- `os.Getenv` gives the empty string for a variable that is not set.
  abbrev pub env_or_empty : Option Bytes × W → Result Bytes × W
  env_or_empty (none, w) = (ok [], w)
  env_or_empty (some v, w) = (ok v, w)

  -- The part of `setup` behind `os.Getenv`.
  unfoldable pub run_helper : Bytes → Bytes → Bytes → Action W (Unit {0})
  run_helper bin_path gcr_path path_var = do
    wrap_action (order os (setenv (codes "PATH") (bin_path ++ (b':' ∷ path_var))))
    wrap_action (order os (mount bin_path bin_path (codes "ext4") (bind ∷ [])))
    opts ← mount_options bin_path
    wrap_action (order os (mount [] bin_path [] (remount ∷ bind ∷ without_noexec opts)))
    wrap_action (order os (command (gcr_path ∷ codes "configure-docker" ∷ []) []))

  unfoldable pub setup : Bytes → Action W (Unit {0})
  setup dir = do
    stop os deps.systemctl_cmd (codes "update-engine.service")
    wrap_action (order os (mount (codes "tmpfs") (in_root deps (codes "root")) (codes "tmpfs") []))
    let bin_path = join_path dir (codes "bin")
    let gcr_path = join_path bin_path (codes "docker-credential-gcr")
    no_bin ← none_there bin_path
    when no_bin (order os (mkdir bin_path))
    no_gcr ← none_there gcr_path
    when no_gcr (do copy_file os deps.docker_credential_gcr gcr_path; order os (chmod gcr_path 493))
    path_var ← (λ w. env_or_empty (os (getenv (codes "PATH")) w))
    run_helper bin_path gcr_path path_var
