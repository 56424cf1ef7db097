-- ===== src/Provisioner/Cleanup.antt =====
-- Stopping services and removing what a run leaves (functions stopServices, zeroAllFiles,
-- cleanupDir, cleanEtcSSH and cleanup of pkg/provisioner/provisioner.go).
use cos_tools.Base.{Bool, false, ◌||◌, List, [], ◌∷◌, ◌==◌, if◌then◌else◌}
use cos_tools.Base.Errors.{wrapped, call_failed, err, message}
use cos_tools.Text.{Bytes, codes, eqb, split, has_prefix}
use cos_tools.Os.{Os, unmount, is_missing, walk, create_file, close_file, read_dir, remove_all}
use cos_tools.Os.Action.{
  Action, ◌>>=◌, ◌>>◌, pure, lift, wrap_action, ask, order, succeeds, for_each,
}
use cos_tools.Provisioner.Types.{join_path, Deps}
use cos_tools.Provisioner.Systemd.{stop}
use cos_tools.Provisioner.Disk.{in_root}
use cos_tools.Provisioner.MountOptions.{scan_lines}

-- The entries of a listing, each ended by a zero byte.
abbrev pub entries : Bytes → List Bytes
entries text = scan_lines (split text 0)

abbrev pub is_one_of : List Bytes → Bytes → Bool
is_one_of [] name = false
is_one_of (x ∷ xs) name = eqb x name || is_one_of xs name

module _ {W : Type 0} (os : Os W) (deps : Deps) where
  abbrev pub stopped_services : List Bytes
  stopped_services =
      codes "crash-reporter.service"
      ∷ codes "crash-sender.service"
      ∷ codes "device_policy_manager.service"
      ∷ codes "metrics-daemon.service"
      ∷ codes "update-engine.service"
      ∷ codes "systemd-random-seed.service"
      ∷ codes "systemd-journald-audit.socket"
      ∷ codes "systemd-journald-dev-log.socket"
      ∷ codes "systemd-journald.socket"
      ∷ codes "systemd-journald.service"
      ∷ []

  unfoldable pub stop_services : Action W (Unit {0})
  stop_services = for_each (stop os deps.systemctl_cmd) stopped_services

  -- The function that `filepath.Walk` calls.
  unfoldable pub zero_file : Bytes → Action W (Unit {0})
  zero_file [] = lift (err message)
  zero_file (kind ∷ path) =
      if kind == b'f'
      then (do order os (create_file path); order os (close_file path))
      else if kind == b'd'
      then pure tt
      else lift (err (wrapped call_failed))

  unfoldable pub zero_all_files : Bytes → Action W (Unit {0})
  zero_all_files dir = do
    missing ← succeeds os (is_missing dir)
    if missing
        then pure tt
        else do visited ← ask os (walk dir); for_each zero_file (entries visited)

  unfoldable pub cleanup_dir : Bytes → List Bytes → Action W (Unit {0})
  cleanup_dir dir exclude = do
    names ← ask os (read_dir dir)
    for_each
        (λ name.
          if is_one_of exclude name then pure tt else order os (remove_all (join_path dir name)))
        (entries names)

  unfoldable pub clean_etc_ssh : Action W (Unit {0})
  clean_etc_ssh = do
    let dir = in_root deps (codes "etc/ssh")
    names ← ask os (read_dir dir)
    for_each
        (λ name.
          if has_prefix (codes "ssh_host_") name
          then order os (remove_all (join_path dir name))
          else pure tt)
        (entries names)

  abbrev pub removed_paths : List Bytes
  removed_paths =
      codes "mnt/stateful_partition/etc"
      ∷ codes "etc/docker/key.json"
      ∷ codes "var/lib/systemd/random-seed"
      ∷ []

  abbrev pub emptied_directories : List Bytes
  emptied_directories =
      codes "var/tmp"
      ∷ codes "var/lib/crash_reporter"
      ∷ codes "var/lib/metrics"
      ∷ codes "var/lib/update_engine"
      ∷ codes "var/lib/whitelist"
      ∷ codes "var/lib/cloud"
      ∷ codes "var/log/journal"
      ∷ codes "var/log/audit"
      ∷ codes "etc/netplan"
      ∷ codes "tmp"
      ∷ []

  -- Removing a path that does not exist is no error.
  unfoldable pub cleanup : Bytes → Action W (Unit {0})
  cleanup dir = do
    wrap_action (order os (unmount (join_path dir (codes "bin"))))
    order os (remove_all dir)
    unmounted ← succeeds os (unmount (in_root deps (codes "root")))
    for_each (λ path. order os (remove_all (in_root deps path))) removed_paths
    cleanup_dir (in_root deps (codes "var/cache")) (codes "apt" ∷ codes "debconf" ∷ [])
    cleanup_dir (in_root deps (codes "var/lib/systemd")) (codes "deb-systemd-helper-enabled" ∷ [])
    for_each (λ path. cleanup_dir (in_root deps path) []) emptied_directories
    zero_all_files (in_root deps (codes "var/log"))
    clean_etc_ssh
