-- ===== src/Provisioner/Systemd.antt =====
-- The systemd client (pkg/provisioner/systemd.go) and `utils.RunCommand`.
use cos_tools.Base.{Bool, List, [], ◌∷◌, ◌++◌}
use cos_tools.Text.{Bytes, codes}
use cos_tools.Os.{Os, command, mkdir_all, write_file}
use cos_tools.Os.Action.{Action, ◌>>=◌, ◌>>◌, wrap_action, order, succeeds, when, for_each}
use cos_tools.Provisioner.Types.{join_path}

module _ {W : Type 0} (os : Os W) where
  -- `utils.RunCommand` in the current directory and environment
  unfoldable pub run_command : List Bytes → Action W (Unit {0})
  run_command args = wrap_action (order os (command args []))

  module _ (systemctl : Bytes) where
    unfoldable pub is_active : Bytes → Action W Bool
    is_active unit = succeeds os (command (systemctl ∷ codes "is-active" ∷ unit ∷ []) [])

    unfoldable pub reload : Action W (Unit {0})
    reload = run_command (systemctl ∷ codes "daemon-reload" ∷ [])

    unfoldable pub start : Bytes → List Bytes → Action W (Unit {0})
    start unit flags = run_command ((systemctl ∷ codes "start" ∷ unit ∷ []) ++ flags)

    unfoldable pub stop : Bytes → Action W (Unit {0})
    stop unit = do
      active ← is_active unit
      when active (run_command (systemctl ∷ codes "stop" ∷ unit ∷ []))

    abbrev pub journald_units : List Bytes
    journald_units =
        codes "systemd-journald.socket"
        ∷ codes "systemd-journald-dev-log.socket"
        ∷ codes "systemd-journald-audit.socket"
        ∷ codes "syslog.socket"
        ∷ codes "systemd-journald.service"
        ∷ []

    unfoldable pub stop_journald : Bytes → Action W (Unit {0})
    stop_journald root_dir = do
      let config_dir_name =
          join_path root_dir (codes "etc/systemd/system/systemd-journald.service.d")
      order os (mkdir_all config_dir_name)
      order os (
          write_file (join_path config_dir_name (codes "override.conf"))
            (codes "[Service]\nRestart=no\n"))
      reload
      for_each stop journald_units
