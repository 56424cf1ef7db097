-- ===== src/Provisioner/Setup/Reboot.antt =====
-- Preparing the machine never asks for a reboot (function setup of pkg/provisioner/provisioner.go).
use cos_tools.Base.{arith, List, [], ◌∷◌, ◌++◌, Option, none, some}
use cos_tools.Text.{Bytes, codes, split}
use cos_tools.Os.{Os, chmod, getenv, setenv}
use cos_tools.Os.Action.{◌>>◌, wrap_action, order, copy_file}
use cos_tools.Os.Reboot.{
  IsCalm, NoReboot, and_then-IsCalm, wrap-IsCalm, ask-NoReboot, order-NoReboot, succeeds-NoReboot,
  when-NoReboot, copy_file-NoReboot,
}
use cos_tools.Provisioner.Types.{Deps}
use cos_tools.Provisioner.Systemd.{stop, is_active, run_command}
use cos_tools.Provisioner.MountOptions.{find_options, mount_options_of, scan_lines}
use cos_tools.Provisioner.Setup.{setup, run_helper, mount_options, env_or_empty}

find_options-IsCalm : (p : Bytes) (ls : List Bytes) → IsCalm (find_options p ls)
unfolding find_options
find_options-IsCalm p [] = λ e. cc
find_options-IsCalm p (l ∷ ls) = λ e. ground (arith, find_options-IsCalm p ls)

mount_options_of-IsCalm : (t p : Bytes) → IsCalm (mount_options_of t p)
unfolding mount_options_of
mount_options_of-IsCalm t p =
    λ e. ground (arith, find_options-IsCalm p (scan_lines (split t b'\n')))

module _ {W : Type 0} (os : Os W) where
  pub stop-NoReboot : (systemctl unit : Bytes) → NoReboot (stop os systemctl unit)
  unfolding stop is_active run_command
  stop-NoReboot systemctl unit w = λ e. ground arith

  module _ (deps : Deps) where
    mount_options-NoReboot : (p : Bytes) → NoReboot (mount_options os deps p)
    unfolding mount_options
    mount_options-NoReboot p w =
        and_then-IsCalm _ _ (ask-NoReboot os _ _) λ t v. mount_options_of-IsCalm t p

    env_or_empty-IsCalm : (x : Option Bytes × W) → IsCalm (env_or_empty os deps x).0
    env_or_empty-IsCalm (none, v) = λ e. cc
    env_or_empty-IsCalm (some t, v) = λ e. cc

    install_helper-NoReboot :
        (path : Bytes)
        → NoReboot (copy_file os deps.docker_credential_gcr path >> order os (chmod path 493))
    install_helper-NoReboot path w =
        and_then-IsCalm _ _ (copy_file-NoReboot os _ _ _) λ _ v. order-NoReboot os _ v

    run_helper-NoReboot :
        (bin_path gcr_path path_var : Bytes)
        → NoReboot (run_helper os deps bin_path gcr_path path_var)
    unfolding run_helper
    run_helper-NoReboot bin_path gcr_path path_var w =
        and_then-IsCalm
          (wrap_action (order os (setenv (codes "PATH") (bin_path ++ (b':' ∷ path_var)))) w) _
          (wrap-IsCalm _)
          λ _ v1.
            and_then-IsCalm _ _ (wrap-IsCalm _)
              λ _ v2. and_then-IsCalm _ _ (mount_options-NoReboot _ v2) λ opts v3 e. ground arith

    pub setup-NoReboot : (dir : Bytes) → NoReboot (setup os deps dir)
    unfolding setup
    setup-NoReboot dir w = and_then-IsCalm _ _ (stop-NoReboot _ _ _) λ _ v1.
        and_then-IsCalm _ _ (wrap-IsCalm _) λ _ v2.
          and_then-IsCalm _ _ (succeeds-NoReboot os _ v2) λ no_bin v3.
            and_then-IsCalm _ _ (when-NoReboot no_bin _ (order-NoReboot os _) v3) λ _ v4.
              and_then-IsCalm _ _ (succeeds-NoReboot os _ v4) λ no_gcr v5.
                and_then-IsCalm _ _ (when-NoReboot no_gcr _ (install_helper-NoReboot _) v5) λ _ v6.
                  and_then-IsCalm (env_or_empty os deps (os (getenv (codes "PATH")) v6)) _
                    (env_or_empty-IsCalm _) λ path_var v7. run_helper-NoReboot _ _ path_var v7
