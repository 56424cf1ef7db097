-- ===== src/Provisioner/Run.antt =====
-- A whole run of the provisioner (functions run, Run and Resume of pkg/provisioner/provisioner.go)
-- and the exit code of its commands (cmd/provisioner/run.go, resume.go, main.go).
pub mod Reboot
use cos_tools.Base.{
  ℕ, Bool, true, false, not, ◌||◌, Option, none, some, List, [], ◌∷◌, ◌++◌, length, get_elem?, ltb,
  if◌then◌else◌,
}
use cos_tools.Base.Errors.{
  Error, Result, ok, err, panic, message, reboot_required, or_fail, refuse_if,
}
use cos_tools.Text.{Bytes, codes, eqb, is_space, split, has_prefix}
use cos_tools.Os.{
  Os, MountFlag, remount, bind, nosuid, nodev, noexec, noatime, nodiratime, relatime, nosymfollow,
  rdonly, mount, unmount, is_missing, mkdir, chmod, getenv, setenv, command, walk, create_file,
  close_file, read_dir, remove_all, read_file,
}
use cos_tools.Os.Action.{
  Action, ◌>>=◌, ◌>>◌, pure, lift, wrap_action, ask, order, succeeds, succeeded, on_system, fetch,
  for_each, when, copy_file,
}
use cos_tools.Provisioner.Types.{join_path, Config, StepConfig, StateData, Deps}
use cos_tools.Provisioner.State.{StateJson, init_state, load_state}
use cos_tools.Provisioner.Systemd.{stop}
use cos_tools.Provisioner.Disk.{in_root, repartition_boot_disk}
use cos_tools.Provisioner.Steps.{execute_steps}
use cos_tools.Provisioner.Setup.{setup}
use cos_tools.Provisioner.Cleanup.{stop_services, cleanup}

-- The clock, and what parses and runs a step, are parameters.
module _ {Args W : Type 0} (json : StateJson Args) (os : Os W) (deps : Deps) (now : W → ℕ)
    {Step : Type 0} (parse_step : StepConfig Args → Result Step)
    (run_step : Step → StateData Args → Action W (Unit {0})) (dir : Bytes) where
  -- The part of `run` behind the steps.
  unfoldable pub finish_run : StateData Args → Action W (Unit {0})
  finish_run d = do wrap_action (stop_services os deps); wrap_action (cleanup os deps dir)

  -- The part of `run` behind the disk layout.
  unfoldable pub run_on_disk : Action (StateData Args × W) (Unit {0})
  run_on_disk = do
    on_system (λ d. setup os deps dir)
    execute_steps json os dir parse_step run_step
    on_system finish_run

  -- The function `run`.
  unfoldable pub run_state : Action (StateData Args × W) (Unit {0})
  run_state = repartition_boot_disk os deps json dir now >> run_on_disk

  abbrev pub forget_state : Result (Unit {0}) × (StateData Args × W) → Result (Unit {0}) × W
  forget_state (r, s) = (r, s.1)

  unfoldable pub run : Config Args → Action W (Unit {0})
  run c = do d ← init_state json os deps dir c; (λ w. forget_state (run_state (d, w)))

  unfoldable pub resume : Action W (Unit {0})
  resume = do d ← load_state json os dir; (λ w. forget_state (run_state (d, w)))

-- `subcommands.ExitFailure`, `ExitUsageError` and the code for a reboot. Go exits with 2 on a panic.
unfoldable pub exit_code : Result (Unit {0}) → ℕ
exit_code (ok u) = 0
exit_code (err reboot_required) = 3
exit_code (err e) = 1
exit_code panic = 2

module _ {Args W : Type 0} (json : StateJson Args) (os : Os W) (deps : Deps) (now : W → ℕ)
    {Step : Type 0} (parse_step : StepConfig Args → Result Step)
    (run_step : Step → StateData Args → Action W (Unit {0})) (dir : Bytes) where
  abbrev pub exits : Result (Unit {0}) × W → ℕ × W
  exits (r, w) = (exit_code r, w)

  -- `Run.Execute` behind the flags.
  unfoldable pub run_command_exit : (Bytes → Option (Config Args)) → Bytes → W → ℕ × W
  run_command_exit parse_config [] w = (2, w)
  run_command_exit parse_config (c ∷ config_path) w = exits (
      (do
        text ← ask os (read_file (c ∷ config_path))
        config ← lift (or_fail (parse_config text))
        run json os deps now parse_step run_step dir config)
        w)

  -- `Resume.Execute`
  unfoldable pub resume_command_exit : W → ℕ × W
  resume_command_exit w = exits (resume json os deps now parse_step run_step dir w)
