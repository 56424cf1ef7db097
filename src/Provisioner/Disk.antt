-- ===== src/Provisioner/Disk.antt =====
-- Changing the boot disk over several boots (pkg/provisioner/disk_layout.go).
pub mod Wait
pub mod Settle
mod Tests
use cos_tools.Base.{
  ℕ, zero, suc, ◌+◌, ◌-◌, ◌*◌, ◌%◌, Bool, true, false, not, ◌&&◌, ◌||◌, List, [], ◌∷◌, ◌++◌, ltb,
  ◌==◌, if◌then◌else◌,
}
use cos_tools.Base.Errors.{Result, ok, err, panic, reboot_required, message}
use cos_tools.Text.{Bytes, codes, u64_mod, eqb, trim_space, format_uint}
use cos_tools.Os.{
  Os, command, read_file, write_file, open_file, create_file, copy_content, close_file, chmod,
  sleep, mount, remount, nosuid, nodev,
}
use cos_tools.Os.Action.{
  Action, ◌>>=◌, ◌>>◌, pure, lift, wrap_action, deferring, ask, order, on_system, assign, fetch,
  copy_file,
}
use cos_tools.Partutil.Commands.{
  is_empty, read_partition_size, read_partition_start, is_partition_minimal, minimize_partition,
}
use cos_tools.Provisioner.Types.{join_path, StateData, Deps}
use cos_tools.Provisioner.State.{StateJson, write_state}
use cos_tools.Provisioner.Systemd.{run_command, start, stop, stop_journald}

-- `fmt` with `%t`
abbrev pub format_bool : Bool → Bytes
format_bool true = codes "true"
format_bool false = codes "false"

-- A value whose error the source does not look at.
abbrev pub value_or_zero : {W : Type 0} → Result ℕ × W → Result ℕ × W
value_or_zero (err e, w) = (ok 0, w)
value_or_zero (ok n, w) = (ok n, w)
value_or_zero (panic, w) = (panic, w)

-- `time.Minute` and `time.Second` in nanoseconds
abbrev pub minute_ns : ℕ
minute_ns = 60000000000

abbrev pub in_root : Deps → Bytes → Bytes
in_root deps path = join_path deps.root_dir path

abbrev pub last_run_service : Bytes → Bool → Bytes
last_run_service oem_size reclaim_sda3 =
    codes "[Unit]\nDescription=Run after everything unmounted\nDefaultDependencies=false\n"
    ++ codes "Conflicts=shutdown.target\n"
    ++ codes "Before=mnt-stateful_partition.mount usr-share-oem.mount\nAfter=tmp.mount\n\n"
    ++ codes "[Service]\nType=oneshot\nRemainAfterExit=true\nExecStart=/bin/true\n"
    ++ codes "ExecStop=/bin/bash -c '/tmp/handle_disk_layout.bin /dev/sda 1 8 \""
    ++ oem_size
    ++ codes "\" \""
    ++ format_bool reclaim_sda3
    ++ codes "\" 2>&1 | sed \"s/^/BuildStatus: /\"'\nTimeoutStopSec=600\n"
    ++ codes "StandardOutput=tty\nStandardError=tty\nTTYPath=/dev/ttyS2\n"

abbrev pub resize_fs_argv : Deps → ℕ → List Bytes
resize_fs_argv deps zero = deps.resize2fs_cmd ∷ in_root deps (codes "dev/sda8") ∷ []
resize_fs_argv deps (suc n) =
    deps.resize2fs_cmd ∷ in_root deps (codes "dev/sda8") ∷ format_uint (suc n) ∷ []

module _ {W : Type 0} (os : Os W) where
  unfoldable pub calc_sda3_end : Bytes → Action W ℕ
  calc_sda3_end device = do
    sda3_start ← read_partition_start os device 3
    sda3_size ← read_partition_size os device 3
    pure ((sda3_start + sda3_size + u64_mod - 1) % u64_mod)

abbrev pub size_file : Deps → Bytes
size_file deps = in_root deps (codes "sys/class/block/sda/size")

abbrev pub complete_resize : {Args : Type 0} → StateData Args → StateData Args
complete_resize d = record d { disk_resize_complete = true }

module _ {W : Type 0} (os : Os W) (deps : Deps) {Args : Type 0} where
  -- Both deferred `CheckClose` run behind an error, which they keep.
  unfoldable pub switch_root : StateData Args → Action W (Unit {0})
  switch_root d = if not d.config.boot_disk.reclaim_sda3 then pure tt else do
    let sda3 = in_root deps (codes "dev/sda3")
    let sda5 = in_root deps (codes "dev/sda5")
    root_dev ← wrap_action (ask os (command (deps.rootdev_cmd ∷ codes "-s" ∷ []) []))
    if eqb (trim_space root_dev) sda5 then pure tt else do
      order os (open_file sda3)
      deferring (order os (close_file sda3)) (do
        order os (create_file sda5)
        deferring (order os (close_file sda5)) (do
          wrap_action (order os (copy_content sda3 sda5))
          run_command os (
              deps.cgpt_cmd
              ∷ codes "prioritize"
              ∷ codes "-P"
              ∷ codes "5"
              ∷ codes "-i"
              ∷ codes "4"
              ∷ in_root deps (codes "dev/sda")
              ∷ [])
          lift (err reboot_required)))

  unfoldable pub shrink_sda3 : StateData Args → Action W (Unit {0})
  shrink_sda3 d = if not d.config.boot_disk.reclaim_sda3 then pure tt else do
    let device = in_root deps (codes "dev/sda")
    minimal ← wrap_action (is_partition_minimal os device 3)
    if minimal
        then pure tt
        else do next ← wrap_action (minimize_partition os device 3); lift (err reboot_required)

  -- The mode of the copy is the decimal number 755.
  unfoldable pub setup_on_shutdown_unit : StateData Args → Action W (Unit {0})
  setup_on_shutdown_unit d = do
    let out = in_root deps (codes "tmp/handle_disk_layout.bin")
    wrap_action
        (order os (mount [] (in_root deps (codes "tmp")) [] (remount ∷ nosuid ∷ nodev ∷ [])))
    copy_file os deps.handle_disk_layout_bin out
    order os (chmod out 755)
    order os (
        write_file (in_root deps (codes "etc/systemd/system/last-run.service"))
          (last_run_service d.config.boot_disk.oem_size d.config.boot_disk.reclaim_sda3))
    start os deps.systemctl_cmd (codes "last-run.service") (codes "--no-block" ∷ [])
    stop_journald os deps.systemctl_cmd deps.root_dir

  -- Whether `relocatePartitions` finds that the partitions are where they are to be.
  unfoldable pub relocated : StateData Args → Bytes → Action W Bool
  relocated d device =
      if not (is_empty d.config.boot_disk.oem_size)
      then (do
        oem_start ← read_partition_start os device 8
        sda3_end ← calc_sda3_end os device
        pure (ltb sda3_end oem_start))
      else (do
        minimal ← is_partition_minimal os device 3
        stateful_start ← read_partition_start os device 1
        sda3_start ← (λ w. value_or_zero (read_partition_start os device 3 w))
        pure (minimal && (stateful_start == (sda3_start + 4096) % u64_mod)))

  abbrev pub nothing_to_relocate : StateData Args → Bool
  nothing_to_relocate d =
      not d.config.boot_disk.reclaim_sda3 && is_empty d.config.boot_disk.oem_size

  unfoldable pub relocate_partitions : StateData Args → Action W (Unit {0})
  relocate_partitions d = if nothing_to_relocate d then pure tt else do
    done ← relocated d (in_root deps (codes "dev/sda"))
    if done then pure tt else do setup_on_shutdown_unit d; lift (err reboot_required)

  unfoldable pub resize_oem_file_system : StateData Args → Action W (Unit {0})
  resize_oem_file_system d = if nothing_to_relocate d then pure tt else do
    let device = in_root deps (codes "dev/sda")
    sda3_end ← calc_sda3_end os device
    oem_start ← read_partition_start os device 8
    if ltb oem_start sda3_end then pure tt else do
      stop os deps.systemctl_cmd (codes "usr-share-oem.mount")
      run_command os (deps.e2fsck_cmd ∷ codes "-fp" ∷ in_root deps (codes "dev/sda8") ∷ [])
      run_command os (resize_fs_argv deps d.config.boot_disk.oem_fs_size_4k)
      start os deps.systemctl_cmd (codes "usr-share-oem.mount") []

  -- The clock is read off the system.
  module _ (json : StateJson Args) (dir : Bytes) (now : W → ℕ) where
    abbrev pub read_clock : Action W ℕ
    read_clock w = (ok (now w), w)

    -- The loop; with no fuel left it stands still, which `panic` marks.
    unfoldable pub wait_loop : ℕ → Bytes → ℕ → Action (StateData Args × W) (Unit {0})
    wait_loop zero start_size end = lift panic
    wait_loop (suc fuel) start_size end =
        let again = wait_loop fuel start_size end in
        do
          time ← on_system (λ d. read_clock)
          if not (ltb time end) then lift (err message) else do
            cur_size ← on_system (λ d. ask os (read_file (size_file deps)))
            if not (eqb cur_size start_size)
                then (assign complete_resize >> on_system (write_state json os dir))
                else (on_system (λ d. order os sleep) >> again)

    unfoldable pub wait_for_disk_resize : Action (StateData Args × W) (Unit {0})
    wait_for_disk_resize = do
      d ← fetch
      if not d.config.boot_disk.wait_for_disk_resize || d.disk_resize_complete then pure tt else do
        start_size ← on_system (λ d. ask os (read_file (size_file deps)))
        begin ← on_system (λ d. read_clock)
        wait_loop 181 start_size (begin + 3 * minute_ns)

    unfoldable pub repartition_boot_disk : Action (StateData Args × W) (Unit {0})
    repartition_boot_disk = do
      on_system switch_root
      on_system shrink_sda3
      wait_for_disk_resize
      on_system relocate_partitions
      on_system resize_oem_file_system
