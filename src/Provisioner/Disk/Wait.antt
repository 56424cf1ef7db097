-- ===== src/Provisioner/Disk/Wait.antt =====
-- Waiting for the disk to be resized (function waitForDiskResize of pkg/provisioner/disk_layout.go).
use cos_tools.Base.{
  if◌then◌else◌, not, ◌||◌, ℕ, zero, suc, ◌+◌, ◌*◌, ◌≤◌, false, Option, none, some, ◌≡◌, ◌≢◌, ltb,
  Bool-cases, inl, inr, arith,
}
use cos_tools.Base.Errors.{Result, panic}
use cos_tools.Text.{Bytes, eqb}
use cos_tools.Os.{Os, read_file, sleep}
use cos_tools.Os.Action.{and_then, beside, answered, pure, assign, on_system, order, ◌>>◌, ◌>>=◌}
use cos_tools.Provisioner.Types.{Deps, StateData}
use cos_tools.Provisioner.State.{StateJson, write_state}
use cos_tools.Provisioner.Disk.{
  size_file, complete_resize, minute_ns, read_clock, wait_loop, wait_for_disk_resize,
}

-- A second passes in `time.Sleep(time.Second)`, and the clock does not go back.
pub record Clock {W : Type 0} (os : Os W) (now : W → ℕ) : Type 0 where
  pub sleeps : (w : W) → now w + 1000000000 ≤ now (os sleep w).1
  pub reads : (path : Bytes) (w : W) → now w ≤ now (os (read_file path) w).1

module _ {W : Type 0} {os : Os W} {now : W → ℕ} (clock : Clock os now) (deps : Deps) {Args : Type 0}
    (json : StateJson Args) (dir : Bytes) where
  write_state-ne-panic : (d : StateData Args) (w : W) → (write_state json os dir d w).0 ≢ panic
  unfolding write_state
  write_state-ne-panic d w = λ e. ground arith

  module _ (fuel : ℕ) (start_size : Bytes) (end : ℕ) (d : StateData Args) where
    abbrev loop : W → Result (Unit {0})
    loop w = (wait_loop os deps json dir now fuel start_size end (d, w)).0

    slept-ne-panic :
        (x : Option Bytes × W)
        → loop x.1 ≢ panic
        → (and_then
            (beside d (and_then (answered x) (λ _. pure tt)))
            (λ _. wait_loop os deps json dir now fuel start_size end)).0
          ≢ panic
    slept-ne-panic (none, v) again = λ e. cc
    slept-ne-panic (some t, v) again = again

    read-ne-panic :
        (x : Option Bytes × W)
        → ((v : W) → now x.1 + 1000000000 ≤ now v → loop v ≢ panic)
        → (and_then (beside d (answered x)) (λ cur_size.
            if not (eqb cur_size start_size)
            then (assign complete_resize >> on_system (write_state json os dir))
            else (on_system (λ d. order os sleep)
                >> wait_loop os deps json dir now fuel start_size end))).0
          ≢ panic
    read-ne-panic (none, v) again = λ e. cc
    read-ne-panic (some t, v) again = elim (Bool-cases (eqb t start_size)) [
      | inl same ↦ rw same (slept-ne-panic (os sleep v) (again _ (clock.sleeps v)))
      | inr other ↦ rw other (write_state-ne-panic (complete_resize d) v)
    ]

  wait_loop-ne-panic :
      (fuel : ℕ) (start_size : Bytes) (end : ℕ) (d : StateData Args) (w : W)
      → end ≤ now w + fuel * 1000000000
      → (wait_loop os deps json dir now (suc fuel) start_size end (d, w)).0 ≢ panic
  unfolding wait_loop
  wait_loop-ne-panic zero start_size end d w h =
      let late : ltb (now w) end ≡ false = ground arith in rw late (λ e. cc)
  wait_loop-ne-panic (suc fuel) start_size end d w h = elim (Bool-cases (ltb (now w) end)) [
    | inl early ↦
        let read = os (read_file (size_file deps)) w in
        let passed : now w ≤ now read.1 = clock.reads (size_file deps) w in
        rw early (
          read-ne-panic (suc fuel) start_size end d read (λ v later.
            wait_loop-ne-panic fuel start_size end d v (omega (arith, h, passed, later))))
    | inr late ↦ rw late (λ e. cc)
  ]

  waiting-ne-panic :
      (d : StateData Args) (x : Option Bytes × W)
      → (and_then (beside d (answered x)) (λ start_size.
          on_system (λ d. read_clock os deps json dir now) >>= λ begin.
          wait_loop os deps json dir now 181 start_size (begin + 3 * minute_ns))).0
        ≢ panic
  waiting-ne-panic d (none, v) = λ e. cc
  waiting-ne-panic d (some t, v) =
      wait_loop-ne-panic 180 t (now v + 3 * minute_ns) d v (omega arith)

  -- Three minutes of waiting are over before the loop runs out of fuel, so that waiting ends.
  pub wait_for_disk_resize_ends :
      (d : StateData Args) (w : W) → (wait_for_disk_resize os deps json dir now (d, w)).0 ≢ panic
  unfolding wait_for_disk_resize
  wait_for_disk_resize_ends d w =
      elim (Bool-cases (not d.config.boot_disk.wait_for_disk_resize || d.disk_resize_complete)) [
        | inl idle ↦ rw idle (λ e. cc)
        | inr busy ↦ rw busy (waiting-ne-panic d (os (read_file (size_file deps)) w))
      ]
