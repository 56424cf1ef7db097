-- ===== src/Provisioner/Run/Reboot.antt =====
-- Which runs end in a reboot, and what the exit code tells of it.
use cos_tools.Base.{arith, ℕ, ◌≡◌, refl, ap, sym, ◌∙◌, ◌↔◌}
use cos_tools.Base.Errors.{
  Result, ok, err, panic, wrapped, message, call_failed, state_already_exists, reboot_required,
}
use cos_tools.Text.{Bytes}
use cos_tools.Os.{Os}
use cos_tools.Os.Action.{Action, and_then, beside, wrap_action}
use cos_tools.Os.Reboot.{IsCalm, NoReboot, and_then-IsCalm, wrap-IsCalm}
use cos_tools.Provisioner.Types.{Deps, StateData, StepConfig}
use cos_tools.Provisioner.State.{StateJson, load_state}
use cos_tools.Provisioner.Disk.{repartition_boot_disk}
use cos_tools.Provisioner.Setup.{setup}
use cos_tools.Provisioner.Cleanup.{stop_services}
use cos_tools.Provisioner.Steps.{execute_steps}
use cos_tools.Provisioner.Setup.Reboot.{setup-NoReboot}
use cos_tools.Provisioner.Steps.Reboot.{execute_steps-NoReboot, load_state-NoReboot}
use cos_tools.Provisioner.Run.{
  finish_run, run_on_disk, run_state, resume, exit_code, exits, forget_state, resume_command_exit,
}

-- A chain that asks for a reboot stopped in its first part if nothing behind it asks for one.
module _ {W : Type 0} where
  stopped_first :
      (x : Result (Unit {0}) × W) (f : Unit {0} → Action W (Unit {0}))
      → ((u : Unit {0}) (v : W) → IsCalm (f u v).0)
      → (and_then x f).0 ≡ err reboot_required
      → and_then x f ≡ x
  stopped_first (ok u, v) f calm e = absurd (calm u v e)
  stopped_first (err x, v) f calm e = refl
  stopped_first (panic, v) f calm e = refl

exit_code-reboot : (r : Result (Unit {0})) → exit_code r ≡ 3 → r ≡ err reboot_required
unfolding exit_code
exit_code-reboot (ok u) e = ground arith
exit_code-reboot (err reboot_required) e = refl
exit_code-reboot (err state_already_exists) e = ground arith
exit_code-reboot (err call_failed) e = ground arith
exit_code-reboot (err message) e = ground arith
exit_code-reboot (err (wrapped x)) e = ground arith
exit_code-reboot panic e = ground arith

from_parts :
    {A D W : Type 0} (x : A × (D × W)) {a : A} {w : W} → x.0 ≡ a → x.1.1 ≡ w → x ≡ (a, (x.1.0, w))
from_parts (r, (d, v)) e h = rw (e, h)

module _ {Args W : Type 0} (json : StateJson Args) (os : Os W) (deps : Deps) (now : W → ℕ)
    {Step : Type 0} (parse_step : StepConfig Args → Result Step)
    (run_step : Step → StateData Args → Action W (Unit {0})) (dir : Bytes) where
  abbrev repartition : Action (StateData Args × W) (Unit {0})
  repartition = repartition_boot_disk os deps json dir now

  finish_run-NoReboot :
      (d : StateData Args) → NoReboot (finish_run json os deps now parse_step run_step dir d)
  unfolding finish_run
  finish_run-NoReboot d w =
      and_then-IsCalm (wrap_action (stop_services os deps) w) _ (wrap-IsCalm _) λ _ v. wrap-IsCalm _

  run_on_disk-NoReboot :
      (d : StateData Args) (w : W)
      → IsCalm (run_on_disk json os deps now parse_step run_step dir (d, w)).0
  unfolding run_on_disk finish_run
  run_on_disk-NoReboot d w =
      and_then-IsCalm (beside d (setup os deps dir w)) _ (setup-NoReboot os deps dir w) λ _ s.
        and_then-IsCalm (execute_steps json os dir parse_step run_step s) _
          (execute_steps-NoReboot json os dir parse_step run_step s)
          λ _ (d', w'). finish_run-NoReboot d' w'

  -- A run that asks for a reboot did nothing behind the disk layout: no set-up, no step, no cleanup.
  pub run_state_reboots :
      (d : StateData Args) (w : W)
      → (run_state json os deps now parse_step run_step dir (d, w)).0 ≡ err reboot_required
      → run_state json os deps now parse_step run_step dir (d, w) ≡ repartition (d, w)
  unfolding run_state
  run_state_reboots d w =
      stopped_first (repartition (d, w)) (λ _. run_on_disk json os deps now parse_step run_step dir)
        (λ u (d', w'). run_on_disk-NoReboot d' w')

  abbrev run_of : StateData Args → W → Result (Unit {0}) × W
  run_of d v =
      forget_state json os deps now parse_step run_step dir
        (run_state json os deps now parse_step run_step dir (d, v))

  abbrev Rebooted : Result (StateData Args) × W → W → Type 0
  Rebooted x w' =
      (d d' : StateData Args) × (v : W) × (x ≡ (ok d, v))
      × (repartition (d, v) ≡ (err reboot_required, (d', w')))

  exits-Rebooted :
      (x : Result (StateData Args) × W) (w' : W)
      → IsCalm x.0
      → exits json os deps now parse_step run_step dir (and_then x run_of) ≡ (3, w')
      → Rebooted x w'
  exits-Rebooted (ok d, v) w' calm e =
      let asked = exit_code-reboot _ (ap (λ x. x.0) e) in
      let same = run_state_reboots d v asked in
      let result = ap (λ x. x.0) (sym same) ∙ asked in
      let system = ap (λ x. x.1.1) (sym same) ∙ ap (λ x. x.1) e in
      (d, (repartition (d, v)).1.0, v, refl, from_parts (repartition (d, v)) result system)
  exits-Rebooted (err x, v) w' calm e =
      let asked = exit_code-reboot (err x) (ap (λ x. x.0) e) in
      let same : x ≡ reboot_required = cc in absurd (calm (ap err same))
  exits-Rebooted (panic, v) w' calm e =
      let unequal : panic ≡ err reboot_required = exit_code-reboot panic (ap (λ x. x.0) e) in cc

  -- `resume` ends with exit code 3 exactly where the state is loaded and the disk layout asks for a
  -- reboot; the system is left as the disk layout left it.
  pub resume_command_exit_reboots :
      (w w' : W)
      → (resume_command_exit json os deps now parse_step run_step dir w ≡ (3, w')) ↔ (
          (d d' : StateData Args) × (v : W) × (load_state json os dir w ≡ (ok d, v))
          × (repartition_boot_disk os deps json dir now (d, v) ≡ (err reboot_required, (d', w'))))
  unfolding resume_command_exit resume run_state exit_code
  resume_command_exit_reboots w w' = (
    exits-Rebooted (load_state json os dir w) w' (load_state-NoReboot json os dir w),
    λ (d, d', v, loads, reboots). rw (loads, reboots),
  )
