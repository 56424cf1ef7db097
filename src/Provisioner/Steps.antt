-- ===== src/Provisioner/Steps.antt =====
-- Running the steps of a configuration (function executeSteps of pkg/provisioner/provisioner.go).
pub mod Skip
pub mod Resume
pub mod Reboot
use cos_tools.Base.{ℕ, zero, suc, ◌+◌, List, [], ◌∷◌, ltb, if◌then◌else◌}
use cos_tools.Base.Errors.{Result}
use cos_tools.Text.{Bytes}
use cos_tools.Os.{Os}
use cos_tools.Os.Action.{Action, ◌>>=◌, ◌>>◌, pure, lift, wrap_action, on_system, assign, fetch}
use cos_tools.Provisioner.Types.{StepConfig, StateData}
use cos_tools.Provisioner.State.{StateJson, write_state}

-- `s.data.CurrentStep++`
abbrev pub advance : {Args : Type 0} → StateData Args → StateData Args
advance d = record d { current_step = d.current_step + 1 }

module _ {Args W : Type 0} (json : StateJson Args) (os : Os W) (dir : Bytes) where
  -- What follows a step that ended well.
  abbrev pub finish_step : Action (StateData Args × W) (Unit {0})
  finish_step = assign advance >> on_system (write_state json os dir)

-- A step is what parsing makes of its configuration; running it reads the state and does not
-- change it.
module _ {Args W : Type 0} (json : StateJson Args) (os : Os W) (dir : Bytes) {Step : Type 0}
    (parse_step : StepConfig Args → Result Step)
    (run_step : Step → StateData Args → Action W (Unit {0})) where
  abbrev pub run_parsed : Step → Action (StateData Args × W) (Unit {0})
  run_parsed step = wrap_action (on_system (run_step step)) >> finish_step json os dir

  -- The body of the loop at a step that is not skipped.
  unfoldable pub execute_step : StepConfig Args → Action (StateData Args × W) (Unit {0})
  execute_step c = wrap_action (lift (parse_step c)) >>= run_parsed

  -- The loop from index `i` on.
  unfoldable pub steps_from : ℕ → List (StepConfig Args) → Action (StateData Args × W) (Unit {0})
  steps_from i [] = pure tt
  steps_from i (c ∷ cs) =
      let rest = steps_from (suc i) cs in
      do d ← fetch; if ltb i d.current_step then rest else (execute_step c >> rest)

  unfoldable pub execute_steps : Action (StateData Args × W) (Unit {0})
  execute_steps = do d ← fetch; steps_from 0 d.config.steps
