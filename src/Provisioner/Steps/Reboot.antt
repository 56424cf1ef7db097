-- ===== src/Provisioner/Steps/Reboot.antt =====
-- Neither the state nor the steps ask for a reboot (pkg/provisioner/state.go, provisioner.go).
use cos_tools.Base.{arith, Bool, true, false, sym, subst, drop, if◌then◌else◌}
use cos_tools.Base.Errors.{Result, ok, err, panic, state_already_exists}
use cos_tools.Text.{Bytes}
use cos_tools.Os.{Os, mkdir_all}
use cos_tools.Os.Action.{Action, and_then, wrap_first, beside, wrap_action, lift, order}
use cos_tools.Os.Reboot.{
  IsCalm, NoReboot, and_then-IsCalm, wrap-IsCalm, succeeds-NoReboot, for_each-NoReboot,
}
use cos_tools.Provisioner.Types.{Config, Deps, StateData, StepConfig}
use cos_tools.Provisioner.State.{
  StateJson, write_state, read_state, load_state, store_first, init_state,
}
use cos_tools.Provisioner.Steps.{advance, finish_step, run_parsed, execute_step, execute_steps}
use cos_tools.Provisioner.Steps.Skip.{execute_steps_skips}

module _ {Args W : Type 0} (json : StateJson Args) (os : Os W) (dir : Bytes) where
  write_state-NoReboot : (d : StateData Args) → NoReboot (write_state json os dir d)
  unfolding write_state
  write_state-NoReboot d w = λ e. ground arith

  pub load_state-NoReboot : NoReboot (load_state json os dir)
  unfolding load_state read_state
  load_state-NoReboot w = λ e. ground arith

  store-NoReboot : (deps : Deps) (c : Config Args) → NoReboot (store_first json os deps dir c)
  unfolding store_first
  store-NoReboot deps c w =
      and_then-IsCalm (wrap_action (order os (mkdir_all dir)) w) _ (wrap-IsCalm _)
        λ _ v1. and_then-IsCalm _ _ (write_state-NoReboot _ v1) λ _ v2 e. ground arith

  pub init_state-NoReboot :
      (deps : Deps) (c : Config Args) → NoReboot (init_state json os deps dir c)
  unfolding init_state
  init_state-NoReboot deps c w = and_then-IsCalm _ _ (succeeds-NoReboot os _ w) stored
    where
      stored :
          (exists : Bool) (v : W)
          → IsCalm
              ((if exists then lift (err state_already_exists) else store_first json os deps dir c)
                v).0
      stored true v = λ e. cc
      stored false v = store-NoReboot deps c v

  module _ {Step : Type 0} (parse_step : StepConfig Args → Result Step)
      (run_step : Step → StateData Args → Action W (Unit {0})) where
    execute_step-NoReboot :
        (c : StepConfig Args) → NoReboot (execute_step json os dir parse_step run_step c)
    unfolding execute_step
    execute_step-NoReboot c (d, w) = parsed (parse_step c)
      where
        finished : (r : Result (Unit {0}) × W) → IsCalm r.0 → IsCalm (beside (advance d) r).0
        finished r calm = calm

        ran :
            (r : Result (Unit {0}) × W)
            → IsCalm (and_then (wrap_first (beside d r)) λ _. finish_step json os dir).0
        ran (ok u, v) =
            finished (write_state json os dir (advance d) v) (write_state-NoReboot (advance d) v)
        ran (err e, v) = wrap-IsCalm (err e)
        ran (panic, v) = wrap-IsCalm panic

        parsed :
            (r : Result Step)
            → IsCalm
                (and_then (wrap_first (r, (d, w))) (run_parsed json os dir parse_step run_step)).0
        parsed (ok s) = ran (run_step s d w)
        parsed (err e) = wrap-IsCalm (err e)
        parsed panic = wrap-IsCalm panic

    pub execute_steps-NoReboot : NoReboot (execute_steps json os dir parse_step run_step)
    execute_steps-NoReboot (d, w) =
        subst (λ x. IsCalm x.0) (sym (execute_steps_skips json os dir parse_step run_step d w))
          (for_each-NoReboot _ (drop d.current_step d.config.steps) execute_step-NoReboot (d, w))
