-- ===== src/Provisioner/Steps/Skip.antt =====
-- Which steps a run executes (function executeSteps of pkg/provisioner/provisioner.go).
use cos_tools.Base.{
  ℕ, zero, suc, ◌+◌, ◌≤◌, List, [], ◌∷◌, length, drop, ◌≡◌, refl, ◌∙◌, ap, sym, subst, arith, ltb,
  true, false,
}
use cos_tools.Base.Errors.{Result, ok, err, panic}
use cos_tools.Text.{Bytes}
use cos_tools.Os.{Os}
use cos_tools.Os.Action.{Action, and_then, wrap_first, beside, for_each}
use cos_tools.Provisioner.Types.{StepConfig, StateData}
use cos_tools.Provisioner.State.{StateJson}
use cos_tools.Provisioner.Steps.{
  advance, finish_step, run_parsed, execute_step, steps_from, execute_steps,
}

module _ {Args W : Type 0} where
  -- How one step can end, from a state that it found.
  pub data Stepped (d : StateData Args) : Result (Unit {0}) × (StateData Args × W) → Type 0 where
    completed : (w : W) → Stepped d (ok tt, (record d { current_step = d.current_step + 1 }, w))
    unsaved :
        (e : _) (w : W) → Stepped d (err e, (record d { current_step = d.current_step + 1 }, w))
    unsaved_panic : (w : W) → Stepped d (panic, (record d { current_step = d.current_step + 1 }, w))
    failed : (e : _) (w : W) → Stepped d (err e, (d, w))
    panicked : (w : W) → Stepped d (panic, (d, w))

  -- What runs behind a step runs only if it was completed.
  step_then :
      {d : StateData Args} {x : Result (Unit {0}) × (StateData Args × W)}
      (f g : Action (StateData Args × W) (Unit {0}))
      → Stepped d x
      → ((v : W) → f (advance d, v) ≡ g (advance d, v))
      → and_then x (λ _. f) ≡ and_then x (λ _. g)
  step_then f g (completed v) same = same v
  step_then f g (unsaved e v) same = refl
  step_then f g (unsaved_panic v) same = refl
  step_then f g (failed e v) same = refl
  step_then f g (panicked v) same = refl

module _ {Args : Type 0} (d : StateData Args) where
  count_none : d ≡ record d { current_step = d.current_step + 0 }
  count_none = ap (λ n. record d { current_step = n }) (omega arith)

  count_more :
      (n : ℕ)
      → record d { current_step = d.current_step + 1 + n }
        ≡ record d { current_step = d.current_step + suc n }
  count_more n = ap (λ k. record d { current_step = k }) (omega arith)

module _ {Args W : Type 0} where
  -- How far a run of some steps came: `n` of them are counted.
  abbrev pub Counted :
      StateData Args
      → Result (Unit {0}) × (StateData Args × W)
      → List (StepConfig Args)
      → ℕ
      → Type 0
  Counted d x cs n =
      (x.1.0 ≡ record d { current_step = d.current_step + n })
      × (n ≤ length cs)
      × (x.0 ≡ ok tt → n ≡ length cs)

module _ {Args W : Type 0} (json : StateJson Args) (os : Os W) (dir : Bytes) {Step : Type 0}
    (parse_step : StepConfig Args → Result Step)
    (run_step : Step → StateData Args → Action W (Unit {0})) where
  abbrev pub step_of : StepConfig Args → Action (StateData Args × W) (Unit {0})
  step_of = execute_step json os dir parse_step run_step

  execute_step-Stepped :
      (c : StepConfig Args) (d : StateData Args) (w : W) → Stepped d (step_of c (d, w))
  unfolding execute_step
  execute_step-Stepped c d w = parsed (parse_step c)
    where
      saved : (r : Result (Unit {0}) × W) → Stepped d (beside (advance d) r)
      saved (ok u, v) = completed v
      saved (err e, v) = unsaved e v
      saved (panic, v) = unsaved_panic v

      ran :
          (r : Result (Unit {0}) × W)
          → Stepped d (and_then (wrap_first (beside d r)) λ _. finish_step json os dir)
      ran (ok u, v) = saved _
      ran (err e, v) = failed _ v
      ran (panic, v) = panicked v

      parsed :
          (r : Result Step)
          → Stepped d
              (and_then (wrap_first (r, (d, w))) (run_parsed json os dir parse_step run_step))
      parsed (ok s) = ran _
      parsed (err e) = failed _ w
      parsed panic = panicked w

  -- The loop with no step to skip.
  abbrev pub run_all : List (StepConfig Args) → Action (StateData Args × W) (Unit {0})
  run_all = for_each step_of

  abbrev loop_from : ℕ → List (StepConfig Args) → Action (StateData Args × W) (Unit {0})
  loop_from = steps_from json os dir parse_step run_step

  -- Once no step is skipped, none is skipped later.
  steps_from_all :
      (cs : List (StepConfig Args)) (i : ℕ) (d : StateData Args) (w : W)
      → d.current_step ≤ i
      → loop_from i cs (d, w) ≡ run_all cs (d, w)
  unfolding steps_from for_each
  steps_from_all [] i d w h = refl
  steps_from_all (c ∷ cs) i d w h =
      let not_skipped : ltb i d.current_step ≡ false = ground arith in
      let same =
        step_then (loop_from (suc i) cs) (run_all cs) (execute_step-Stepped c d w)
          (λ v. steps_from_all cs (suc i) (advance d) v (omega (arith, h))) in
      rw (not_skipped, same)

  steps_from_skips :
      (j : ℕ) (cs : List (StepConfig Args)) (i : ℕ) (d : StateData Args) (w : W)
      → d.current_step ≡ i + j
      → loop_from i cs (d, w) ≡ run_all (drop j cs) (d, w)
  unfolding steps_from for_each
  steps_from_skips zero cs i d w h = steps_from_all cs i d w (omega (arith, h))
  steps_from_skips (suc j) [] i d w h = refl
  steps_from_skips (suc j) (c ∷ cs) i d w h =
      let skipped : ltb i d.current_step ≡ true = ground arith in
      rw (skipped, steps_from_skips j cs (suc i) d w (omega (arith, h)))

  -- A run executes the steps behind the ones that the state counts as completed, in their order,
  -- each until it fails.
  pub execute_steps_skips :
      (d : StateData Args) (w : W)
      → execute_steps json os dir parse_step run_step (d, w)
        ≡ for_each
            (execute_step json os dir parse_step run_step)
            (drop d.current_step d.config.steps)
            (d, w)
  unfolding execute_steps
  execute_steps_skips d w = steps_from_skips d.current_step d.config.steps 0 d w (omega arith)

  run_all-Counted :
      (cs : List (StepConfig Args)) (d : StateData Args) (w : W)
      → (n : ℕ) × Counted d (run_all cs (d, w)) cs n
  unfolding for_each
  run_all-Counted [] d w = (0, (count_none d, omega arith, λ e. refl))
  run_all-Counted (c ∷ cs) d w =
      after (step_of c (d, w)) (execute_step-Stepped c d w) (run_all-Counted cs (advance d))
    where
      after :
          (x : Result (Unit {0}) × (StateData Args × W))
          → Stepped d x
          → ((v : W) → (n : ℕ) × Counted (advance d) (run_all cs (advance d, v)) cs n)
          → (n : ℕ) × Counted d (and_then x (λ _. run_all cs)) (c ∷ cs) n
      after _ (completed v) rest =
          let (n, (eq, bound, ended)) = rest v in
          (suc n, (eq ∙ count_more d n, omega (arith, bound), λ h. ap suc (ended h)))
      after _ (unsaved e v) rest = (1, (refl, omega arith, λ h. cc))
      after _ (unsaved_panic v) rest = (1, (refl, omega arith, λ h. cc))
      after _ (failed e v) rest = (0, (count_none d, omega arith, λ h. cc))
      after _ (panicked v) rest = (0, (count_none d, omega arith, λ h. cc))

  -- A run changes only the count of the completed steps: it grows by at most the number of the
  -- steps that are left, and by just that number when the run ends well.
  pub execute_steps_counts :
      (d : StateData Args) (w : W)
      → (n : ℕ) × Counted d
          (execute_steps json os dir parse_step run_step (d, w))
          (drop d.current_step d.config.steps)
          n
  execute_steps_counts d w =
      subst (λ x. (n : ℕ) × Counted d x (drop d.current_step d.config.steps) n)
        (sym (execute_steps_skips d w)) (run_all-Counted (drop d.current_step d.config.steps) d w)
