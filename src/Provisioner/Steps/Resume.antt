-- ===== src/Provisioner/Steps/Resume.antt =====
-- A run that stops and is resumed from the file that it left (functions executeSteps, state.write
-- and loadState of pkg/provisioner/provisioner.go and state.go).
use cos_tools.Base.{
  zero, suc, ◌≤◌, ◌<◌, length, arith, ℕ, ◌+◌, some, List, [], ◌∷◌, drop, ◌≡◌, refl, sym, ap, ◌∙◌,
  subst,
}
use cos_tools.Base.Errors.{Result, ok, err, panic}
use cos_tools.Text.{Bytes}
use cos_tools.Os.{Os}
use cos_tools.Os.Action.{Action, and_then, wrap_first, beside, for_each}
use cos_tools.Os.Files.{Files}
use cos_tools.Provisioner.Types.{StepConfig, StateData}
use cos_tools.Provisioner.State.{StateJson, data_path, read_state, write_state, load_state}
use cos_tools.Provisioner.Steps.{finish_step, run_parsed, execute_step, execute_steps}
use cos_tools.Provisioner.Steps.Skip.{run_all, execute_steps_skips}

length-drop :
    {A : Type 0} (n : ℕ) (xs : List A) → n ≤ length xs → n + length (drop n xs) ≡ length xs
length-drop zero xs h = omega arith
length-drop (suc n) [] h = omega (arith, h)
length-drop (suc n) (x ∷ xs) h = omega (arith, length-drop n xs (omega (arith, h)))

abbrev pub at_step : {Args : Type 0} → StateData Args → ℕ → StateData Args
at_step d n = record d { current_step = n }

module _ {Args W : Type 0} (json : StateJson Args) {os : Os W} (dir : Bytes)
    (files : Files os (data_path dir)) (d : StateData Args) where
  -- The state file holds the state with so many completed steps.
  abbrev pub Saved : ℕ → W → Type 0
  Saved n w =
      (text : Bytes) × (files.content w ≡ some text) × (json.unmarshal text ≡ some (at_step d n))

  -- What `encoding/json` writes for the states of a run is read back as it was; no run counts more
  -- steps than there are.
  abbrev pub Storable : Type 0
  Storable =
      (n : ℕ)
      → n ≤ length d.config.steps
      → (text : Bytes) × (json.marshal (at_step d n) ≡ some text)
        × (json.unmarshal text ≡ some (at_step d n))

  load_state-Saved : (n : ℕ) (w : W) → Saved n w → load_state json os dir w ≡ (ok (at_step d n), w)
  unfolding load_state read_state
  load_state-Saved n w (text, held, parsed) = rw (files.reads w, held, parsed)

  write_state-Saved :
      Storable
      → (n : ℕ) (w : W) → n ≤ length d.config.steps
      → (w' : W) × (write_state json os dir (at_step d n) w ≡ (ok tt, w')) × Saved n w'
  unfolding write_state
  write_state-Saved storable n w bound =
      let (text, written, parsed) = storable n bound in
      let (w', out, done, held) = files.writes text w in
      (w', rw (written, done), (text, held, parsed))

module _ {Args W : Type 0} (json : StateJson Args) {os : Os W} (dir : Bytes)
    (files : Files os (data_path dir)) {Step : Type 0} (parse_step : StepConfig Args → Result Step)
    (run_step : Step → StateData Args → Action W (Unit {0})) (d : StateData Args) where
  -- No step writes the state file.
  abbrev pub KeepsState : Type 0
  KeepsState =
      (s : Step) (n : ℕ) (w : W) → files.content (run_step s (at_step d n) w).1 ≡ files.content w

  -- The state that a run leaves is the one in the file, and counts at most so many steps.
  abbrev pub EndsSaved : ℕ → Result (Unit {0}) × (StateData Args × W) → Type 0
  EndsSaved most x =
      (n : ℕ) × (w : W) × (x.1 ≡ (at_step d n, w)) × (n ≤ most) × Saved json dir files d n w

  module _ (storable : Storable json dir files d) (keeps : KeepsState) where
    execute_step-EndsSaved :
        (c : StepConfig Args) (n : ℕ) (w : W)
        → n < length d.config.steps
        → Saved json dir files d n w
        → EndsSaved (n + 1) (execute_step json os dir parse_step run_step c (at_step d n, w))
    unfolding execute_step
    execute_step-EndsSaved c n w bound saved = parsed (parse_step c)
      where
        ran :
            (r : Result (Unit {0}) × W)
            → files.content r.1 ≡ files.content w
            → EndsSaved
                (n + 1)
                (and_then (wrap_first (beside (at_step d n) r)) (λ _. finish_step json os dir))
        ran (ok u, v) kept =
            let (w', done, held) =
              write_state-Saved json dir files d storable (n + 1) v (omega (arith, bound)) in
            (n + 1, w', rw done, omega arith, held)
        ran (err e, v) kept = (n, v, refl, omega arith, (saved.0, kept ∙ saved.1, saved.2))
        ran (panic, v) kept = (n, v, refl, omega arith, (saved.0, kept ∙ saved.1, saved.2))

        parsed :
            (r : Result Step)
            → EndsSaved (n + 1) (
                and_then
                  (wrap_first (r, (at_step d n, w)))
                  (run_parsed json os dir parse_step run_step))
        parsed (ok s) = ran (run_step s (at_step d n) w) (keeps s n w)
        parsed (err e) = (n, w, refl, omega arith, saved)
        parsed panic = (n, w, refl, omega arith, saved)

    -- A run goes on behind a step only if it ended well.
    and_then-EndsSaved :
        (few most : ℕ) (x : Result (Unit {0}) × (StateData Args × W))
        (f : Action (StateData Args × W) (Unit {0}))
        → few ≤ most
        → EndsSaved few x
        → ((n : ℕ) (w : W)
            → n ≤ few
            → Saved json dir files d n w
            → EndsSaved most (f (at_step d n, w)))
        → EndsSaved most (and_then x (λ _. f))
    and_then-EndsSaved few most (ok u, s) f le (n, w, eq, bound, saved) rest =
        subst (λ z. EndsSaved most (f z)) (sym eq) (rest n w bound saved)
    and_then-EndsSaved few most (err e, s) f le (n, w, eq, bound, saved) rest =
        (n, w, eq, omega (arith, bound, le), saved)
    and_then-EndsSaved few most (panic, s) f le (n, w, eq, bound, saved) rest =
        (n, w, eq, omega (arith, bound, le), saved)

    run_all-EndsSaved :
        (cs : List (StepConfig Args)) (n : ℕ) (w : W)
        → n + length cs ≤ length d.config.steps
        → Saved json dir files d n w
        → EndsSaved
            (length d.config.steps)
            (run_all json os dir parse_step run_step cs (at_step d n, w))
    unfolding for_each
    run_all-EndsSaved [] n w bound saved = (n, w, refl, omega (arith, bound), saved)
    run_all-EndsSaved (c ∷ cs) n w bound saved =
        and_then-EndsSaved (n + 1) (length d.config.steps)
          (execute_step json os dir parse_step run_step c (at_step d n, w)) _ (omega (arith, bound))
          (execute_step-EndsSaved c n w (omega (arith, bound)) saved)
          (λ m v le. run_all-EndsSaved cs m v (omega (arith, bound, le)))

    -- Where the states of the run are read back as they were written and no step writes their file:
    -- a run from a state that the file holds and that counts no more steps than there are, well or
    -- badly ended, leaves a file from which the state is loaded that the run ended with, and the
    -- next run executes the steps that this state does not count.
    pub execute_steps_resumes :
        (n : ℕ) (w : W)
        → n ≤ length d.config.steps
        → Saved json dir files d n w
        → (m : ℕ) × (w' : W) × ((execute_steps json os dir parse_step run_step (at_step d n, w)).1
            ≡ (at_step d m, w'))
          × (load_state json os dir w' ≡ (ok (at_step d m), w'))
          × (execute_steps json os dir parse_step run_step (at_step d m, w')
              ≡ for_each
                  (execute_step json os dir parse_step run_step)
                  (drop m d.config.steps)
                  (at_step d m, w'))
    execute_steps_resumes n w bound saved =
        let skips = execute_steps_skips json os dir parse_step run_step (at_step d n) w in
        let left = length-drop n d.config.steps bound in
        let (m, w', eq, most, ends) =
          run_all-EndsSaved (drop n d.config.steps) n w (omega (arith, left)) saved in
        (
          m,
          w',
          ap (λ x. x.1) skips ∙ eq,
          load_state-Saved json dir files d m w' ends,
          execute_steps_skips json os dir parse_step run_step (at_step d m) w',
        )
