-- ===== src/Os/Action.antt =====
-- Go functions with effects: a state goes in, a result and the next state come out.
use cos_tools.Base.{Bool, true, false, List, [], ◌∷◌, Option, none, some}
use cos_tools.Base.Errors.{Result, ok, err, panic, call_failed, wrap}
use cos_tools.Text.{Bytes}
use cos_tools.Os.{Call, Os, open_file, create_file, copy_content, close_file}

abbrev pub Action : Type 0 → Type 0 → Type 0
Action W A = W → Result A × W

abbrev pub and_then : {W A B : Type 0} → Result A × W → (A → Action W B) → Result B × W
and_then (ok a, w) f = f a w
and_then (err e, w) f = (err e, w)
and_then (panic, w) f = (panic, w)

infixl 5 ◌>>=◌ ◌>>◌
abbrev pub ◌>>=◌ : {W A B : Type 0} → Action W A → (A → Action W B) → Action W B
◌>>=◌ m f w = and_then (m w) f

abbrev pub ◌>>◌ : {W B : Type 0} → Action W (Unit {0}) → Action W B → Action W B
m >> k = m >>= λ _. k

abbrev pub pure : {W A : Type 0} → A → Action W A
pure a w = (ok a, w)

-- A function without effects.
abbrev pub lift : {W A : Type 0} → Result A → Action W A
lift r w = (r, w)

abbrev pub wrap_first : {W A : Type 0} → Result A × W → Result A × W
wrap_first (r, w) = (wrap r, w)

-- `if err != nil { return fmt.Errorf("...: %v", err) }` behind a call
abbrev pub wrap_action : {W A : Type 0} → Action W A → Action W A
wrap_action m w = wrap_first (m w)

abbrev pub run_later : {W A B : Type 0} → Action W B → Result A × W → Result A × W
run_later later (r, w) = (r, (later w).1)

-- A `defer` of a call whose result is dropped: it runs however the rest ends.
abbrev pub deferring : {W A B : Type 0} → Action W B → Action W A → Action W A
deferring later m w = run_later later (m w)

-- What is done if a condition holds.
abbrev pub when : {W : Type 0} → Bool → Action W (Unit {0}) → Action W (Unit {0})
when true m = m
when false m = pure tt

abbrev pub answered : {W : Type 0} → Option Bytes × W → Result Bytes × W
answered (none, w) = (err call_failed, w)
answered (some out, w) = (ok out, w)

-- A call whose error is returned as it is.
abbrev pub ask : {W : Type 0} → Os W → Call → Action W Bytes
ask os c w = answered (os c w)

-- The same where the answer is not looked at.
abbrev pub order : {W : Type 0} → Os W → Call → Action W (Unit {0})
order os c = ask os c >>= λ _. pure tt

-- A state beside the system's: what a function keeps in a variable that it changes.
abbrev pub beside : {D W A : Type 0} → D → Result A × W → Result A × (D × W)
beside d (r, w) = (r, (d, w))

abbrev pub on_system : {D W A : Type 0} → (D → Action W A) → Action (D × W) A
on_system m (d, w) = beside d (m d w)

abbrev pub assign : {D W : Type 0} → (D → D) → Action (D × W) (Unit {0})
assign f (d, w) = (ok tt, (f d, w))

abbrev pub fetch : {D W : Type 0} → Action (D × W) D
fetch (d, w) = (ok d, (d, w))

-- `for _, x := range xs { if err := body(x); err != nil { return err } }`
unfoldable pub for_each : {W A : Type 0} → (A → Action W (Unit {0})) → List A → Action W (Unit {0})
for_each body [] = pure tt
for_each body (x ∷ xs) = body x >> for_each body xs

-- Whether a call succeeds; its error is dropped.
abbrev pub succeeded : {W : Type 0} → Option Bytes × W → Result Bool × W
succeeded (none, w) = (ok false, w)
succeeded (some _, w) = (ok true, w)

abbrev pub succeeds : {W : Type 0} → Os W → Call → Action W Bool
succeeds os c w = succeeded (os c w)

-- `utils.CopyFile`; the deferred second `Close` of a file changes nothing.
unfoldable pub copy_file : {W : Type 0} → Os W → Bytes → Bytes → Action W (Unit {0})
copy_file os from to = do
  wrap_action (order os (open_file from))
  deferring (order os (close_file from)) (do
    wrap_action (order os (create_file to))
    deferring (order os (close_file to)) (do
      wrap_action (order os (copy_content from to))
      wrap_action (order os (close_file from))
      wrap_action (order os (close_file to))))
