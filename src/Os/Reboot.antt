-- ===== src/Os/Reboot.antt =====
-- Actions that never ask for a reboot: their errors are other errors or wrap one.
use cos_tools.Base.{arith, Bool, true, false, List, [], ◌∷◌, Option, none, some, ◌≢◌}
use cos_tools.Base.Errors.{Result, ok, err, panic, wrap, reboot_required}
use cos_tools.Text.{Bytes}
use cos_tools.Os.{Os, Call}
use cos_tools.Os.Action.{
  Action, and_then, ◌>>=◌, pure, lift, wrap_action, deferring, ask, answered, order, succeeds,
  succeeded, when, for_each, copy_file,
}

abbrev pub IsCalm : {A : Type 0} → Result A → Type 0
IsCalm r = r ≢ err reboot_required

abbrev pub NoReboot : {W A : Type 0} → Action W A → Type 0
NoReboot {W} m = (w : W) → IsCalm (m w).0

pub wrap-IsCalm : {A : Type 0} (r : Result A) → IsCalm (wrap r)
wrap-IsCalm (ok a) = λ e. cc
wrap-IsCalm (err x) = λ e. cc
wrap-IsCalm panic = λ e. cc

module _ {W A : Type 0} where
  pub wrap_action-NoReboot : (m : Action W A) → NoReboot (wrap_action m)
  wrap_action-NoReboot m w = wrap-IsCalm (m w).0

  pub pure-NoReboot : (a : A) → NoReboot {W = W} (pure a)
  pure-NoReboot a w = λ e. cc

  pub lift-NoReboot : (r : Result A) → IsCalm r → NoReboot {W = W} (lift r)
  lift-NoReboot r calm w = calm

module _ {W A B : Type 0} where
  -- The rest of a chain runs only where the part in front ended well.
  pub and_then-IsCalm :
      (x : Result A × W) (f : A → Action W B)
      → IsCalm x.0
      → ((a : A) (v : W) → IsCalm (f a v).0)
      → IsCalm (and_then x f).0
  and_then-IsCalm (ok a, v) f calm rest = rest a v
  and_then-IsCalm (err e, v) f calm rest = λ eq. calm cc
  and_then-IsCalm (panic, v) f calm rest = λ eq. cc

  pub bind-NoReboot :
      (m : Action W A) (f : A → Action W B)
      → NoReboot m
      → ((a : A) → NoReboot (f a))
      → NoReboot (m >>= f)
  bind-NoReboot m f first rest w = calm (m w) (first w)
    where
      calm : (x : Result A × W) → IsCalm x.0 → IsCalm (and_then x f).0
      calm (ok a, v) h = rest a v
      calm (err e, v) h = λ eq. h (cc)
      calm (panic, v) h = λ eq. cc

  pub deferring-NoReboot :
      (later : Action W B) (m : Action W A) → NoReboot m → NoReboot (deferring later m)
  deferring-NoReboot later m calm w = calm w

module _ {W : Type 0} (os : Os W) where
  pub ask-NoReboot : (c : Call) → NoReboot (ask os c)
  ask-NoReboot c w = calm (os c w)
    where
      calm : (x : Option Bytes × W) → IsCalm (answered x).0
      calm (none, v) = λ e. cc
      calm (some t, v) = λ e. cc

  pub succeeds-NoReboot : (c : Call) → NoReboot (succeeds os c)
  succeeds-NoReboot c w = calm (os c w)
    where
      calm : (x : Option Bytes × W) → IsCalm (succeeded x).0
      calm (none, v) = λ e. cc
      calm (some t, v) = λ e. cc

  pub order-NoReboot : (c : Call) → NoReboot (order os c)
  order-NoReboot c = bind-NoReboot (ask os c) _ (ask-NoReboot c) (λ a. pure-NoReboot tt)

module _ {W : Type 0} where
  pub when-NoReboot : (b : Bool) (m : Action W (Unit {0})) → NoReboot m → NoReboot (when b m)
  when-NoReboot true m calm = calm
  when-NoReboot false m calm = pure-NoReboot tt

  pub for_each-NoReboot :
      {A : Type 0} (body : A → Action W (Unit {0})) (xs : List A)
      → ((x : A) → NoReboot (body x))
      → NoReboot (for_each body xs)
  unfolding for_each
  for_each-NoReboot body [] calm = pure-NoReboot tt
  for_each-NoReboot body (x ∷ xs) calm =
      bind-NoReboot (body x) _ (calm x) (λ u. for_each-NoReboot body xs calm)

  pub copy_file-NoReboot : (os : Os W) (from to : Bytes) → NoReboot (copy_file os from to)
  unfolding copy_file
  copy_file-NoReboot os from to w = λ e. ground arith
