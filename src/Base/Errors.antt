-- ===== src/Base/Errors.antt =====
-- What a Go function returns besides its value. Error texts are not kept: an error is what callers
-- can tell apart.
use mathlib.Core.Path.{◌≡◌, refl}
use mathlib.Core.Option.{Option, none, some}
use mathlib.Core.Bool.{Bool, true, false}

pub data Error : Type 0 where
  -- the sentinel `provisioner.ErrRebootRequired`
  reboot_required : Error
  -- the sentinel `errStateAlreadyExists`
  state_already_exists : Error
  -- what a call into the system returned: a command's exit status, a file error
  call_failed : Error
  -- `fmt.Errorf` or `errors.New` with no error inside
  message : Error
  -- `fmt.Errorf` with `%v` of another error, which `errors.Is` does not look through
  wrapped : Error → Error

-- A function panics on an index out of range, returns an error, or returns a value.
pub data Result (A : Type 0) : Type 0 where
  panic : Result A
  err : Error → Result A
  ok : A → Result A

module _ {A : Type 0} where
  -- `if err != nil { return fmt.Errorf("...: %v", err) }`
  abbrev pub wrap : Result A → Result A
  wrap panic = panic
  wrap (err e) = err (wrapped e)
  wrap (ok a) = ok a

  -- An index expression.
  abbrev pub or_panic : Option A → Result A
  or_panic (some a) = ok a
  or_panic none = panic

  -- A library call that may fail.
  abbrev pub or_fail : Option A → Result A
  or_fail (some a) = ok a
  or_fail none = err message

infixl 5 ◌>>=◌ ◌>>◌
abbrev pub ◌>>=◌ : {A B : Type 0} → Result A → (A → Result B) → Result B
◌>>=◌ panic rest = panic
◌>>=◌ (err e) rest = err e
◌>>=◌ (ok a) rest = rest a

abbrev pub ◌>>◌ : {B : Type 0} → Result (Unit {0}) → Result B → Result B
◌>>◌ first rest = first >>= λ _. rest

-- `if bad { return fmt.Errorf(...) }`
abbrev pub refuse_if : Bool → Result (Unit {0})
refuse_if true = err message
refuse_if false = ok tt

-- A sequence that ends well began well.
module _ {A B : Type 0} (rest : A → Result B) {b : B} where
  pub ok_of_bind :
      (first : Result A) → (first >>= rest) ≡ ok b → (a : A) × (first ≡ ok a) × (rest a ≡ ok b)
  ok_of_bind (ok a) ends = (a, refl, ends)
  ok_of_bind (err e) ends = cc
  ok_of_bind panic ends = cc

module _ {A : Type 0} {a : A} where
  pub or_panic-eq-ok : (o : Option A) → or_panic o ≡ ok a → o ≡ some a
  or_panic-eq-ok (some x) h = cc
  or_panic-eq-ok none h = cc

  pub or_fail-eq-ok : (o : Option A) → or_fail o ≡ ok a → o ≡ some a
  or_fail-eq-ok (some x) h = cc
  or_fail-eq-ok none h = cc
