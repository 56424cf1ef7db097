-- ===== src/Base/Outcome.antt =====
-- A function that returns an error of a type of its own. `stuck` marks a loop whose fuel is used up.
use mathlib.Core.Option.{Option, none, some}
use mathlib.Core.Bool.{Bool, true, false}

pub data Outcome (E A : Type 0) : Type 0 where
  stuck : Outcome E A
  panic : Outcome E A
  fail : E → Outcome E A
  done : A → Outcome E A

infixl 5 ◌>>=◌ ◌>>◌
abbrev pub ◌>>=◌ : {E A B : Type 0} → Outcome E A → (A → Outcome E B) → Outcome E B
◌>>=◌ stuck rest = stuck
◌>>=◌ panic rest = panic
◌>>=◌ (fail e) rest = fail e
◌>>=◌ (done a) rest = rest a

abbrev pub ◌>>◌ : {E B : Type 0} → Outcome E (Unit {0}) → Outcome E B → Outcome E B
◌>>◌ first rest = first >>= λ _. rest

-- An error that is replaced by one of another type.
abbrev pub map_fail : {E F A : Type 0} → (E → F) → Outcome E A → Outcome F A
map_fail f stuck = stuck
map_fail f panic = panic
map_fail f (fail e) = fail (f e)
map_fail f (done a) = done a

module _ {E A : Type 0} where
  -- An index expression, or a field of a pointer that may be nil.
  abbrev pub or_panic : Option A → Outcome E A
  or_panic (some a) = done a
  or_panic none = panic

  abbrev pub or_else : E → Option A → Outcome E A
  or_else e (some a) = done a
  or_else e none = fail e

abbrev pub fail_if : {E : Type 0} → Bool → E → Outcome E (Unit {0})
fail_if true e = fail e
fail_if false e = done tt
