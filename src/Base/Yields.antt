-- ===== src/Base/Yields.antt =====
-- What holds of the error or of the result of a function that does not run out of fuel.
use mathlib.Core.Bool.{Bool, true, false}
use mathlib.Core.Option.{Option, none, some}
use cos_tools.Base.Outcome.{Outcome, panic, fail, done, ◌>>=◌, map_fail, or_panic, or_else, fail_if}

pub data Yields {E A : Type 0} (P : E → Type 0) (Q : A → Type 0) : Outcome E A → Type 0 where
  panics : Yields P Q panic
  fails : {e : E} → P e → Yields P Q (fail e)
  gives : {a : A} → Q a → Yields P Q (done a)

-- The fuel is not used up.
abbrev pub Ends : {E A : Type 0} → Outcome E A → Type 0
Ends = Yields (λ _. Unit) (λ _. Unit)

module _ {E A B : Type 0} {P : E → Type 0} {Q : A → Type 0} {R : B → Type 0} where
  pub Yields-bind :
      {o : Outcome E A} (k : A → Outcome E B)
      → Yields P Q o
      → ((a : A) → Q a → Yields P R (k a))
      → Yields P R (o >>= k)
  Yields-bind k panics f = panics
  Yields-bind k (fails p) f = fails p
  Yields-bind k (gives q) f = f _ q

module _ {E F A : Type 0} {P : E → Type 0} {P' : F → Type 0} {Q Q' : A → Type 0} where
  pub Yields-map_fail :
      (f : E → F) {o : Outcome E A}
      → Yields P Q o
      → ((e : E) → P e → P' (f e))
      → ((a : A) → Q a → Q' a)
      → Yields P' Q' (map_fail f o)
  Yields-map_fail f panics g k = panics
  Yields-map_fail f (fails p) g k = fails (g _ p)
  Yields-map_fail f (gives q) g k = gives (k _ q)

module _ {E A : Type 0} {P : E → Type 0} {Q Q' : A → Type 0} where
  pub Yields-imp : {o : Outcome E A} → Yields P Q o → ((a : A) → Q a → Q' a) → Yields P Q' o
  Yields-imp panics k = panics
  Yields-imp (fails p) k = fails p
  Yields-imp (gives q) k = gives (k _ q)

module _ {E A : Type 0} {P : E → Type 0} where
  pub Yields-or_panic : (o : Option A) → Yields P (λ _. Unit) (or_panic o)
  Yields-or_panic none = panics
  Yields-or_panic (some a) = gives tt

  pub Yields-or_else : (e : E) → P e → (o : Option A) → Yields P (λ _. Unit) (or_else e o)
  Yields-or_else e p none = fails p
  Yields-or_else e p (some a) = gives tt

module _ {E : Type 0} {P : E → Type 0} where
  pub Yields-fail_if : (b : Bool) (e : E) → P e → Yields P (λ _. Unit) (fail_if b e)
  Yields-fail_if true e p = fails p
  Yields-fail_if false e p = gives tt
