-- ===== src/Text/Equal.antt =====
-- Equality of strings.
use cos_tools.Base.{Bool, true, false, [], ◌∷◌, ◌≡◌, ◌≢◌, refl, ap, ◌&&◌, ◌==◌, arith}
use cos_tools.Text.{Bytes, eqb}

pub eqb-eq-true : (s t : Bytes) → eqb s t ≡ true → s ≡ t
unfolding eqb
eqb-eq-true [] [] e = refl
eqb-eq-true [] (b ∷ t) e = cc
eqb-eq-true (a ∷ s) [] e = cc
eqb-eq-true (a ∷ s) (b ∷ t) e =
    let (first, rest) = both (a == b) (eqb s t) e in
    let same : a ≡ b = ground arith in rw same (ap (λ r. b ∷ r) (eqb-eq-true s t rest))
  where
    both : (x y : Bool) → x && y ≡ true → (x ≡ true) × (y ≡ true)
    both true y e = (refl, e)
    both false y e = cc

pub eqb_refl : (s : Bytes) → eqb s s ≡ true
unfolding eqb
eqb_refl [] = refl
eqb_refl (a ∷ s) = ground (arith, eqb_refl s)

pub eqb-eq-false : (s t : Bytes) → s ≢ t → eqb s t ≡ false
eqb-eq-false s t ne = by_test (eqb s t) (eqb-eq-true s t)
  where
    by_test : (b : Bool) → (b ≡ true → s ≡ t) → b ≡ false
    by_test true h = absurd (ne (h refl))
    by_test false h = refl
