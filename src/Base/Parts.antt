-- ===== src/Base/Parts.antt =====
-- Parts of lists: what `take` and `drop` cut from a list that is put together, and which of two
-- lists an index falls into.
use Prim.Native.Nat.{ℕ, zero, suc, ◌+◌, ◌-◌, ◌≤◌, ◌<◌}
use mathlib.Core.Path.{◌≡◌, refl, ap}
use mathlib.Core.Logic.{◌⊎◌, inl, inr}
use mathlib.Core.List.{List, [], ◌∷◌, ◌++◌}
use mathlib.Core.Option.{some}
use native.Mathlib.Omega.{arith}
use cos_tools.Base.Lists.{length, get_elem?, take, drop, All}

module _ {A : Type 0} where
  pub drop-append : (n : ℕ) (xs ys : List A) → n ≤ length xs → drop n (xs ++ ys) ≡ drop n xs ++ ys
  drop-append zero xs ys h = refl
  drop-append (suc n) [] ys h = absurd (omega (arith, h))
  drop-append (suc n) (x ∷ xs) ys h = drop-append n xs ys (omega (arith, h))

  pub length-drop : (n : ℕ) (xs : List A) → length (drop n xs) ≡ length xs - n
  length-drop zero xs = omega arith
  length-drop (suc n) [] = omega arith
  length-drop (suc n) (x ∷ xs) = omega (arith, length-drop n xs)

  pub take-append : (xs ys : List A) (n : ℕ) → take (length xs + n) (xs ++ ys) ≡ xs ++ take n ys
  take-append [] ys n = let same : 0 + n ≡ n = omega arith in rw same refl
  take-append (x ∷ xs) ys n =
      let shift : suc (length xs) + n ≡ suc (length xs + n) = omega arith in
      rw shift (ap (λ t. x ∷ t) (take-append xs ys n))

  pub take-length : (xs ys : List A) → take (length xs) (xs ++ ys) ≡ xs
  take-length [] ys = refl
  take-length (x ∷ xs) ys = ap (λ t. x ∷ t) (take-length xs ys)

  pub drop-length : (xs ys : List A) → drop (length xs) (xs ++ ys) ≡ ys
  drop-length [] ys = refl
  drop-length (x ∷ xs) ys = drop-length xs ys

module _ {A : Type 0} (P Q : A → Type 0) where
  pub index_either :
      (xs ys : List A)
      → All P xs
      → All Q ys
      → (i : ℕ) → i < length (xs ++ ys)
      → (a : A) × (get_elem? (xs ++ ys) i ≡ some a)
        × ((i < length xs × P a) ⊎ (length xs ≤ i × Q a))
  index_either [] [] hp hq i h = absurd (omega (arith, h))
  index_either [] (y ∷ ys) hp (qy, hq) zero h = (y, refl, inr (omega arith, qy))
  index_either [] (y ∷ ys) hp (qy, hq) (suc i) h =
      let (a, e, side) = index_either [] ys tt hq i (omega (arith, h)) in
      elim side [
        | inl (lt, p) ↦ absurd (omega (arith, lt))
        | inr (le, q) ↦ (a, e, inr (omega arith, q))
      ]
  index_either (x ∷ xs) ys (px, hp) hq zero h = (x, refl, inl (omega arith, px))
  index_either (x ∷ xs) ys (px, hp) hq (suc i) h =
      let (a, e, side) = index_either xs ys hp hq i (omega (arith, h)) in
      elim side [
        | inl (lt, p) ↦ (a, e, inl (omega (arith, lt), p))
        | inr (le, q) ↦ (a, e, inr (omega (arith, le), q))
      ]

  pub All-imp : ((a : A) → P a → Q a) → (xs : List A) → All P xs → All Q xs
  All-imp f [] h = tt
  All-imp f (x ∷ xs) (px, h) = (f x px, All-imp f xs h)
