-- ===== src/Maps.antt =====
-- Go maps with string keys, as lists of pairs without an order that is relied on.
use cos_tools.Base.{
  ℕ, false, Option, none, some, List, [], ◌∷◌, ◌≡◌, refl, inl, inr, Bool-cases, if◌then◌else◌,
}
use cos_tools.Text.{Bytes, eqb}
use cos_tools.Text.Equal.{eqb-eq-true, eqb_refl}

abbrev pub Table : Type 0 → Type 0
Table V = List (Bytes × V)

-- A read of a map of numbers.
abbrev pub or_zero : Option ℕ → ℕ
or_zero none = 0
or_zero (some i) = i

module _ {V : Type 0} where
  -- `v, ok := m[k]`
  unfoldable pub lookup : Bytes → Table V → Option V
  lookup k [] = none
  lookup k ((j, v) ∷ m) = let rest = lookup k m in if eqb j k then some v else rest

  -- `m[k] = v`
  unfoldable pub store : Bytes → V → Table V → Table V
  store k v [] = (k, v) ∷ []
  store k v ((j, u) ∷ m) = let rest = store k v m in if eqb j k then (k, v) ∷ m else (j, u) ∷ rest

  pub lookup-store_self : (k : Bytes) (v : V) (m : Table V) → lookup k (store k v m) ≡ some v
  unfolding lookup store
  lookup-store_self k v [] = rw (eqb_refl k) refl
  lookup-store_self k v ((j, u) ∷ m) = elim (Bool-cases (eqb j k)) [
    | inl e ↦ rw (e, eqb_refl k) refl
    | inr e ↦ rw (e, e, lookup-store_self k v m) refl
  ]

  pub lookup-store_other :
      (k l : Bytes) (v : V) (m : Table V) → eqb k l ≡ false → lookup l (store k v m) ≡ lookup l m
  unfolding lookup store
  lookup-store_other k l v [] h = rw h refl
  lookup-store_other k l v ((j, u) ∷ m) h = elim (Bool-cases (eqb j k)) [
    | inl e ↦ let other : eqb j l ≡ false = rw (eqb-eq-true j k e) h in rw (e, h, other) refl
    | inr e ↦ rw (e, lookup-store_other k l v m h) refl
  ]

  -- A map holds a key once.
  abbrev pub IsMap : Table V → Type 0
  IsMap [] = Unit
  IsMap ((k, v) ∷ m) = (lookup k m ≡ none) × IsMap m
