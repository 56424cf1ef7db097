-- ===== src/Changelog/Sysctl/Diff.antt =====
-- The rows of the differences: for each name the two values, where they differ, in the order of the
-- names.
use cos_tools.Base.{
  true, false, Option, none, some, List, [], ◌∷◌, ◌++◌, ◌≡◌, refl, sym, subst, ap, ◌∙◌, Bool-cases,
  Option-cases, inl, inr, arith, if◌then◌else◌,
}
use mathlib.Core.Option.{some-injective}
use cos_tools.Text.{Bytes, codes, eqb}
use cos_tools.Text.Equal.{eqb-eq-true, eqb_refl}
use cos_tools.Maps.{Table, IsMap, lookup}
use cos_tools.Changelog.Sysctl.{
  no_value, Change, change_of, changed, removal_of, removed, is_less, insert, sort_changes,
}

-- The row that two values call for.
abbrev pub row_of : Option Bytes → Option Bytes → Option (Bytes × Bytes)
row_of none none = none
row_of none (some new_value) = some (codes "---", new_value)
row_of (some old_value) none = some (old_value, codes "---")
row_of (some old_value) (some new_value) =
    if eqb old_value new_value then none else some (old_value, new_value)

abbrev pub first_of : {A : Type 0} → Option A → Option A → Option A
first_of none o = o
first_of (some a) o = some a

lookup-append :
    {V : Type 0} (k : Bytes) (m n : Table V)
    → lookup k (m ++ n) ≡ first_of (lookup k m) (lookup k n)
unfolding lookup
lookup-append k [] n = refl
lookup-append k ((j, v) ∷ m) n = elim (Bool-cases (eqb j k)) [
  | inl e ↦ rw e refl
  | inr e ↦ rw e (lookup-append k m n)
]

-- The order is strict.
is_less_irrefl : (s : Bytes) → is_less s s ≡ false
unfolding is_less
is_less_irrefl [] = refl
is_less_irrefl (c ∷ s) = ground (arith, is_less_irrefl s)

-- A name that is less than another is not that name.
less-ne : (m n k : Bytes) → is_less m n ≡ true → eqb m k ≡ true → eqb n k ≡ false
less-ne m n k less same = elim (Bool-cases (eqb n k)) [
  | inl both ↦
      let equal : m ≡ n = eqb-eq-true m k same ∙ sym (eqb-eq-true n k both) in
      let never : is_less n n ≡ true = subst (λ t. is_less t n ≡ true) equal less in
      absurd (ground (arith, never, is_less_irrefl n))
  | inr other ↦ other
]

lookup-insert :
    (k : Bytes) (change : Change) (changes : List Change)
    → lookup k (insert change changes) ≡ lookup k (change ∷ changes)
unfolding lookup insert
lookup-insert k change [] = refl
lookup-insert k (n, v) ((m, w) ∷ changes) = elim (Bool-cases (is_less m n)) [
  | inl less ↦ elim (Bool-cases (eqb m k)) [
    | inl here ↦ rw (less, here, less-ne m n k less here) refl
    | inr other ↦ rw (less, other) (lookup-insert k (n, v) changes)
  ]
  | inr not_less ↦ rw not_less refl
]

lookup-sort_changes :
    (k : Bytes) (changes : List Change) → lookup k (sort_changes changes) ≡ lookup k changes
unfolding sort_changes lookup
lookup-sort_changes k [] = refl
lookup-sort_changes k (change ∷ changes) =
    lookup-insert k change (sort_changes changes)
    ∙ ap (λ rest. if eqb change.0 k then some change.1 else rest) (lookup-sort_changes k changes)

lookup_cons_none :
    {V : Type 0} (n k : Bytes) (v : V) (m : Table V)
    → lookup k ((n, v) ∷ m) ≡ none
    → (eqb n k ≡ false) × (lookup k m ≡ none)
unfolding lookup
lookup_cons_none n k v m h = elim (Bool-cases (eqb n k)) [
  | inl e ↦ let bad = subst (λ b. (if b then some v else lookup k m) ≡ none) e h in cc
  | inr e ↦ (e, subst (λ b. (if b then some v else lookup k m) ≡ none) e h)
]

lookup_here :
    {V : Type 0} (n k : Bytes) (v : V) (m : Table V)
    → eqb n k ≡ true
    → lookup k ((n, v) ∷ m) ≡ some v
unfolding lookup
lookup_here n k v m e = rw e refl

lookup_there :
    {V : Type 0} (n k : Bytes) (v : V) (m : Table V)
    → eqb n k ≡ false
    → lookup k ((n, v) ∷ m) ≡ lookup k m
unfolding lookup
lookup_there n k v m e = rw e refl

change_of_self :
    (k v : Bytes) (old : Option Bytes) → lookup k (change_of k v old) ≡ row_of old (some v)
unfolding lookup
change_of_self k v none = rw (eqb_refl k) refl
change_of_self k v (some old) = elim (Bool-cases (eqb old v)) [
  | inl e ↦ rw e refl
  | inr e ↦ rw (e, eqb_refl k) refl
]

change_of_other :
    (n k v : Bytes) (old : Option Bytes) → eqb n k ≡ false → lookup k (change_of n v old) ≡ none
unfolding lookup
change_of_other n k v none h = rw h refl
change_of_other n k v (some old) h = elim (Bool-cases (eqb old v)) [
  | inl e ↦ rw e refl
  | inr e ↦ rw (e, h) refl
]

removal_of_other :
    (n k v : Bytes) (new : Option Bytes) → eqb n k ≡ false → lookup k (removal_of n v new) ≡ none
unfolding lookup
removal_of_other n k v none h = rw h refl
removal_of_other n k v (some new) h = refl

pub first_of-none : {A : Type 0} (o : Option A) → first_of o none ≡ o
first_of-none none = refl
first_of-none (some a) = refl

module _ (source : Table Bytes) where
  lookup-changed_absent :
      (k : Bytes) (target : Table Bytes)
      → lookup k target ≡ none
      → lookup k (changed source target) ≡ none
  unfolding changed lookup
  lookup-changed_absent k [] h = refl
  lookup-changed_absent k ((n, v) ∷ target) h =
      let (e, rest) = lookup_cons_none n k v target h in
      lookup-append k (change_of n v (lookup n source)) (changed source target)
      ∙ rw (change_of_other n k v (lookup n source) e) (lookup-changed_absent k target rest)

  lookup-changed_there :
      (k v : Bytes) (target : Table Bytes)
      → IsMap target
      → lookup k target ≡ some v
      → lookup k (changed source target) ≡ row_of (lookup k source) (some v)
  unfolding changed lookup
  lookup-changed_there k v [] once h = cc
  lookup-changed_there k v ((n, w) ∷ target) (fresh, once) h = elim (Bool-cases (eqb n k)) [
    | inl e ↦
        let name : n ≡ k = eqb-eq-true n k e in
        let value : some w ≡ some v = sym (lookup_here n k w target e) ∙ h in
        let none_left : lookup k (changed source target) ≡ none =
          lookup-changed_absent k target (subst (λ t. lookup t target ≡ none) name fresh) in
        lookup-append k (change_of n w (lookup n source)) (changed source target)
        ∙ rw (name, none_left, change_of_self k w (lookup k source)) (first_of-none _)
        ∙ ap (row_of (lookup k source)) value
    | inr e ↦
        lookup-append k (change_of n w (lookup n source)) (changed source target)
        ∙ rw (change_of_other n k w (lookup n source) e)
            (lookup-changed_there k v target once (sym (lookup_there n k w target e) ∙ h))
  ]

module _ (target : Table Bytes) where
  lookup-removed_absent :
      (k : Bytes) (source : Table Bytes)
      → lookup k source ≡ none
      → lookup k (removed target source) ≡ none
  unfolding removed lookup
  lookup-removed_absent k [] h = refl
  lookup-removed_absent k ((n, v) ∷ source) h =
      let (e, rest) = lookup_cons_none n k v source h in
      lookup-append k (removal_of n v (lookup n target)) (removed target source)
      ∙ rw (removal_of_other n k v (lookup n target) e) (lookup-removed_absent k source rest)

  lookup-removed_kept :
      (k v : Bytes) (source : Table Bytes)
      → lookup k target ≡ some v
      → lookup k (removed target source) ≡ none
  unfolding removed lookup
  lookup-removed_kept k v [] h = refl
  lookup-removed_kept k v ((n, w) ∷ source) h =
      lookup-append k (removal_of n w (lookup n target)) (removed target source)
      ∙ elim (Bool-cases (eqb n k)) [
        | inl e ↦ rw (eqb-eq-true n k e, h) (lookup-removed_kept k v source h)
        | inr e ↦ rw (removal_of_other n k w (lookup n target) e) (lookup-removed_kept k v source h)
      ]

  lookup-removed_there :
      (k v : Bytes) (source : Table Bytes)
      → lookup k target ≡ none
      → lookup k source ≡ some v
      → lookup k (removed target source) ≡ some (v, no_value)
  unfolding removed lookup
  lookup-removed_there k v [] gone h = cc
  lookup-removed_there k v ((n, w) ∷ source) gone h = elim (Bool-cases (eqb n k)) [
    | inl e ↦
        let value : w ≡ v = some-injective _ _ (sym (lookup_here n k w source e) ∙ h) in
        lookup-append k (removal_of n w (lookup n target)) (removed target source)
        ∙ rw (eqb-eq-true n k e, gone, value, eqb_refl k) refl
    | inr e ↦
        lookup-append k (removal_of n w (lookup n target)) (removed target source)
        ∙ rw (removal_of_other n k w (lookup n target) e)
            (lookup-removed_there k v source gone (sym (lookup_there n k w source e) ∙ h))
  ]

module _ (source target : Table Bytes) where
  -- What a name has among the rows.
  pub lookup-diff :
      IsMap target
      → (k : Bytes)
      → lookup k (sort_changes (changed source target ++ removed target source))
        ≡ row_of (lookup k source) (lookup k target)
  lookup-diff once k =
      lookup-sort_changes k (changed source target ++ removed target source)
      ∙ lookup-append k (changed source target) (removed target source)
      ∙ elim (Option-cases (lookup k target)) [
        | inr (v, here) ↦
            rw
              (
                here,
                lookup-changed_there source k v target once here,
                lookup-removed_kept target k v source here,
              )
              (first_of-none _)
        | inl gone ↦ elim (Option-cases (lookup k source)) [
          | inr (u, there) ↦
              rw
                (
                  gone,
                  there,
                  lookup-changed_absent source k target gone,
                  lookup-removed_there target k u source gone there,
                )
                refl
          | inl nowhere ↦
              rw
                (
                  gone,
                  nowhere,
                  lookup-changed_absent source k target gone,
                  lookup-removed_absent target k source nowhere,
                )
                refl
        ]
      ]
