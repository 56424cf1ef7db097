-- ===== src/Profiler/Columns/Safe.antt =====
-- ParseColumns never reads behind the end of a row.
use cos_tools.Base.{
  ℕ, zero, suc, ◌+◌, ◌≤◌, ◌<◌, Option, none, some, List, [], ◌∷◌, length, get_elem?, ◌==◌, ◌≡◌,
  refl, sym, subst, ap, ◌∙◌, Bool-cases, Option-cases, inl, inr, arith,
}
use cos_tools.Base.Outcome.{Outcome, stuck, panic, fail, done, ◌>>=◌}
use cos_tools.Text.{Bytes, eqb, trim_space}
use cos_tools.Text.Equal.{eqb-eq-true}
use cos_tools.Maps.{Table, lookup, store, lookup-store_self, lookup-store_other}
use cos_tools.Gob.Commits.{is_blank}
use cos_tools.Profiler.Fields.{fields}
use cos_tools.Profiler.Columns.{
  append_to, column_indices, all_if_none, add_values, add_row, add_rows, parse_columns,
}

-- An error or a result, and no panic.
abbrev pub IsSafe : {E A : Type 0} → Outcome E A → Type 0
IsSafe stuck = ⊥
IsSafe panic = ⊥
IsSafe (fail e) = Unit
IsSafe (done a) = Unit

bind-IsSafe :
    {E A B : Type 0} (o : Outcome E A) (k : A → Outcome E B)
    → IsSafe o
    → ((a : A) → IsSafe (k a))
    → IsSafe (o >>= k)
bind-IsSafe stuck k h f = h
bind-IsSafe panic k h f = h
bind-IsSafe (fail e) k h f = tt
bind-IsSafe (done a) k h f = f a

-- Every index is below a bound.
abbrev IsBelow : ℕ → Option ℕ → Type 0
IsBelow n none = Unit
IsBelow n (some i) = i < n

get_elem?-lt :
    {A : Type 0} (xs : List A) (i : ℕ) → i < length xs → (a : A) × (get_elem? xs i ≡ some a)
get_elem?-lt [] i h = absurd (omega (arith, h))
get_elem?-lt (x ∷ xs) zero h = (x, refl)
get_elem?-lt (x ∷ xs) (suc i) h = get_elem?-lt xs i (omega (arith, h))

store-IsBelow :
    (n i : ℕ) (k l : Bytes) (m : Table ℕ)
    → i < n
    → IsBelow n (lookup l m)
    → IsBelow n (lookup l (store k i m))
store-IsBelow n i k l m hi hm = elim (Bool-cases (eqb k l)) [
  | inl e ↦
      subst (IsBelow n)
        (sym (lookup-store_self k i m) ∙ ap (λ t. lookup t (store k i m)) (eqb-eq-true k l e)) hi
  | inr e ↦ subst (IsBelow n) (sym (lookup-store_other k l i m e)) hm
]

column_indices-IsBelow :
    (n index : ℕ) (titles : List Bytes) (m : Table ℕ) (l : Bytes)
    → index + length titles ≤ n
    → IsBelow n (lookup l m)
    → IsBelow n (lookup l (column_indices index titles m))
unfolding column_indices
column_indices-IsBelow n index [] m l h hm = hm
column_indices-IsBelow n index (t ∷ titles) m l h hm =
    column_indices-IsBelow n (suc index) titles (store t index m) l (omega (arith, h))
      (store-IsBelow n index t l m (omega (arith, h)) hm)

module _ (n : ℕ) (columns : Table ℕ) (below : (l : Bytes) → IsBelow n (lookup l columns)) where
  add_values-IsSafe :
      (tokens want : List Bytes) (out : Table (List Bytes))
      → length tokens ≡ n
      → IsSafe (add_values columns tokens want out)
  unfolding add_values
  add_values-IsSafe tokens [] out h = tt
  add_values-IsSafe tokens (title ∷ want) out h = elim (Option-cases (lookup title columns)) [
    | inl e ↦ rw e tt
    | inr (i, e) ↦
        let inside : i < n = subst (IsBelow n) e (below title) in
        let (value, at) = get_elem?-lt tokens i (omega (arith, inside, h)) in
        rw (e, at) (add_values-IsSafe tokens want (append_to title value out) h)
  ]

  module _ (all_titles : List Bytes) (counted : length all_titles ≡ n) where
    add_row-IsSafe :
        (want : List Bytes) (header row : Bytes) (out : Table (List Bytes))
        → IsSafe (add_row all_titles columns want header row out)
    unfolding add_row
    add_row-IsSafe want header row out = elim (Bool-cases (eqb row header)) [
      | inl e ↦ rw e tt
      | inr e ↦ elim (Bool-cases (length all_titles == length (fields row))) [
        | inl same ↦
            let many : length (fields row) ≡ n = ground (arith, same, counted) in
            rw (e, same) (add_values-IsSafe (fields row) want out many)
        | inr differ ↦ rw (e, differ) tt
      ]
    ]

    add_rows-IsSafe :
        (want : List Bytes) (header : Bytes) (rows : List Bytes) (out : Table (List Bytes))
        → IsSafe (add_rows all_titles columns want header rows out)
    unfolding add_rows
    add_rows-IsSafe want header [] out = tt
    add_rows-IsSafe want header (row ∷ rows) out = elim (Bool-cases (is_blank (trim_space row))) [
      | inl e ↦ rw e (add_rows-IsSafe want header rows out)
      | inr e ↦ rw e (
          bind-IsSafe (add_row all_titles columns want header (trim_space row) out)
            (add_rows all_titles columns want header rows)
            (add_row-IsSafe want header (trim_space row) out) (add_rows-IsSafe want header rows))
    ]

-- Whatever the rows, the titles and the wanted titles are, ParseColumns returns a result or an
-- error and does not panic: it never reads behind the end of a row.
pub parse_columns-IsSafe :
    (all_titles rows want_titles : List Bytes) → IsSafe (parse_columns all_titles rows want_titles)
unfolding parse_columns lookup
parse_columns-IsSafe all_titles [] want = tt
parse_columns-IsSafe all_titles (row ∷ rows) want = elim (Bool-cases (is_blank (trim_space row))) [
  | inl e ↦ rw e (add_rows-IsSafe (length all_titles) [] (λ l. tt) all_titles refl want [] rows [])
  | inr e ↦ rw e (
      add_rows-IsSafe (length all_titles) (column_indices 0 all_titles [])
        (λ l. column_indices-IsBelow (length all_titles) 0 all_titles [] l (omega arith) tt)
        all_titles refl (all_if_none all_titles want) (trim_space row) rows [])
]
