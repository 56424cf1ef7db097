-- ===== src/Changelog/Sysctl/Report.antt =====
-- The report of GetSysctlDiff from the files of two builds.
use cos_tools.Base.{
  zero, true, false, ◌&&◌, Option, none, some, List, [], ◌∷◌, ◌++◌, ◌≡◌, refl, sym, subst, ◌∙◌,
  Bool-cases, inl, inr, arith,
}
use cos_tools.Text.{Bytes, eqb, split, split_by}
use cos_tools.Text.Equal.{eqb-eq-true, eqb_refl}
use cos_tools.Maps.{Table, IsMap, lookup, store, lookup-store_other}
use cos_tools.Changelog.Sysctl.{
  separator, is_among, sysctl_filter, value_of, add_parts, add_lines, read_sysctl, Storage,
  fetch_sysctl_to_map, Change, changed, removed, is_less, insert, sort_changes, is_found,
  diff_tables, Build, sysctl_path, get_sysctl_diff,
}
use cos_tools.Changelog.Sysctl.Diff.{row_of, lookup-diff}

eqb-flip : (j k : Bytes) → eqb j k ≡ false → eqb k j ≡ false
eqb-flip j k h = elim (Bool-cases (eqb k j)) [
  | inl same ↦
      let equal = eqb-eq-true k j same in
      absurd (ground (arith, h, subst (λ t. eqb j t ≡ true) (sym equal) (eqb_refl j)))
  | inr other ↦ other
]

store-IsMap : (k v : Bytes) (m : Table Bytes) → IsMap m → IsMap (store k v m)
unfolding store lookup
store-IsMap k v [] h = (refl, tt)
store-IsMap k v ((j, u) ∷ m) (fresh, h) = elim (Bool-cases (eqb j k)) [
  | inl e ↦ rw e (subst (λ t. lookup t m ≡ none) (eqb-eq-true j k e) fresh, h)
  | inr e ↦ rw e (lookup-store_other k j v m (eqb-flip j k e) ∙ fresh, store-IsMap k v m h)
]

add_parts-IsMap : (parts : List Bytes) (m : Table Bytes) → IsMap m → IsMap (add_parts parts m)
unfolding add_parts
add_parts-IsMap [] m h = h
add_parts-IsMap (name ∷ parts) m h = elim (Bool-cases (is_among name sysctl_filter)) [
  | inl e ↦ rw e h
  | inr e ↦ rw e (store-IsMap name (value_of parts) m h)
]

add_lines-IsMap : (lines : List Bytes) (m : Table Bytes) → IsMap m → IsMap (add_lines lines m)
unfolding add_lines
add_lines-IsMap [] m h = h
add_lines-IsMap (line ∷ lines) m h =
    add_lines-IsMap lines (add_parts (split_by separator zero line) m)
      (add_parts-IsMap (split_by separator zero line) m h)

read_sysctl-IsMap : (content : Option Bytes) → IsMap (read_sysctl content)
read_sysctl-IsMap none = tt
read_sysctl-IsMap (some content) = add_lines-IsMap (split content 10) [] tt

fetch-IsMap : (storage : Storage) (path : Bytes) → IsMap (fetch_sysctl_to_map storage path)
unfolding fetch_sysctl_to_map
fetch-IsMap storage path = read_sysctl-IsMap (storage path)

-- The values of a build.
abbrev pub values : Storage → Bytes → Build → Table Bytes
values storage bucket b = fetch_sysctl_to_map storage (sysctl_path bucket b)

pub lookup-get_sysctl_diff :
    (storage : Storage) (bucket : Bytes) (source target : Build)
    → is_found (values storage bucket source) && is_found (values storage bucket target) ≡ true
    → (name : Bytes)
    → lookup name (get_sysctl_diff (some storage) bucket source target).0
      ≡ row_of
          (lookup name (values storage bucket source))
          (lookup name (values storage bucket target))
unfolding get_sysctl_diff diff_tables
lookup-get_sysctl_diff storage bucket source target found name = rw found (
    lookup-diff (values storage bucket source) (values storage bucket target)
      (fetch-IsMap storage (sysctl_path bucket target)) name)

-- No row's name is less than that of the row before it.
abbrev pub Follows : Change → List Change → Type 0
Follows c [] = Unit
Follows c (d ∷ changes) = is_less d.0 c.0 ≡ false

abbrev pub IsSorted : List Change → Type 0
IsSorted [] = Unit
IsSorted (c ∷ changes) = Follows c changes × IsSorted changes

is_less_asym : (s t : Bytes) → is_less s t ≡ true → is_less t s ≡ false
unfolding is_less
is_less_asym [] [] h = refl
is_less_asym [] (d ∷ t) h = refl
is_less_asym (c ∷ s) [] h = cc
is_less_asym (c ∷ s) (d ∷ t) h = elim (Bool-cases (is_less s t)) [
  | inl e ↦ ground (arith, h, e, is_less_asym s t e)
  | inr e ↦ ground (arith, h, e)
]

insert-Follows :
    (x y : Change) (changes : List Change)
    → Follows y changes
    → is_less x.0 y.0 ≡ false
    → Follows y (insert x changes)
unfolding insert
insert-Follows x y [] h less = less
insert-Follows x y (d ∷ changes) h less = elim (Bool-cases (is_less d.0 x.0)) [
  | inl e ↦ rw e h
  | inr e ↦ rw e less
]

insert-IsSorted :
    (x : Change) (changes : List Change) → IsSorted changes → IsSorted (insert x changes)
unfolding insert
insert-IsSorted x [] h = (tt, tt)
insert-IsSorted x (y ∷ changes) (follows, h) = elim (Bool-cases (is_less y.0 x.0)) [
  | inl e ↦
      rw e
        (insert-Follows x y changes follows (is_less_asym y.0 x.0 e), insert-IsSorted x changes h)
  | inr e ↦ rw e (e, (follows, h))
]

sort_changes-IsSorted : (changes : List Change) → IsSorted (sort_changes changes)
unfolding sort_changes
sort_changes-IsSorted [] = tt
sort_changes-IsSorted (c ∷ changes) =
    insert-IsSorted c (sort_changes changes) (sort_changes-IsSorted changes)

pub get_sysctl_diff-IsSorted :
    (storage : Option Storage) (bucket : Bytes) (source target : Build)
    → IsSorted (get_sysctl_diff storage bucket source target).0
unfolding get_sysctl_diff diff_tables
get_sysctl_diff-IsSorted none bucket source target = tt
get_sysctl_diff-IsSorted (some storage) bucket source target =
    diff_tables-IsSorted (fetch_sysctl_to_map storage (sysctl_path bucket source))
      (fetch_sysctl_to_map storage (sysctl_path bucket target))
  where
    diff_tables-IsSorted : (s t : Table Bytes) → IsSorted (diff_tables s t).0
    diff_tables-IsSorted s t = elim (Bool-cases (is_found s && is_found t)) [
      | inl e ↦ rw e (sort_changes-IsSorted (changed s t ++ removed t s))
      | inr e ↦ rw e tt
    ]
