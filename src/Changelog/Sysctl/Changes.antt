-- ===== src/Changelog/Sysctl/Changes.antt =====
-- The differences that GetSysctlDiff reports, from what the files of two builds record.
use cos_tools.Base.{Bool, true, ◌&&◌, some, [], ◌∷◌, ◌≡◌, refl, ap, ◌∙◌}
use cos_tools.Text.{Bytes, Lacks}
use cos_tools.Maps.{Table, lookup}
use cos_tools.Changelog.Sysctl.{Storage, is_found, diff_tables, Build, sysctl_path, get_sysctl_diff}
use cos_tools.Changelog.Sysctl.Diff.{row_of}
use cos_tools.Changelog.Sysctl.Recorded.{recorded, values-recorded}
use cos_tools.Changelog.Sysctl.Report.{
  values, IsSorted, lookup-get_sysctl_diff, get_sysctl_diff-IsSorted,
}

-- A build has a value.
abbrev pub HasValue : Storage → Bytes → Build → Type 0
HasValue storage bucket b =
    (name value : Bytes) × Lacks b' ' name
    × (recorded name (storage (sysctl_path bucket b)) ≡ some value)

lookup-is_found :
    (name : Bytes) (m : Table Bytes) {value : Bytes}
    → lookup name m ≡ some value
    → is_found m ≡ true
unfolding lookup
lookup-is_found name [] h = cc
lookup-is_found name (e ∷ m) h = refl

HasValue-is_found :
    (storage : Storage) (bucket : Bytes) (b : Build)
    → HasValue storage bucket b
    → is_found (values storage bucket b) ≡ true
HasValue-is_found storage bucket b (name, value, plain, there) =
    lookup-is_found name (values storage bucket b)
      (values-recorded name plain storage bucket b ∙ there)

flags-get_sysctl_diff :
    (storage : Storage) (bucket : Bytes) (source target : Build)
    → is_found (values storage bucket source) && is_found (values storage bucket target) ≡ true
    → (get_sysctl_diff (some storage) bucket source target).1 ≡ (true, true)
unfolding get_sysctl_diff diff_tables
flags-get_sysctl_diff storage bucket source target found = rw found refl

-- Where the files of both builds record a value, both are reported as found, and a name without a
-- space that is not among the insignificant parameters has a row exactly if its value differs
-- between the two files or only one of them has it: the row has the old value and the new one,
-- three dashes standing for a missing one. An insignificant parameter has no row. The value of a
-- name in a file is what stands behind the name and " = " on the last line with that name, three
-- dashes standing for nothing there, and empty where the line is the name alone. No row has a
-- name that is less than that of the row before it.
pub get_sysctl_diff_lem :
    (storage : Storage) (bucket : Bytes) (source target : Build)
    → HasValue storage bucket source
    → HasValue storage bucket target
    → ((name : Bytes)
        → Lacks b' ' name
        → lookup name (get_sysctl_diff (some storage) bucket source target).0
          ≡ row_of
              (recorded name (storage (sysctl_path bucket source)))
              (recorded name (storage (sysctl_path bucket target))))
      × IsSorted (get_sysctl_diff (some storage) bucket source target).0
      × ((get_sysctl_diff (some storage) bucket source target).1 ≡ (true, true))
get_sysctl_diff_lem storage bucket source target old new =
    let found =
      both (HasValue-is_found storage bucket source old)
        (HasValue-is_found storage bucket target new) in
    (
      λ name plain.
          lookup-get_sysctl_diff storage bucket source target found name
          ∙ ap (λ o. row_of o (lookup name (values storage bucket target)))
              (values-recorded name plain storage bucket source)
          ∙ ap (row_of (recorded name (storage (sysctl_path bucket source))))
              (values-recorded name plain storage bucket target),
      get_sysctl_diff-IsSorted (some storage) bucket source target,
      flags-get_sysctl_diff storage bucket source target found,
    )
  where
    both : {a b : Bool} → a ≡ true → b ≡ true → a && b ≡ true
    both e f = rw (e, f) refl
