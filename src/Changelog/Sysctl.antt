-- ===== src/Changelog/Sysctl.antt =====
-- The differences of the kernel parameters of two builds (functions GetSysctlDiff and
-- fetchSysctlToMap of pkg/changelog/changelog.go).
pub mod Diff
pub mod Report
pub mod Parts
pub mod Recorded
pub mod Changes
use cos_tools.Base.{
  ℕ, zero, suc, ◌-◌, Bool, true, false, ◌&&◌, ◌||◌, not, Option, none, some, List, [], ◌∷◌, ◌++◌,
  length, ltb, ◌==◌, if◌then◌else◌,
}
use cos_tools.Text.{Bytes, codes, eqb, split, split_by}
use cos_tools.Changelog.Names.{resolve_image_name}
use cos_tools.Maps.{Table, lookup, store}

-- `strings.Join(parts, sep)`
unfoldable pub join_by : Bytes → List Bytes → Bytes
join_by sep [] = []
join_by sep (p ∷ []) = p
join_by sep (p ∷ q ∷ ps) = p ++ (sep ++ join_by sep (q ∷ ps))

abbrev pub sysctl_filter : List Bytes
sysctl_filter =
    codes "kernel.hostname"
    ∷ codes "kernel.version"
    ∷ codes "fs.dentry-state"
    ∷ codes "fs.file-nr"
    ∷ codes "fs.inode-nr"
    ∷ codes "fs.inode-state"
    ∷ codes "fs.quota.syncs"
    ∷ codes "kernel.ns_last_pid"
    ∷ codes "kernel.pty.nr"
    ∷ codes "kernel.random.boot_id"
    ∷ codes "kernel.random.entropy_avail"
    ∷ codes "kernel.random.uuid"
    ∷ codes "net.netfilter.nf_conntrack_count"
    ∷ codes "kernel.osrelease"
    ∷ codes "net.ipv4.tcp_fastopen_key"
    ∷ []

unfoldable pub is_among : Bytes → List Bytes → Bool
is_among s [] = false
is_among s (t ∷ ts) = eqb s t || is_among s ts

abbrev pub separator : Bytes
separator = codes " = "

abbrev pub no_value : Bytes
no_value = codes "---"

-- The value of the parts behind the name.
abbrev pub value_of : List Bytes → Bytes
value_of ([] ∷ []) = no_value
value_of parts = join_by separator parts

-- A line, in its parts; `strings.Split` returns one part at least.
unfoldable pub add_parts : List Bytes → Table Bytes → Table Bytes
add_parts [] out_map = out_map
add_parts (name ∷ parts) out_map =
    if is_among name sysctl_filter then out_map else store name (value_of parts) out_map

unfoldable pub add_lines : List Bytes → Table Bytes → Table Bytes
add_lines [] out_map = out_map
add_lines (line ∷ lines) out_map =
    add_lines lines (add_parts (split_by separator zero line) out_map)

abbrev pub read_sysctl : Option Bytes → Table Bytes
read_sysctl none = []
read_sysctl (some content) = add_lines (split content 10) []

-- The cloud storage: the content of sysctl_a.txt in a place, or `none` where it cannot be read.
abbrev pub Storage : Type 0
Storage = Bytes → Option Bytes

unfoldable pub fetch_sysctl_to_map : Storage → Bytes → Table Bytes
fetch_sysctl_to_map storage path = read_sysctl (storage path)

-- A row: the name, the old value and the new one.
abbrev pub Change : Type 0
Change = Bytes × (Bytes × Bytes)

abbrev pub change_of : Bytes → Bytes → Option Bytes → List Change
change_of name new_value none = (name, (no_value, new_value)) ∷ []
change_of name new_value (some old_value) =
    if eqb old_value new_value then [] else (name, (old_value, new_value)) ∷ []

module _ (source : Table Bytes) where
  unfoldable pub changed : Table Bytes → List Change
  changed [] = []
  changed ((name, new_value) ∷ target) =
      change_of name new_value (lookup name source) ++ changed target

abbrev pub removal_of : Bytes → Bytes → Option Bytes → List Change
removal_of name old_value none = (name, (old_value, no_value)) ∷ []
removal_of name old_value (some _) = []

module _ (target : Table Bytes) where
  unfoldable pub removed : Table Bytes → List Change
  removed [] = []
  removed ((name, old_value) ∷ source) =
      removal_of name old_value (lookup name target) ++ removed source

-- `<` on strings
unfoldable pub is_less : Bytes → Bytes → Bool
is_less s [] = false
is_less [] (d ∷ t) = true
is_less (c ∷ s) (d ∷ t) = ltb c d || c == d && is_less s t

-- `sort.SliceStable`
unfoldable pub insert : Change → List Change → List Change
insert change [] = change ∷ []
insert change (first ∷ changes) =
    let rest = insert change changes in
    if is_less first.0 change.0 then first ∷ rest else change ∷ first ∷ changes

unfoldable pub sort_changes : List Change → List Change
sort_changes [] = []
sort_changes (change ∷ changes) = insert change (sort_changes changes)

abbrev pub is_found : Table Bytes → Bool
is_found [] = false
is_found (_ ∷ _) = true

unfoldable pub diff_tables : Table Bytes → Table Bytes → List Change × (Bool × Bool)
diff_tables source_sysctl target_sysctl =
    if is_found source_sysctl && is_found target_sysctl
    then (
      sort_changes (changed source_sysctl target_sysctl ++ removed target_sysctl source_sysctl),
      (true, true),
    )
    else ([], (is_found source_sysctl, is_found target_sysctl))

-- The arguments for one of the two builds.
pub record Build : Type 0 where
  pub board : Bytes
  pub milestone : Bytes
  pub build : Bytes

unfoldable pub sysctl_path : Bytes → Build → Bytes
sysctl_path bucket b =
    bucket
    ++ codes "/"
    ++ b.board
    ++ codes "-release/R"
    ++ b.milestone
    ++ codes "-"
    ++ resolve_image_name b.build

-- The changes, and whether the files of the source and of the target were found; `none` where there
-- is no client of the storage.
unfoldable pub get_sysctl_diff :
    Option Storage → Bytes → (source target : Build) → List Change × (Bool × Bool)
get_sysctl_diff none bucket source target = ([], (false, false))
get_sysctl_diff (some storage) bucket source target =
    diff_tables (fetch_sysctl_to_map storage (sysctl_path bucket source))
      (fetch_sysctl_to_map storage (sysctl_path bucket target))
