-- ===== src/Provisioner/MountOptions.antt =====
-- The options of a mount point (function mountOptions of pkg/provisioner/provisioner.go).
use cos_tools.Base.{none, some, List, [], ◌∷◌, ◌++◌, get_elem?, if◌then◌else◌}
use cos_tools.Base.Errors.{Result, ok, err, panic, message}
use cos_tools.Text.{Bytes, codes, eqb, is_space, split}
use cos_tools.Os.{
  MountFlag, nosuid, nodev, noexec, noatime, nodiratime, relatime, nosymfollow, rdonly,
}

-- The parts that are not empty.
unfoldable pub non_empty : List Bytes → List Bytes
non_empty [] = []
non_empty ([] ∷ ps) = non_empty ps
non_empty ((c ∷ p) ∷ ps) = (c ∷ p) ∷ non_empty ps

-- `strings.Fields` of ASCII text
abbrev pub space_out : Bytes → Bytes
space_out [] = []
space_out (c ∷ s) = (if is_space c then b' ' else c) ∷ space_out s

unfoldable pub fields : Bytes → List Bytes
fields s = non_empty (split (space_out s) b' ')

-- The lines that a scanner finds: no line stands behind the last newline.
unfoldable pub scan_lines : List Bytes → List Bytes
scan_lines [] = []
scan_lines ([] ∷ []) = []
scan_lines (l ∷ ls) = l ∷ scan_lines ls

-- The options in the first line for a mount point; a line of fewer than six fields in front of it
-- is an error.
unfoldable pub find_options : Bytes → List Bytes → Result Bytes
find_options mount_point [] = ok []
find_options mount_point (l ∷ ls) =
    let rest = find_options mount_point ls in
    elim (get_elem? (fields l) 4) [
      | none ↦ err message
      | some point ↦ elim (get_elem? (fields l) 5) [
        | none ↦ err message
        | some options ↦ if eqb point mount_point then ok options else rest
      ]
    ]

unfoldable pub option_flags : Bytes → List MountFlag
option_flags opt =
    if eqb opt (codes "nosuid")
    then nosuid ∷ []
    else if eqb opt (codes "nodev")
    then nodev ∷ []
    else if eqb opt (codes "noexec")
    then noexec ∷ []
    else if eqb opt (codes "noatime")
    then noatime ∷ []
    else if eqb opt (codes "nodiratime")
    then nodiratime ∷ []
    else if eqb opt (codes "relatime")
    then relatime ∷ []
    else if eqb opt (codes "nosymfollow")
    then nosymfollow ∷ []
    else if eqb opt (codes "ro")
    then rdonly ∷ []
    else []

-- A list of flags stands for the flags that are set.
unfoldable pub parse_options : List Bytes → List MountFlag
parse_options [] = []
parse_options (opt ∷ opts) = option_flags opt ++ parse_options opts

-- `opts &^ unix.MS_NOEXEC`
unfoldable pub without_noexec : List MountFlag → List MountFlag
without_noexec [] = []
without_noexec (noexec ∷ fs) = without_noexec fs
without_noexec (f ∷ fs) = f ∷ without_noexec fs

unfoldable pub mount_options_of : Bytes → Bytes → Result (List MountFlag)
mount_options_of text mount_point =
    elim (find_options mount_point (scan_lines (split text b'\n'))) [
      | ok [] ↦ err message
      | ok (c ∷ options) ↦ ok (parse_options (non_empty (split (c ∷ options) b',')))
      | err e ↦ err e
      | panic ↦ panic
    ]
