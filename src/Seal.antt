-- ===== src/Seal.antt =====
-- Adding a dm-verity entry to the kernel command lines (function appendDMEntryToGRUB of
-- pkg/tools/seal_oem_partition.go). A rune is a byte here: the lines are ASCII text.
pub mod Lines
mod Tests
use cos_tools.Base.{
  ℕ, ◌+◌, ◌*◌, ◌%◌, Bool, true, false, Option, none, some, List, [], ◌∷◌, ◌++◌, get_elem?, set,
}
use cos_tools.Base.Errors.{Result, ok, or_panic, ◌>>=◌}
use cos_tools.Text.{Bytes, codes, u64_mod, split, join, index, format_uint}
use cos_tools.Os.{Os, read_file, write_file}
use cos_tools.Os.Action.{Action, and_then, wrap_action, lift, ask, order}
use cos_tools.Partutil.Size.{all_but_last}

abbrev pub size_in_sectors : ℕ → ℕ
size_in_sectors oem_fs_size_4k = oem_fs_size_4k * 8 % u64_mod

abbrev pub entry_string_v0 : Bytes → Bytes → Bytes → Bytes → ℕ → Bytes
entry_string_v0 name part_uuid hash salt size =
    name
    ++ codes " none ro 1, 0 "
    ++ format_uint (size_in_sectors size)
    ++ codes " verity payload=PARTUUID="
    ++ part_uuid
    ++ codes " hashtree=PARTUUID="
    ++ part_uuid
    ++ codes " hashstart="
    ++ format_uint (size_in_sectors size)
    ++ codes " alg=sha256 root_hexdigest="
    ++ hash
    ++ codes " salt="
    ++ salt
    ++ codes "\""

abbrev pub entry_string_v1 : Bytes → Bytes → Bytes → Bytes → ℕ → Bytes
entry_string_v1 name part_uuid hash salt size =
    name
    ++ codes ",,,ro,0 "
    ++ format_uint (size_in_sectors size)
    ++ codes " verity 0 PARTUUID="
    ++ part_uuid
    ++ codes " PARTUUID="
    ++ part_uuid
    ++ codes " 4096 4096 "
    ++ format_uint size
    ++ codes " "
    ++ format_uint size
    ++ codes " sha256 "
    ++ hash
    ++ codes " "
    ++ salt
    ++ codes "\""

abbrev pub old_point : Bytes
old_point = codes "dm="

abbrev pub new_point : Bytes
new_point = codes "dm-mod.create="

-- `line[:len(line)-1]`; a line that is cut has a `dm=` or a `dm-mod.create=`.
abbrev pub without_quote : Bytes → Bytes
without_quote [] = []
without_quote (c ∷ line) = all_but_last c line

module _ (entry_v0 entry_v1 : Bytes) where
  -- A line with an entry added, at the version `dmVersion`: 1 is `true`.
  unfoldable pub add_entry : Bool → Bytes → ℕ → Result (Bytes × Bool)
  add_entry false line start_pos = do
    let line_buf = without_quote line
    digit ← or_panic (get_elem? line_buf (start_pos + 4))
    ok (join (split (set line_buf (start_pos + 4) b'2') b',' ++ (entry_v0 ∷ [])) b',', false)
  add_entry true line start_pos = ok (join (without_quote line ∷ entry_v1 ∷ []) b';', true)

  -- The loop body: the line, and the version that the next line begins with.
  unfoldable pub dm_line : Bool → Bytes → Result (Bytes × Bool)
  dm_line version line = elim (index old_point line) [
    | some start_pos ↦ add_entry version line start_pos
    | none ↦ elim (index new_point line) [
      | some start_pos ↦ add_entry true line start_pos
      | none ↦ ok (line, version)
    ]
  ]

  unfoldable pub dm_lines : Bool → List Bytes → Result (List Bytes)
  dm_lines version [] = ok []
  dm_lines version (line ∷ lines) = do
    (new_line, next_version) ← dm_line version line
    new_lines ← dm_lines next_version lines
    ok (new_line ∷ new_lines)

module _ {W : Type 0} (os : Os W) where
  unfoldable pub append_dm_entry_to_grub :
      (grub_path name part_uuid hash salt : Bytes) → ℕ → Action W (Unit {0})
  append_dm_entry_to_grub grub_path name part_uuid hash salt size w =
      and_then (wrap_action (ask os (read_file grub_path)) w) λ content v.
        and_then
          (lift
            (dm_lines (entry_string_v0 name part_uuid hash salt size)
              (entry_string_v1 name part_uuid hash salt size) false (split content b'\n'))
            v)
          λ lines. wrap_action (order os (write_file grub_path (join lines b'\n')))
