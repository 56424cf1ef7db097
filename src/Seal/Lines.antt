-- ===== src/Seal/Lines.antt =====
-- The version that is kept from line to line (pkg/tools/seal_oem_partition.go).
use cos_tools.Base.{ℕ, Bool, true, none, some, [], ◌∷◌, ◌++◌, ◌≡◌, arith}
use cos_tools.Base.Errors.{ok}
use cos_tools.Text.{Bytes, index, join}
use cos_tools.Seal.{without_quote, old_point, new_point, add_entry, dm_line, dm_lines}

abbrev pub new_format : Bytes → Bytes → Bytes
new_format entry line = without_quote line ++ (b';' ∷ entry)

module _ (entry_v0 entry_v1 : Bytes) where
  dm_line_new :
      (version : Bool) (line : Bytes) (i : ℕ)
      → index old_point line ≡ none
      → index new_point line ≡ some i
      → dm_line entry_v0 entry_v1 version line ≡ ok (new_format entry_v1 line, true)
  unfolding dm_line add_entry join
  dm_line_new version line i old new = ground (arith, old, new)

  dm_line_later :
      (line : Bytes) (i : ℕ)
      → index old_point line ≡ some i
      → dm_line entry_v0 entry_v1 true line ≡ ok (new_format entry_v1 line, true)
  unfolding dm_line add_entry join
  dm_line_later line i old = ground (arith, old)

  -- Of two lines, the first with a `dm-mod.create=` and no `dm=`, the second with a `dm=`, both get
  -- an entry of the format that belongs to `dm-mod.create=`.
  pub dm_lines_mixes :
      (version : Bool) (line later : Bytes) (i j : ℕ)
      → index old_point line ≡ none
      → index new_point line ≡ some i
      → index old_point later ≡ some j
      → dm_lines entry_v0 entry_v1 version (line ∷ later ∷ [])
        ≡ ok (new_format entry_v1 line ∷ new_format entry_v1 later ∷ [])
  unfolding dm_lines
  dm_lines_mixes version line later i j old new behind =
      rw (dm_line_new version line i old new, dm_line_later later j behind)
