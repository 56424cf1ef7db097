-- ===== src/Seal/Tests.antt =====
-- Two kernel command lines of different formats.
use cos_tools.Base.{false, [], ◌∷◌, ◌≡◌, refl}
use cos_tools.Base.Errors.{ok}
use cos_tools.Text.{codes, split, join, index, has_prefix}
use cos_tools.Partutil.Size.{all_but_last}
use cos_tools.Seal.{add_entry, dm_line, dm_lines}
use cos_tools.Seal.Lines.{new_format, dm_lines_mixes}

old_line_run :
    dm_lines (codes "E0\"") (codes "E1\"") false (codes "set x" ∷ codes "k dm=\"1 v\"" ∷ [])
    ≡ ok (codes "set x" ∷ codes "k dm=\"2 v,E0\"" ∷ [])
unfolding dm_lines dm_line add_entry split join index has_prefix all_but_last
old_line_run = refl

dm_lines_mixes_example :
    dm_lines
      (codes "E0\"")
      (codes "E1\"")
      false
      (codes "k dm-mod.create=\"v\"" ∷ codes "k dm=\"1 v\"" ∷ [])
    ≡ ok (
        new_format (codes "E1\"") (codes "k dm-mod.create=\"v\"")
        ∷ new_format (codes "E1\"") (codes "k dm=\"1 v\"")
        ∷ [])
unfolding index has_prefix
dm_lines_mixes_example =
    dm_lines_mixes (codes "E0\"") (codes "E1\"") false (codes "k dm-mod.create=\"v\"")
      (codes "k dm=\"1 v\"") 2 2 refl refl refl
