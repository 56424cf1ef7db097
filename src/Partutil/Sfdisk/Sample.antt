-- ===== src/Partutil/Sfdisk/Sample.antt =====
-- A disk that is its own partition table: what `sfdisk` documents can be met.
use cos_tools.Base.{[], ◌∷◌, ℕ, ◌<◌, ◌≡◌, ◌≢◌, refl, true, some, Option, if◌then◌else◌}
use cos_tools.Base.Errors.{Result, ok}
use cos_tools.Text.{Bytes, codes, u64_mod, eqb, parse_uint}
use cos_tools.Text.Decimal.{parse_uint-format_uint}
use cos_tools.Os.{command, Os}
use cos_tools.Partutil.Table.{PartContent, handle_partition_table, read_part}
use cos_tools.Partutil.Table.Lines.{IsName}
use cos_tools.Partutil.Table.ReadBack.{handle_partition_table_changes}
use cos_tools.Partutil.Table.Total.{handle_partition_table_total, read_part-Fits}
use cos_tools.Partutil.Commands.{part_name_of}
use cos_tools.Partutil.Sfdisk.{IsPart, Sfdisk}

abbrev table_of : Bytes → Result (Bytes × PartContent) → Bytes
table_of old (ok (t, _)) = t
table_of old _ = old

abbrev restarted : ℕ → PartContent → PartContent
restarted d p = record p { start = d }

unfoldable pub move_in : Bytes → Result Bytes → ℕ → Bytes
move_in table (ok name) d = table_of table (handle_partition_table table name true (restarted d))
move_in table _ d = table

abbrev move_parsed : Bytes → Bytes → Option ℕ → Option ℕ → Bytes
move_parsed disk table (some n) (some d) = move_in table (part_name_of disk n) d
move_parsed disk table _ _ = table

-- `sfdisk` by its arguments: a dump, a script or a move; any other command does nothing.
unfoldable pub table_os : Os Bytes
unfolding eqb
table_os (command (sudo ∷ tool ∷ option ∷ disk ∷ []) stdin) table =
    if eqb option (codes "--dump")
    then (some table, table)
    else if eqb option (codes "--no-reread")
    then (some [], stdin)
    else (some [], table)
table_os (command (sudo ∷ tool ∷ option ∷ move ∷ disk ∷ flag ∷ num ∷ []) stdin) table =
    (some [], move_parsed disk table (parse_uint num) (parse_uint stdin))
table_os _ table = (some [], table)

pub read_part-move_in :
    (disk : Bytes) (n d : ℕ) (t name : Bytes) (p : PartContent)
    → IsPart disk n name
    → d < u64_mod
    → p.size < u64_mod
    → read_part t name ≡ ok p
    → (read_part (move_in t (part_name_of disk n) d) name ≡ ok (record p { start = d }))
      × ((other : Bytes)
          → IsName other
          → other ≢ name
          → read_part (move_in t (part_name_of disk n) d) other ≡ read_part t other)
unfolding move_in
read_part-move_in disk n d t name p v fits fits' h =
    let (t', e) = handle_partition_table_total name (restarted d) t p h in
    let (_, now, others) =
      handle_partition_table_changes v.is_name (restarted d) t t' p e (fits, fits') in
    rw (v.named, e) (now, others)

unfoldable pub sample_Sfdisk : (disk : Bytes) → Sfdisk table_os disk
unfolding table_os
sample_Sfdisk disk = record {
  table = λ t. t;
  written = λ t w. t;
  moved = λ n d w. move_in w (part_name_of disk n) d;
  checked = λ name w. w;
  resized = λ name w. w;
  dump_lem = λ w. refl;
  write_lem = λ t w. refl;
  move_lem =
      λ n d w n_fits d_fits. rw (parse_uint-format_uint n n_fits, parse_uint-format_uint d d_fits);
  check_lem = λ name w. refl;
  resize_lem = λ name w. refl;
  table-checked = λ name w. refl;
  table-resized = λ name w. refl;
  read_part-written = λ t w name. refl;
  read_part-moved = λ n d w name p v fits h.
      (read_part-move_in disk n d w name p v fits (read_part-Fits w name p h).1 h).0;
  read_part-moved_other = λ n d w name p other v fits h o ne.
      (read_part-move_in disk n d w name p v fits (read_part-Fits w name p h).1 h).1 other o ne;
}
