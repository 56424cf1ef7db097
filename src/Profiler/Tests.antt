-- ===== src/Profiler/Tests.antt =====
-- The readers of the node profiler at concrete inputs.
use cos_tools.Base.{List, [], ◌∷◌, ◌≡◌, refl}
use cos_tools.Base.Outcome.{panic, done}
use cos_tools.Text.{
  Bytes, codes, eqb, is_space, split, split_by, has_prefix, join, trim_left, trim_right, trim_space,
}
use cos_tools.Maps.{lookup, store}
use cos_tools.Profiler.Fields.{fields, trim_left_of, trim_right_of}
use cos_tools.Profiler.Columns.{column_indices, add_values, add_row, add_rows, parse_columns}
use cos_tools.Profiler.Columns.Safe.{IsSafe, parse_columns-IsSafe}
use cos_tools.Profiler.Rows.{read_rows, pick_rows, parse_rows}
use cos_tools.Profiler.Grid.{
  map_titles, map_lines, read_lines, pick_cells, pick_all, parse_rows_and_columns,
}

abbrev titles : List Bytes
titles = codes "r" ∷ codes "b" ∷ codes "us" ∷ []

abbrev vmstat : List Bytes
vmstat = codes " r  b us" ∷ codes " 5  0 12" ∷ [] ∷ codes " 1  2 13" ∷ []

parse_columns-IsSafe_example : IsSafe (parse_columns titles vmstat (codes "us" ∷ []))
parse_columns-IsSafe_example = parse_columns-IsSafe titles vmstat (codes "us" ∷ [])

us_column :
    parse_columns titles vmstat (codes "us" ∷ [])
    ≡ done ((codes "us", (codes "12" ∷ codes "13" ∷ [])) ∷ [])
unfolding parse_columns add_rows add_row add_values column_indices fields lookup store eqb
    trim_space trim_left trim_right is_space
us_column = refl

lscpu_row :
    parse_rows (codes "CPU(s):   8" ∷ []) (codes ":") (codes "CPU(s)" ∷ [])
    ≡ done ((codes "CPU(s)", (codes "8" ∷ [])) ∷ [])
unfolding parse_rows pick_rows read_rows split_by fields lookup store eqb trim_space trim_left
    trim_right is_space has_prefix join
lscpu_row = refl

abbrev free : List Bytes
free = codes "      total  used" ∷ codes "Mem:  14520    13" ∷ []

used_cell :
    parse_rows_and_columns free (codes "Mem:used" ∷ [])
    ≡ done ((codes "Mem:used", (codes "13" ∷ [])) ∷ [])
unfolding parse_rows_and_columns map_titles read_lines map_lines pick_all pick_cells column_indices
    fields lookup store eqb is_space split trim_left_of trim_right_of
used_cell = refl

-- A row that is not there.
missing_row : parse_rows_and_columns free (codes "Swap:used" ∷ []) ≡ panic
unfolding parse_rows_and_columns map_titles read_lines map_lines pick_all pick_cells column_indices
    fields lookup store eqb is_space split trim_left_of trim_right_of
missing_row = refl
