-- ===== src/Profiler/Grid.antt =====
-- Reading cells by row and column (function ParseRowsAndColumns of
-- pkg/nodeprofiler/utils/parsing.go).
use cos_tools.Base.{ℕ, Bool, true, ◌||◌, List, [], ◌∷◌, ◌++◌, get_elem?, ◌==◌, if◌then◌else◌}
use cos_tools.Base.Outcome.{Outcome, fail, done, ◌>>=◌, or_panic}
use cos_tools.Text.{Bytes, split}
use cos_tools.Maps.{Table, or_zero, lookup, store}
use cos_tools.Profiler.Fields.{fields, trim}
use cos_tools.Profiler.Columns.{
  ParseError, bad_title, not_empty, or_none, append_to, column_indices,
}

abbrev pub add_title :
    Bytes → List Bytes → Table (List Bytes) → Outcome ParseError (Table (List Bytes))
add_title title (row ∷ column ∷ []) titles_map = done (append_to row column titles_map)
add_title title _ titles_map = fail (bad_title title)

unfoldable pub map_titles :
    List Bytes → Table (List Bytes) → Outcome ParseError (Table (List Bytes))
map_titles [] titles_map = done titles_map
map_titles (title ∷ titles) titles_map = do
  next ← add_title title (split (trim b':' title) b':') titles_map
  map_titles titles next

-- Whether the first part of the line, split by `\s*`, is empty: the line starts with a blank.
abbrev pub starts_blank : Bytes → Bool
starts_blank [] = true
starts_blank (c ∷ line) = c == b' ' || c == 9 || c == 10 || c == 12 || c == 13

-- The fields of a line behind the first one.
abbrev pub add_fields : List Bytes → Table (List Bytes) → Table (List Bytes)
add_fields [] rows = rows
add_fields (title ∷ tokens) rows = store (trim b':' title) tokens rows

unfoldable pub map_lines : List Bytes → Table (List Bytes) → Table (List Bytes)
map_lines [] rows = rows
map_lines (line ∷ lines) rows = map_lines lines (add_fields (fields line) rows)

-- The first line: the indices of the columns, unless it is empty.
abbrev pub header_columns : Bytes → List Bytes → Outcome ParseError (Table ℕ)
header_columns line [] = done []
header_columns line (token ∷ tokens) =
    if starts_blank line then done (column_indices 0 (token ∷ tokens) []) else fail (not_empty line)

unfoldable pub read_lines : List Bytes → Outcome ParseError (Table ℕ × Table (List Bytes))
read_lines [] = done ([], [])
read_lines (line ∷ lines) = do
  columns ← header_columns line (fields line)
  done (columns, map_lines lines [])

module _ (columns : Table ℕ) (row : Bytes) (values : List Bytes) where
  -- A title that is no column has the index 0; an index behind the values panics.
  unfoldable pub pick_cells :
      List Bytes → Table (List Bytes) → Outcome ParseError (Table (List Bytes))
  pick_cells [] parsed_output = done parsed_output
  pick_cells (column ∷ column_titles) parsed_output = do
    value ← or_panic (get_elem? values (or_zero (lookup column columns)))
    pick_cells column_titles (append_to (row ++ (b':' ∷ column)) value parsed_output)

module _ (columns : Table ℕ) (rows : Table (List Bytes)) where
  unfoldable pub pick_all :
      Table (List Bytes) → Table (List Bytes) → Outcome ParseError (Table (List Bytes))
  pick_all [] parsed_output = done parsed_output
  pick_all ((row, column_titles) ∷ titles_map) parsed_output = do
    next ← pick_cells columns row (or_none (lookup row rows)) column_titles parsed_output
    pick_all titles_map next

unfoldable pub parse_rows_and_columns :
    List Bytes → List Bytes → Outcome ParseError (Table (List Bytes))
parse_rows_and_columns lines titles = do
  titles_map ← map_titles titles []
  read ← read_lines lines
  pick_all read.0 read.1 titles_map []
