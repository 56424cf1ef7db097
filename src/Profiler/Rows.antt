-- ===== src/Profiler/Rows.antt =====
-- Reading rows by their titles (function ParseRows of pkg/nodeprofiler/utils/parsing.go), at a
-- delimiter that is not empty.
use cos_tools.Base.{zero, List, [], ◌∷◌}
use cos_tools.Base.Outcome.{Outcome, panic, fail, done, ◌>>=◌, or_else}
use cos_tools.Text.{Bytes, join, split_by, trim_space}
use cos_tools.Maps.{Table, lookup, store}
use cos_tools.Profiler.Fields.{fields}
use cos_tools.Profiler.Columns.{ParseError, not_split, unknown_title}

module _ (delim : Bytes) where
  -- The parts of a line that is not empty; there is one at least.
  abbrev pub add_row_parts :
      (line : Bytes) → List Bytes → Table (List Bytes) → Outcome ParseError (Table (List Bytes))
  add_row_parts line [] rows = panic
  add_row_parts line (part ∷ []) rows = fail (not_split line)
  add_row_parts line (part ∷ next ∷ parts) rows =
      done (store (trim_space part) (fields (join (next ∷ parts) b' ')) rows)

  abbrev pub add_line : Bytes → Table (List Bytes) → Outcome ParseError (Table (List Bytes))
  add_line [] rows = done rows
  add_line (c ∷ line) rows = add_row_parts (c ∷ line) (split_by delim zero (c ∷ line)) rows

  unfoldable pub read_rows :
      List Bytes → Table (List Bytes) → Outcome ParseError (Table (List Bytes))
  read_rows [] rows = done rows
  read_rows (line ∷ lines) rows = do next ← add_line (trim_space line) rows; read_rows lines next

unfoldable pub row_titles : Table (List Bytes) → List Bytes
row_titles [] = []
row_titles ((title, _) ∷ rows) = title ∷ row_titles rows

abbrev pub titles_or_all : Table (List Bytes) → List Bytes → List Bytes
titles_or_all rows [] = row_titles rows
titles_or_all rows (title ∷ titles) = title ∷ titles

unfoldable pub pick_rows :
    Table (List Bytes) → List Bytes → Table (List Bytes) → Outcome ParseError (Table (List Bytes))
pick_rows rows [] parsed_output = done parsed_output
pick_rows rows (title ∷ titles) parsed_output = do
  values ← or_else (unknown_title title) (lookup title rows)
  pick_rows rows titles (store title values parsed_output)

unfoldable pub parse_rows :
    List Bytes → (delim : Bytes) → List Bytes → Outcome ParseError (Table (List Bytes))
parse_rows lines delim titles = do
  rows ← read_rows delim lines []
  pick_rows rows (titles_or_all rows titles) []
