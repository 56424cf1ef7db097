-- ===== src/Profiler/Columns.antt =====
-- Reading columns by their titles (function ParseColumns of pkg/nodeprofiler/utils/parsing.go).
pub mod Safe
use cos_tools.Base.{
  ℕ, zero, suc, Bool, true, false, Option, none, some, List, [], ◌∷◌, ◌++◌, length, get_elem?, not,
  ◌==◌, if◌then◌else◌,
}
use cos_tools.Base.Outcome.{Outcome, fail, done, ◌>>=◌, ◌>>◌, or_panic, or_else, fail_if}
use cos_tools.Text.{Bytes, eqb, trim_space}
use cos_tools.Maps.{Table, lookup, store}
use cos_tools.Gob.Commits.{is_blank}
use cos_tools.Profiler.Fields.{fields}

-- The errors.
pub data ParseError : Type 0 where
  columns_differ : (header row : Bytes) → ParseError
  unknown_title : Bytes → ParseError
  not_split : Bytes → ParseError
  bad_title : Bytes → ParseError
  not_empty : Bytes → ParseError

abbrev pub or_none : Option (List Bytes) → List Bytes
or_none none = []
or_none (some values) = values

-- `m[k] = append(m[k], v)`
abbrev pub append_to : Bytes → Bytes → Table (List Bytes) → Table (List Bytes)
append_to k v m = store k (or_none (lookup k m) ++ (v ∷ [])) m

-- The index of each title; a later one replaces an earlier one.
unfoldable pub column_indices : ℕ → List Bytes → Table ℕ → Table ℕ
column_indices index [] columns = columns
column_indices index (str ∷ titles) columns =
    column_indices (suc index) titles (store str index columns)

abbrev pub all_if_none : List Bytes → List Bytes → List Bytes
all_if_none all_titles [] = all_titles
all_if_none all_titles (title ∷ want_titles) = title ∷ want_titles

module _ (columns : Table ℕ) (tokens : List Bytes) where
  -- The loop over the wanted titles.
  unfoldable pub add_values :
      List Bytes → Table (List Bytes) → Outcome ParseError (Table (List Bytes))
  add_values [] parsed_output = done parsed_output
  add_values (title ∷ want_titles) parsed_output = do
    index ← or_else (unknown_title title) (lookup title columns)
    value ← or_panic (get_elem? tokens index)
    add_values want_titles (append_to title value parsed_output)

module _ (all_titles : List Bytes) where
  -- A row that is not empty and not the first one.
  unfoldable pub add_row :
      Table ℕ
      → (want_titles : List Bytes) → (header row : Bytes) → Table (List Bytes)
      → Outcome ParseError (Table (List Bytes))
  add_row columns want_titles header row parsed_output =
      if eqb row header
      then done parsed_output
      else (fail_if (not (length all_titles == length (fields row))) (columns_differ header row)
          >> add_values columns (fields row) want_titles parsed_output)

  -- The rows behind the first one.
  unfoldable pub add_rows :
      Table ℕ
      → (want_titles : List Bytes) → (header : Bytes) → List Bytes
      → Table (List Bytes)
      → Outcome ParseError (Table (List Bytes))
  add_rows columns want_titles header [] parsed_output = done parsed_output
  add_rows columns want_titles header (row ∷ rows) parsed_output =
      let further = add_rows columns want_titles header rows in
      if is_blank (trim_space row)
      then further parsed_output
      else (add_row columns want_titles header (trim_space row) parsed_output >>= further)

  -- An empty first row is skipped, with the titles.
  unfoldable pub parse_columns : List Bytes → List Bytes → Outcome ParseError (Table (List Bytes))
  parse_columns [] want_titles = done []
  parse_columns (row ∷ rows) want_titles =
      if is_blank (trim_space row)
      then add_rows [] want_titles [] rows []
      else add_rows (column_indices 0 all_titles []) (all_if_none all_titles want_titles)
          (trim_space row) rows []
