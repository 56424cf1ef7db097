-- ===== src/Partutil/Table.antt =====
-- Partition tables as `sfdisk --dump` prints them
-- (pkg/tools/partutil/handle_partition_table.go, function HandlePartitionTable).
pub mod Line
pub mod Rebuild
pub mod Lines
pub mod ReadBack
pub mod Total
use cos_tools.Base.{ℕ, Bool, true, false, List, [], ◌∷◌, ◌++◌, get_elem?, set, if◌then◌else◌}
use cos_tools.Base.Errors.{Result, ok, err, panic, message, ◌>>=◌, or_panic, or_fail}
use cos_tools.Text.{Bytes, split, join, has_prefix, trim_space, parse_uint, format_uint}

pub record PartContent : Type 0 where
  pub start : ℕ
  pub size : ℕ

-- The local variables of the loop's body, with what was read in `part`.
pub record LineParts : Type 0 where
  pub content : List Bytes
  pub part_info : List Bytes
  pub start_sec : List Bytes
  pub size_sec : List Bytes
  pub part : PartContent

-- `strconv.ParseUint(strings.TrimSpace(sec[1]), 10, 64)`
unfoldable pub read_number : List Bytes → Result ℕ
read_number sec = do text ← or_panic (get_elem? sec 1); or_fail (parse_uint (trim_space text))

unfoldable pub read_parts : List Bytes → List Bytes → List Bytes → List Bytes → Result LineParts
unfolding read_number
read_parts content part_info start_sec size_sec = do
  start ← read_number start_sec
  size ← read_number size_sec
  ok (record {
    content = content;
    part_info = part_info;
    start_sec = start_sec;
    size_sec = size_sec;
    part = record { start = start; size = size };
  })

unfoldable pub cut_info : List Bytes → List Bytes → Result LineParts
unfolding read_parts
cut_info content part_info = do
  first ← or_panic (get_elem? part_info 0)
  second ← or_panic (get_elem? part_info 1)
  read_parts content part_info (split first b'=') (split second b'=')

-- The first half of the body: cut the line and read the two numbers.
unfoldable pub cut_line : Bytes → Result LineParts
unfolding cut_info
cut_line line = do
  info ← or_panic (get_elem? (split line b':') 1)
  cut_info (split line b':') (split info b',')

-- The second half: the line with other numbers.
unfoldable pub rebuild_line : LineParts → PartContent → Bytes
rebuild_line k p =
    let start_sec = set k.start_sec 1 (format_uint p.start) in
    let size_sec = set k.size_sec 1 (format_uint p.size) in
    let part_info = set (set k.part_info 0 (join start_sec b'=')) 1 (join size_sec b'=') in
    join (set k.content 1 (join part_info b',')) b':'

-- The body of the loop at the line of the partition: the line as it is left, and what the callback
-- was handed.
unfoldable pub handle_line :
    Bool → (PartContent → PartContent) → Bytes → Result (Bytes × PartContent)
unfolding cut_line rebuild_line
handle_line change f line = do
  k ← cut_line line
  ok (if change then rebuild_line k (f k.part) else line, k.part)

-- `partName + " "`, the space being there so that /dev/sda14 does not pass for /dev/sda1
unfoldable pub is_line_of : Bytes → Bytes → Bool
unfolding has_prefix
is_line_of part_name line = has_prefix (part_name ++ (b' ' ∷ [])) line

-- `lines[idx] = …` and the lines that are left alone
abbrev pub behind : Bytes → Result (List Bytes × PartContent) → Result (List Bytes × PartContent)
behind line r = do (lines, p) ← r; ok (line ∷ lines, p)

abbrev pub before : List Bytes → Result (Bytes × PartContent) → Result (List Bytes × PartContent)
before lines r = do (line, p) ← r; ok (line ∷ lines, p)

-- The loop over the lines: it stops at the first one of the partition.
unfoldable pub handle_lines :
    Bytes → Bool → (PartContent → PartContent) → List Bytes → Result (List Bytes × PartContent)
unfolding is_line_of handle_line
handle_lines part_name change f [] = err message
handle_lines part_name change f (line ∷ lines) =
    if is_line_of part_name line
    then before lines (handle_line change f line)
    else behind line (handle_lines part_name change f lines)

-- `HandlePartitionTable`. A callback that captures variables is a function of the partition, whose
-- content before the call is returned too.
unfoldable pub handle_partition_table :
    Bytes → Bytes → Bool → (PartContent → PartContent) → Result (Bytes × PartContent)
unfolding handle_lines
handle_partition_table table part_name change f = do
  (lines, p) ← handle_lines part_name change f (split table b'\n')
  ok (if change then join lines b'\n' else table, p)

abbrev pub keep : PartContent → PartContent
keep p = p

-- What a reader of the table finds of a partition.
unfoldable pub read_part : Bytes → Bytes → Result PartContent
unfolding handle_partition_table
read_part table part_name = do (table', p) ← handle_partition_table table part_name false keep; ok p
