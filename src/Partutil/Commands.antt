-- ===== src/Partutil/Commands.antt =====
-- The functions of pkg/tools/partutil that run `sfdisk`, `e2fsck` and `resize2fs`
-- (handle_partition_table.go, extend_partition.go, move_partition.go).
-- A partition number is a natural number; 0 stands for every number that is not positive.
use cos_tools.Base.{
  ℕ, ◌+◌, ◌-◌, ◌%◌, Bool, true, false, not, ◌||◌, List, [], ◌∷◌, ◌++◌, ltb, leb, ◌==◌,
}
use cos_tools.Base.Errors.{Result, ok, err, panic, wrap, refuse_if}
use cos_tools.Text.{Bytes, codes, u64_mod, format_uint}
use cos_tools.Os.{Os, command}
use cos_tools.Os.Action.{Action, ◌>>=◌, ◌>>◌, pure, lift, wrap_action, ask, order, when}
use cos_tools.Partutil.Table.{PartContent, handle_partition_table, keep}
use cos_tools.Partutil.Size.{part_num_int_to_string}

-- `minPartitionSizeSectors`
abbrev pub min_partition_size_sectors : ℕ
min_partition_size_sectors = 8

abbrev pub is_empty : Bytes → Bool
is_empty [] = true
is_empty (_ ∷ _) = false

abbrev pub dump_argv : Bytes → List Bytes
dump_argv disk = codes "sudo" ∷ codes "sfdisk" ∷ codes "--dump" ∷ disk ∷ []

abbrev pub write_argv : Bytes → List Bytes
write_argv disk = codes "sudo" ∷ codes "sfdisk" ∷ codes "--no-reread" ∷ disk ∷ []

abbrev pub move_argv : Bytes → ℕ → List Bytes
move_argv disk n =
    codes "sudo"
    ∷ codes "sfdisk"
    ∷ codes "--no-reread"
    ∷ codes "--move-data=/dev/null"
    ∷ disk
    ∷ codes "-N"
    ∷ format_uint n
    ∷ []

abbrev pub check_argv : Bytes → List Bytes
check_argv part_name = codes "sudo" ∷ codes "e2fsck" ∷ codes "-fp" ∷ part_name ∷ []

abbrev pub resize_argv : Bytes → List Bytes
resize_argv part_name = codes "sudo" ∷ codes "resize2fs" ∷ part_name ∷ []

-- `disk + partNum`
unfoldable pub part_name_of : Bytes → ℕ → Result Bytes
unfolding part_num_int_to_string
part_name_of disk n = elim (wrap (part_num_int_to_string disk n)) [
  | ok part_num ↦ ok (disk ++ part_num)
  | err e ↦ err e
  | panic ↦ panic
]

-- `end - p.Start + 1` in uint64
abbrev pub size_up_to : ℕ → PartContent → ℕ
size_up_to end p = (end + u64_mod - p.start + 1) % u64_mod

module _ {W : Type 0} (os : Os W) where
  -- `ReadPartitionTable`
  unfoldable pub read_partition_table : Bytes → Action W Bytes
  read_partition_table disk = wrap_action (ask os (command (dump_argv disk) []))

  -- What `ReadPartitionSize` and `ReadPartitionStart` have in common.
  unfoldable pub read_partition : Bytes → ℕ → Action W PartContent
  read_partition disk n = do
    lift (refuse_if (is_empty disk || n == 0))
    part_name ← lift (part_name_of disk n)
    table ← wrap_action (read_partition_table disk)
    (table', p) ← wrap_action (lift (handle_partition_table table part_name false keep))
    pure p

  unfoldable pub read_partition_size : Bytes → ℕ → Action W ℕ
  read_partition_size disk n = do p ← read_partition disk n; pure p.size

  unfoldable pub read_partition_start : Bytes → ℕ → Action W ℕ
  read_partition_start disk n = do p ← read_partition disk n; pure p.start

  unfoldable pub is_partition_minimal : Bytes → ℕ → Action W Bool
  is_partition_minimal disk n = do
    num_sectors ← read_partition_size disk n
    pure (not (ltb min_partition_size_sectors num_sectors))

  -- `MinimizePartition` returns the sector behind the partition.
  unfoldable pub minimize_partition : Bytes → ℕ → Action W ℕ
  minimize_partition disk n = do
    lift (refuse_if (is_empty disk || n == 0))
    part_name ← lift (part_name_of disk n)
    table ← wrap_action (read_partition_table disk)
    (table', p) ← wrap_action (
        lift (
          handle_partition_table table part_name true
            (λ p. record p { size = min_partition_size_sectors })))
    when (not (leb p.size min_partition_size_sectors))
        (wrap_action (order os (command (write_argv disk) table')))
    pure ((p.start + min_partition_size_sectors) % u64_mod)

  -- `ExtendPartition`
  unfoldable pub extend_partition : Bytes → ℕ → ℕ → Action W (Unit {0})
  extend_partition disk n end = do
    lift (refuse_if (is_empty disk || n == 0 || end == 0))
    part_name ← lift (part_name_of disk n)
    table ← wrap_action (read_partition_table disk)
    (table', p) ← wrap_action (
        lift
          (handle_partition_table table part_name true (λ p. record p { size = size_up_to end p })))
    lift (refuse_if (leb (size_up_to end p) p.size))
    wrap_action (order os (command (write_argv disk) table'))
    wrap_action (order os (command (check_argv part_name) []))
    wrap_action (order os (command (resize_argv part_name) []))

  -- `MovePartition`
  unfoldable pub move_partition : Bytes → ℕ → Bytes → Action W (Unit {0})
  move_partition disk n dest = do
    lift (refuse_if (is_empty disk || n == 0 || is_empty dest))
    wrap_action (order os (command (move_argv disk n) dest))
