-- ===== src/Partutil/Tests.antt =====
-- Runs of the partition functions, and their theorems at a sample disk.
use Prim.Native.Nat.{min}
use cos_tools.Base.{ℕ, ◌+◌, ◌*◌, ◌%◌, ◌^◌, ◌≤◌, ◌<◌, ◌≡◌, ◌≢◌, refl, true, [], ◌∷◌, ◌++◌, arith}
use cos_tools.Base.Errors.{ok, err, panic, message}
use cos_tools.Text.{Bytes, codes, u64_mod, split, join, trim_space, parse_uint, format_uint}
use cos_tools.Partutil.Table.{PartContent, handle_partition_table, read_part}
use cos_tools.Partutil.Table.Lines.{IsName}
use cos_tools.Partutil.Table.ReadBack.{handle_partition_table_changes}
use cos_tools.Partutil.Size.{
  convert_size_to_bytes, convert_size_to_gb_round_up, find_last_4k_sector,
}
use cos_tools.Partutil.Size.Laws.{
  one_kib, one_gib, convert_size_to_bytes-format_uint, convert_size_to_bytes_wraps,
  convert_size_to_gb_round_up_bounds, find_last_4k_sector_bounds,
}
use cos_tools.Partutil.Commands.{part_name_of, is_partition_minimal, minimize_partition}
use cos_tools.Partutil.Sfdisk.{IsPart}
use cos_tools.Partutil.Sfdisk.Sample.{table_os, sample_Sfdisk}
use cos_tools.Partutil.Sfdisk.Minimize.{minimize_partition_minimizes}

machine : Unit {0}
unfolding read_part split join trim_space parse_uint format_uint convert_size_to_bytes part_name_of
    convert_size_to_gb_round_up
machine = tt

abbrev table_text : Bytes
table_text =
    codes
      "label: gpt\n\n/dev/sda1 : start=     1000, size=      500, type=A, uuid=1\n/dev/sda3 : start=     5000, size=      400, type=B\n/dev/sda8 : start=      104, size=       16, type=C, uuid=8\n/dev/sda12 : start=64, size=32\n"

abbrev sda8 : Bytes
sda8 = codes "/dev/sda8"

abbrev half_size : PartContent → PartContent
half_size p = record p { size = 8 }

read_sda8 : read_part table_text sda8 ≡ ok (record { start = 104; size = 16 })
unfolding machine
read_sda8 = refl

-- A line that is cut short panics.
short_line : read_part (codes "/dev/sda8 : start=104") sda8 ≡ panic
unfolding machine
short_line = refl

not_listed : read_part table_text (codes "/dev/sda4") ≡ err message
unfolding machine
not_listed = refl

abbrev halved_text : Bytes
halved_text =
    codes
      "label: gpt\n\n/dev/sda1 : start=     1000, size=      500, type=A, uuid=1\n/dev/sda3 : start=     5000, size=      400, type=B\n/dev/sda8 : start=104, size=8, type=C, uuid=8\n/dev/sda12 : start=64, size=32\n"

halved :
    handle_partition_table table_text sda8 true half_size
    ≡ ok (halved_text, record { start = 104; size = 16 })
unfolding machine
halved = refl

handle_partition_table_changes_example :
    (read_part table_text sda8 ≡ ok (record { start = 104; size = 16 }))
    × (read_part halved_text sda8 ≡ ok (record { start = 104; size = 8 }))
    × ((other : Bytes)
        → IsName other
        → other ≢ sda8
        → read_part halved_text other ≡ read_part table_text other)
handle_partition_table_changes_example =
    handle_partition_table_changes {name = sda8} (omega arith) half_size table_text halved_text
      (record { start = 104; size = 16 }) halved (omega arith)

sda3-IsPart : IsPart (codes "/dev/sda") 3 (codes "/dev/sda3")
unfolding machine
sda3-IsPart = record {
  positive = omega arith;
  bounded = omega arith;
  named = refl;
  is_name = omega arith;
}

read_sda3 : read_part table_text (codes "/dev/sda3") ≡ ok (record { start = 5000; size = 400 })
unfolding machine
read_sda3 = refl

minimize_partition_minimizes_example :
    (w' : Bytes) × (minimize_partition table_os (codes "/dev/sda") 3 table_text
      ≡ (ok (5008 % u64_mod), w'))
    × (is_partition_minimal table_os (codes "/dev/sda") 3 w' ≡ (ok true, w'))
    × (read_part w' (codes "/dev/sda3") ≡ ok (record { start = 5000; size = min 400 8 }))
    × ((other : Bytes)
        → IsName other
        → other ≢ codes "/dev/sda3"
        → read_part w' other ≡ read_part table_text other)
unfolding sample_Sfdisk
minimize_partition_minimizes_example =
    minimize_partition_minimizes (sample_Sfdisk (codes "/dev/sda")) sda3-IsPart table_text
      (record { start = 5000; size = 400 }) read_sda3

sizes :
    (convert_size_to_bytes (codes "10G") ≡ ok 10_737_418_240)
    × (convert_size_to_bytes (codes "3") ≡ ok 1536)
    × (convert_size_to_bytes (codes "3T") ≡ err message)
    × (convert_size_to_bytes (codes "G") ≡ err message)
    × (convert_size_to_gb_round_up (codes "1025M") ≡ ok 2)
unfolding machine
sizes = (refl, refl, refl, refl, refl)

convert_size_to_bytes-format_uint_example :
    (convert_size_to_bytes (format_uint 7 ++ (b'K' ∷ [])) ≡ ok (7 * 1024 % u64_mod))
    × (convert_size_to_bytes (format_uint 7) ≡ ok (7 * 512 % u64_mod))
convert_size_to_bytes-format_uint_example =
    convert_size_to_bytes-format_uint 7 b'K' 1024 (omega arith) one_kib

convert_size_to_bytes_wraps_example :
    (bytes : ℕ) × (convert_size_to_bytes (format_uint 17_179_869_184 ++ (b'G' ∷ [])) ≡ ok bytes)
    × (bytes < 17_179_869_184 * 1_073_741_824)
convert_size_to_bytes_wraps_example =
    convert_size_to_bytes_wraps 17_179_869_184 b'G' 1_073_741_824 (omega arith) one_gib
      (omega arith)

convert_size_to_gb_round_up_bounds_example :
    (gb : ℕ) × (convert_size_to_gb_round_up (codes "10G") ≡ ok gb)
    × (10_737_418_240 ≤ gb * 2 ^ 30)
    × (gb * 2 ^ 30 < 10_737_418_240 + 2 ^ 30)
convert_size_to_gb_round_up_bounds_example =
    convert_size_to_gb_round_up_bounds (codes "10G") sizes.0

find_last_4k_sector_bounds_example :
    (find_last_4k_sector 13 % 8 ≡ 0)
    × (find_last_4k_sector 13 ≤ 13)
    × (13 < find_last_4k_sector 13 + 8)
find_last_4k_sector_bounds_example = find_last_4k_sector_bounds 13
