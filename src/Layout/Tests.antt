-- ===== src/Layout/Tests.antt =====
-- Layouts of a sample disk.
use cos_tools.Base.{◌-◌, ◌≡◌, refl, true, false, arith}
use cos_tools.Base.Errors.{ok, err, wrapped, message}
use cos_tools.Text.{Bytes, codes, split, trim_space, parse_uint, format_uint}
use cos_tools.Partutil.Table.{PartContent, read_part}
use cos_tools.Partutil.Size.{convert_size_to_bytes, find_last_4k_sector}
use cos_tools.Partutil.Commands.{part_name_of}
use cos_tools.Partutil.Sfdisk.Sample.{table_os, sample_Sfdisk}
use cos_tools.Layout.{sda, handle_disk_layout}
use cos_tools.Layout.Moves.{IsDisk, Layout, new_state_start}
use cos_tools.Layout.Whole.{
  handle_disk_layout_keeps, handle_disk_layout_grows, handle_disk_layout_refuses,
}
use cos_tools.Layout.Reclaim.{sda3, handle_disk_layout_reclaims, handle_disk_layout_reclaims_grows}

machine : Unit {0}
unfolding read_part split trim_space parse_uint format_uint convert_size_to_bytes part_name_of
    find_last_4k_sector sample_Sfdisk
machine = tt

abbrev table_text : Bytes
table_text =
    codes
      "label: gpt\n\n/dev/sda1 : start=10000, size=500\n/dev/sda3 : start=5000, size=400\n/dev/sda8 : start=104, size=16\n"

abbrev state : PartContent
state = record { start = 10000; size = 500 }

abbrev oem : PartContent
oem = record { start = 104; size = 16 }

abbrev root : PartContent
root = record { start = 5000; size = 400 }

disk : IsDisk (sample_Sfdisk sda) table_text state oem 1 8 (codes "/dev/sda1") (codes "/dev/sda8")
unfolding machine
disk = record {
  state_part = record {
    positive = omega arith;
    bounded = omega arith;
    named = refl;
    is_name = omega arith;
  };
  oem_part = record {
    positive = omega arith;
    bounded = omega arith;
    named = refl;
    is_name = omega arith;
  };
  different = λ e. ground arith;
  state_at = refl;
  oem_at = refl;
}

abbrev LayoutOf : Bytes → PartContent → PartContent → Type 0
LayoutOf = Layout (sample_Sfdisk sda) disk

size_keeps : convert_size_to_bytes (codes "8K") ≡ ok 8192
unfolding machine
size_keeps = refl

size_grows : convert_size_to_bytes (codes "16K") ≡ ok 16384
unfolding machine
size_grows = refl

size_little : convert_size_to_bytes (codes "20") ≡ ok 10240
unfolding machine
size_little = refl

handle_disk_layout_keeps_example :
    handle_disk_layout table_os sda 1 8 (codes "8K") false table_text ≡ (ok tt, table_text)
handle_disk_layout_keeps_example =
    handle_disk_layout_keeps (sample_Sfdisk sda) disk (codes "8K") size_keeps (omega arith)
      (omega arith) (omega arith)

handle_disk_layout_grows_example :
    (w' : Bytes) × (handle_disk_layout table_os sda 1 8 (codes "16K") false table_text
      ≡ (ok tt, w'))
    × LayoutOf w'
        (record state { start = new_state_start 10000 16384 })
        (record { start = 10000; size = new_state_start 10000 16384 - 10000 })
unfolding find_last_4k_sector
handle_disk_layout_grows_example =
    handle_disk_layout_grows (sample_Sfdisk sda) disk (codes "16K") size_grows (omega arith)
      (omega arith) (omega arith) (omega arith) (omega arith)

handle_disk_layout_refuses_example :
    (w' : Bytes) × (handle_disk_layout table_os sda 1 8 (codes "20") false table_text
      ≡ (err (wrapped message), w'))
    × LayoutOf w' (record state { start = 10016 }) (record oem { start = 10000 })
handle_disk_layout_refuses_example =
    handle_disk_layout_refuses (sample_Sfdisk sda) disk (codes "20") size_little (omega arith)
      (omega arith) (omega arith) (omega arith) (omega arith) refl (omega arith)

-- The same disk after the first run.
abbrev shrunk_text : Bytes
shrunk_text =
    codes
      "label: gpt\n\n/dev/sda1 : start=10000, size=500\n/dev/sda3 : start=5000, size=8\n/dev/sda8 : start=104, size=16\n"

shrunk_disk :
    IsDisk (sample_Sfdisk sda) shrunk_text state oem 1 8 (codes "/dev/sda1") (codes "/dev/sda8")
unfolding machine
shrunk_disk = record {
  state_part = disk.state_part;
  oem_part = disk.oem_part;
  different = disk.different;
  state_at = refl;
  oem_at = refl;
}

shrunk_root_at : read_part shrunk_text sda3 ≡ ok (record root { size = 8 })
unfolding machine
shrunk_root_at = refl

handle_disk_layout_reclaims_example :
    (w' : Bytes) × (handle_disk_layout table_os sda 1 8 (codes "8K") true shrunk_text ≡ (ok tt, w'))
    × Layout (sample_Sfdisk sda) shrunk_disk w' (record state { start = 9096 }) oem
unfolding sample_Sfdisk
handle_disk_layout_reclaims_example =
    handle_disk_layout_reclaims (sample_Sfdisk sda) shrunk_disk shrunk_root_at (omega arith)
      (codes "8K") size_keeps (omega arith) (omega arith) (omega arith)

handle_disk_layout_reclaims_grows_example :
    (w' : Bytes) × (handle_disk_layout table_os sda 1 8 (codes "16K") true shrunk_text
      ≡ (ok tt, w'))
    × Layout
        (sample_Sfdisk sda)
        shrunk_disk
        w'
        (record state { start = new_state_start 9096 16384 })
        (record { start = 9096; size = new_state_start 9096 16384 - 9096 })
unfolding sample_Sfdisk find_last_4k_sector
handle_disk_layout_reclaims_grows_example =
    handle_disk_layout_reclaims_grows (sample_Sfdisk sda) shrunk_disk shrunk_root_at (omega arith)
      (codes "16K") size_grows (omega arith) (omega arith) (omega arith) (omega arith) (omega arith)
