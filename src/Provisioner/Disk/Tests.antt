-- ===== src/Provisioner/Disk/Tests.antt =====
-- A disk whose sda3 is minimal, through a shutdown and the next boot.
use cos_tools.Base.{◌≡◌, refl, true, false, [], arith}
use cos_tools.Base.Errors.{ok}
use cos_tools.Text.{Bytes, codes, split, trim_space, parse_uint, format_uint}
use cos_tools.Partutil.Table.{PartContent, read_part}
use cos_tools.Partutil.Size.{convert_size_to_bytes, find_last_4k_sector}
use cos_tools.Partutil.Commands.{part_name_of}
use cos_tools.Partutil.Sfdisk.Sample.{table_os, sample_Sfdisk}
use cos_tools.Layout.{sda, handle_disk_layout}
use cos_tools.Layout.Reclaim.{sda3}
use cos_tools.Provisioner.Types.{join_path, StateData, Deps}
use cos_tools.Provisioner.Disk.{in_root, relocated, relocate_partitions}
use cos_tools.Provisioner.Disk.Settle.{CosDisk, relocate_partitions_settles, relocated_unsettled}

machine : Unit {0}
unfolding read_part split trim_space parse_uint format_uint convert_size_to_bytes part_name_of
    find_last_4k_sector sample_Sfdisk join_path
machine = tt

abbrev table_text : Bytes
table_text =
    codes
      "label: gpt\n\n/dev/sda1 : start=10000, size=500\n/dev/sda3 : start=5000, size=8\n/dev/sda8 : start=104, size=16\n"

abbrev state : PartContent
state = record { start = 10000; size = 500 }

abbrev oem : PartContent
oem = record { start = 104; size = 16 }

abbrev root : PartContent
root = record { start = 5000; size = 8 }

disk : CosDisk (sample_Sfdisk sda) table_text state oem
unfolding machine
disk = record {
  state_part = record {
    positive = omega arith;
    bounded = omega arith;
    named = refl;
    is_name = omega arith;
  };
  oem_part = record {
    positive = omega arith;
    bounded = omega arith;
    named = refl;
    is_name = omega arith;
  };
  different = λ e. ground arith;
  state_at = refl;
  oem_at = refl;
}

root_at : read_part table_text sda3 ≡ ok root
unfolding machine
root_at = refl

abbrev asking : Bytes → StateData (Unit {0})
asking size = record {
  config = record {
    build_contexts = [];
    boot_disk = record {
      oem_size = size;
      oem_fs_size_4k = 0;
      reclaim_sda3 = true;
      wait_for_disk_resize = false;
    };
    steps = [];
  };
  current_step = 0;
  disk_resize_complete = false;
}

abbrev sample_deps : Deps
sample_deps = record {
  tar_cmd = codes "tar";
  systemctl_cmd = codes "systemctl";
  rootdev_cmd = codes "rootdev";
  cgpt_cmd = codes "cgpt";
  resize2fs_cmd = codes "resize2fs";
  e2fsck_cmd = codes "e2fsck";
  root_dir = codes "/";
  docker_credential_gcr = codes "/gcr";
  verity_setup_image = codes "/verity";
  handle_disk_layout_bin = codes "/layout";
}

size_grows : convert_size_to_bytes (codes "16K") ≡ ok 16384
unfolding machine
size_grows = refl

size_keeps : convert_size_to_bytes (codes "8K") ≡ ok 8192
unfolding machine
size_keeps = refl

device_name : in_root sample_deps (codes "dev/sda") ≡ sda
unfolding machine
device_name = refl

relocate_partitions_settles_example :
    (w' : Bytes) × (handle_disk_layout table_os sda 1 8 (codes "16K") true table_text ≡ (ok tt, w'))
    × (relocate_partitions table_os sample_deps (asking (codes "16K")) w' ≡ (ok tt, w'))
unfolding sample_Sfdisk find_last_4k_sector
relocate_partitions_settles_example =
    relocate_partitions_settles (sample_Sfdisk sda) (asking (codes "16K")) refl sample_deps disk
      root_at (omega arith) (omega arith) (omega arith) refl size_grows (omega arith) device_name
      (omega arith) (omega arith) (omega arith)

relocated_unsettled_example :
    (w' : Bytes) × (handle_disk_layout table_os sda 1 8 (codes "8K") true table_text ≡ (ok tt, w'))
    × (relocated table_os sample_deps (asking (codes "8K")) sda w' ≡ (ok false, w'))
unfolding sample_Sfdisk
relocated_unsettled_example =
    relocated_unsettled (sample_Sfdisk sda) (asking (codes "8K")) refl sample_deps disk root_at
      (omega arith) (omega arith) (omega arith) refl size_keeps (omega arith) (omega arith)
      (omega arith)
