-- ===== src/Provisioner/Types.antt =====
-- The configuration, the state and the dependencies of the provisioner
-- (pkg/provisioner/config.go, state.go, provisioner.go).
use cos_tools.Base.{ℕ, Bool, List, [], ◌∷◌, ◌++◌, if◌then◌else◌, ◌==◌}
use cos_tools.Text.{Bytes}
use cos_tools.Partutil.Size.{last_byte}

-- `filepath.Join` of a clean directory and a clean relative path.
unfoldable pub join_path : Bytes → Bytes → Bytes
unfolding last_byte
join_path [] path = path
join_path (c ∷ dir) path =
    if last_byte c dir == b'/' then (c ∷ dir) ++ path else (c ∷ dir) ++ (b'/' ∷ path)

-- `Args` holds the JSON of a step's arguments, up to its spacing.
pub record StepConfig (Args : Type 0) : Type 0 where
  pub step_type : Bytes
  pub args : Args

-- The field `OEMFSSize4K` is a uint64.
pub record BootDiskConfig : Type 0 where
  pub oem_size : Bytes
  pub oem_fs_size_4k : ℕ
  pub reclaim_sda3 : Bool
  pub wait_for_disk_resize : Bool

-- The map of build contexts stands in the order in which `range` takes it.
pub record Config (Args : Type 0) : Type 0 where
  pub build_contexts : List (Bytes × Bytes)
  pub boot_disk : BootDiskConfig
  pub steps : List (StepConfig Args)

pub record StateData (Args : Type 0) : Type 0 where
  pub config : Config Args
  pub current_step : ℕ
  pub disk_resize_complete : Bool

pub record Deps : Type 0 where
  pub tar_cmd : Bytes
  pub systemctl_cmd : Bytes
  pub rootdev_cmd : Bytes
  pub cgpt_cmd : Bytes
  pub resize2fs_cmd : Bytes
  pub e2fsck_cmd : Bytes
  pub root_dir : Bytes
  pub docker_credential_gcr : Bytes
  pub verity_setup_image : Bytes
  pub handle_disk_layout_bin : Bytes
