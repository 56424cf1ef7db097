-- ===== src/Os.antt =====
-- What the tools ask of the system they run on: a call, its answer and the state that it leaves.
-- The system is a parameter: an answer is `none` where Go gets an error.
pub mod Action
pub mod Files
pub mod Reboot
use cos_tools.Base.{ℕ, List, Option}
use cos_tools.Text.{Bytes}

-- The flags of mount(2) that the provisioner names.
pub data MountFlag : Type 0 where
  remount bind nosuid nodev noexec noatime nodiratime relatime nosymfollow rdonly : MountFlag

pub data Call : Type 0 where
  -- `exec.Command(argv...)` with a standard input; the answer is the standard output
  command : (argv : List Bytes) (stdin : Bytes) → Call
  -- a command with a working directory and variables added to its environment
  command_in : (argv : List Bytes) (dir : Bytes) (env : List Bytes) → Call
  read_file stat mkdir mkdir_all remove remove_all : (path : Bytes) → Call
  -- `os.Stat` and `os.IsNotExist` of its error; the answer is `some` if the path does not exist
  is_missing : (path : Bytes) → Call
  -- the names in a directory, each ended by a zero byte; no name if there is no such directory
  read_dir : (path : Bytes) → Call
  -- what `filepath.Walk` passes on, in its order: a path with `d` in front for a directory, `f` for
  -- a file and `e` for what it cannot access, each ended by a zero byte
  walk : (path : Bytes) → Call
  write_file : (path content : Bytes) → Call
  -- opening a file to read and creating one; `io.Copy` between two of them
  open_file create_file : (path : Bytes) → Call
  copy_content : (from to : Bytes) → Call
  close_file : (path : Bytes) → Call
  chmod : (path : Bytes) (mode : ℕ) → Call
  mount : (source target fstype : Bytes) (flags : List MountFlag) → Call
  unmount : (target : Bytes) → Call
  -- a reader of an object in cloud storage, copying it to a file, and closing it
  gcs_open gcs_close : (bucket object : Bytes) → Call
  gcs_copy : (bucket object to : Bytes) → Call
  temp_dir : Call
  getenv : (name : Bytes) → Call
  setenv : (name value : Bytes) → Call
  -- `time.Sleep(time.Second)`
  sleep : Call

abbrev pub Os : Type 0 → Type 0
Os W = Call → W → Option Bytes × W
