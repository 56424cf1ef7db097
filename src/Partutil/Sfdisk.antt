-- ===== src/Partutil/Sfdisk.antt =====
-- What the disk functions rely on of `sfdisk`, `e2fsck` and `resize2fs`, as sfdisk(8) documents it:
-- a script that is written is what a later dump shows, and `--move-data` with an absolute sector
-- moves one partition there. All commands are taken to succeed.
pub mod Laws
pub mod Sample
pub mod Minimize
use cos_tools.Base.{ℕ, ◌<◌, ◌≡◌, ◌≢◌, some, [], ◌∷◌}
use cos_tools.Base.Errors.{ok}
use cos_tools.Text.{Bytes, u64_mod, format_uint}
use cos_tools.Os.{Os, command}
use cos_tools.Partutil.Table.{PartContent, read_part}
use cos_tools.Partutil.Table.Lines.{IsName}
use cos_tools.Partutil.Commands.{
  dump_argv, write_argv, move_argv, check_argv, resize_argv, part_name_of,
}

-- A disk and a partition of it, with the name that the tools give it.
pub record IsPart (disk : Bytes) (n : ℕ) (part_name : Bytes) : Type 0 where
  pub positive : 0 < n
  pub bounded : n < u64_mod
  pub named : part_name_of disk n ≡ ok part_name
  pub is_name : IsName part_name

pub record Sfdisk {W : Type 0} (os : Os W) (disk : Bytes) : Type 0 where
  -- the text that a dump prints, and what the commands do to the state
  pub table : W → Bytes
  pub written : Bytes → W → W
  pub moved : ℕ → ℕ → W → W
  pub checked : Bytes → W → W
  pub resized : Bytes → W → W
  pub dump_lem : (w : W) → os (command (dump_argv disk) []) w ≡ (some (table w), w)
  pub write_lem : (t : Bytes) (w : W) → os (command (write_argv disk) t) w ≡ (some [], written t w)
  pub move_lem :
      (n d : ℕ) (w : W)
      → n < u64_mod
      → d < u64_mod
      → os (command (move_argv disk n) (format_uint d)) w ≡ (some [], moved n d w)
  pub check_lem :
      (part_name : Bytes) (w : W)
      → os (command (check_argv part_name) []) w ≡ (some [], checked part_name w)
  pub resize_lem :
      (part_name : Bytes) (w : W)
      → os (command (resize_argv part_name) []) w ≡ (some [], resized part_name w)
  pub table-checked : (part_name : Bytes) (w : W) → table (checked part_name w) ≡ table w
  pub table-resized : (part_name : Bytes) (w : W) → table (resized part_name w) ≡ table w
  pub read_part-written :
      (t : Bytes) (w : W) (name : Bytes) → read_part (table (written t w)) name ≡ read_part t name
  pub read_part-moved :
      (n d : ℕ) (w : W) (part_name : Bytes) (p : PartContent)
      → IsPart disk n part_name
      → d < u64_mod
      → read_part (table w) part_name ≡ ok p
      → read_part (table (moved n d w)) part_name ≡ ok (record p { start = d })
  pub read_part-moved_other :
      (n d : ℕ) (w : W) (part_name : Bytes) (p : PartContent) (other : Bytes)
      → IsPart disk n part_name
      → d < u64_mod
      → read_part (table w) part_name ≡ ok p
      → IsName other
      → other ≢ part_name
      → read_part (table (moved n d w)) other ≡ read_part (table w) other
