-- ===== src/Os/Files.antt =====
-- What the tools rely on when a file that was written is read again.
use cos_tools.Base.{Option, some, ◌≡◌}
use cos_tools.Text.{Bytes}
use cos_tools.Os.{Os, read_file, write_file}

pub record Files {W : Type 0} (os : Os W) (path : Bytes) : Type 0 where
  -- the content of the file, if there is one
  pub content : W → Option Bytes
  pub reads : (w : W) → os (read_file path) w ≡ (content w, w)
  pub writes :
      (text : Bytes) (w : W)
      → (w' : W) × (out : Bytes) × (os (write_file path text) w ≡ (some out, w'))
        × (content w' ≡ some text)
