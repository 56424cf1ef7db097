-- ===== src/Findbuild/First.antt =====
-- The first build that contains the change (function firstBuild of pkg/findbuild/findbuild.go).
pub mod Scan
use cos_tools.Base.{ℕ, zero, suc, Bool, Option, none, some, List, [], ◌∷◌, get_elem?, if◌then◌else◌}
use cos_tools.Base.Outcome.{Outcome, fail, done, ◌>>=◌, or_panic}
use cos_tools.Text.{Bytes, eqb}
use cos_tools.Maps.{Table, lookup}
use cos_tools.Gob.Errors.{ChangelogError, cl_landing_not_found}
use cos_tools.Gob.Commits.{Commit}
use cos_tools.Findbuild.Types.{ClData}

-- The first loop: `i` counts the commits, `target_idx` is the last match so far, if any.
unfoldable pub find_target : Bytes → List Commit → ℕ → Option ℕ → Option ℕ
find_target revision [] i target_idx = target_idx
find_target revision (commit ∷ changelog) i target_idx =
    find_target revision changelog (suc i) (if eqb commit.id revision then some i else target_idx)

abbrev pub landing_not_found : ClData → ChangelogError
landing_not_found cl_data = cl_landing_not_found cl_data.cl_num cl_data.instance_url

abbrev pub found_or : Outcome ChangelogError Bytes → Option Bytes → Outcome ChangelogError Bytes
found_or next (some build_num) = done build_num
found_or next none = next

module _ (changelog : List Commit) (candidates : Table Bytes) where
  abbrev pub candidate_at : ℕ → Outcome ChangelogError (Option Bytes)
  candidate_at i = do commit ← or_panic (get_elem? changelog i); done (lookup commit.id candidates)

module _ (changelog : List Commit) (cl_data : ClData) (candidates : Table Bytes) where
  -- The second loop, from an index down to 0.
  unfoldable pub scan : ℕ → Outcome ChangelogError Bytes
  scan zero = candidate_at changelog candidates 0 >>= found_or (fail (landing_not_found cl_data))
  scan (suc i) = let next = scan i in candidate_at changelog candidates (suc i) >>= found_or next

  abbrev pub scan_from : Option ℕ → Outcome ChangelogError Bytes
  scan_from none = fail (landing_not_found cl_data)
  scan_from (some target_idx) = scan target_idx

  unfoldable pub first_build : Outcome ChangelogError Bytes
  first_build = scan_from (find_target cl_data.revision changelog 0 none)
