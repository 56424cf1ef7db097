-- ===== src/Findbuild/Range.antt =====
-- The commits of the manifest repository within a range of time (function candidateManifestCommits
-- of pkg/findbuild/findbuild.go).
pub mod Window
pub mod Ending
use cos_tools.Base.{
  ℕ, zero, suc, ◌+◌, ◌-◌, ◌/◌, Bool, not, Option, List, length, get_elem?, take, drop, ltb, ◌==◌,
  if◌then◌else◌,
}
use cos_tools.Base.Outcome.{Outcome, stuck, done, ◌>>=◌, ◌>>◌, or_panic, or_else, fail_if}
use cos_tools.Gob.Errors.{ChangelogError, internal_server_error, cl_too_recent}
use cos_tools.Gob.Commits.{Commit}
use cos_tools.Findbuild.Types.{ClData}

module _ (probe : ℕ → Outcome ChangelogError Bool) where
  -- The first loop. `probe` says of a commit whether it is before the range.
  unfoldable pub find_earliest : ℕ → ℕ → ℕ → Outcome ChangelogError ℕ
  find_earliest zero left right = stuck
  find_earliest (suc fuel) left right =
      let mid = (left + right) / 2 in
      let again = λ (before : Bool).
        find_earliest fuel (if before then left else mid + 1) (if before then mid else right) in
      if ltb left right then probe mid >>= again else done left

  -- The second loop. `probe` says of a commit whether it is after the range.
  unfoldable pub find_latest : ℕ → ℕ → ℕ → Outcome ChangelogError ℕ
  find_latest zero left right = stuck
  find_latest (suc fuel) left right =
      let mid = (left + right) / 2 + 1 in
      let again = λ (after : Bool).
        find_latest fuel (if after then mid else left) (if after then right else mid - 1) in
      if ltb left right then probe mid >>= again else done right

module _ (manifest_commits : List Commit) where
  -- The time of a commit: an index behind the end panics.
  unfoldable pub committed_at : ℕ → Outcome ChangelogError ℕ
  committed_at i = do
    commit ← or_panic (get_elem? manifest_commits i)
    or_else internal_server_error commit.committer

module _ (manifest_commits : List Commit) (cl_data : ClData) where
  unfoldable pub before_range : ℕ → Outcome ChangelogError Bool
  before_range i = do
    curr_date ← committed_at manifest_commits i
    done (ltb curr_date cl_data.search_start_range)

  unfoldable pub after_range : ℕ → Outcome ChangelogError Bool
  after_range i = do
    curr_date ← committed_at manifest_commits i
    done (ltb cl_data.search_end_range curr_date)

  -- The commits within the range, with one more on either side, and whether the range can be
  -- expanded. The first commit is read without a look whether it has a committer.
  unfoldable pub candidate_manifest_commits : Outcome ChangelogError (List Commit × Bool)
  candidate_manifest_commits = do
    newest ← or_panic (get_elem? manifest_commits 0)
    newest_date ← or_panic newest.committer
    fail_if (ltb newest_date cl_data.search_start_range)
        (cl_too_recent cl_data.cl_num cl_data.instance_url)
    let fuel = length manifest_commits
    earliest ← find_earliest before_range fuel 0 (fuel - 1)
    latest ← find_latest after_range fuel 0 earliest
    done (take (earliest + 1 - latest) (drop latest manifest_commits), not (latest == 0))
