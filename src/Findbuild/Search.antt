-- ===== src/Findbuild/Search.antt =====
-- The search in a growing range of time (functions findBuildInRange, findBuildExponential and
-- FindBuild of pkg/findbuild/findbuild.go).
pub mod Parts
pub mod Ending
pub mod Untagged
pub mod Found
use cos_tools.Base.{
  ℕ, zero, suc, ◌+◌, ◌-◌, ◌*◌, Bool, true, false, ◌&&◌, not, Option, none, some, List, [], ◌∷◌,
  ◌++◌, ltb, if◌then◌else◌,
}
use cos_tools.Base.Outcome.{
  Outcome, stuck, panic, fail, done, ◌>>=◌, ◌>>◌, map_fail, or_panic, or_else, fail_if,
}
use cos_tools.Text.{Bytes, codes, eqb}
use cos_tools.Maps.{Table}
use cos_tools.Gob.Errors.{
  ChangelogError, GoError, internal_server_error, cl_landing_not_found, cl_not_used,
  cl_invalid_release, gitiles_err_code,
}
use cos_tools.Gob.Commits.{Commit, Gitiles, at_most, unlimited, QuerySize, commits, is_blank}
use cos_tools.Gob.Urls.{Matcher, create_gerrit_url}
use cos_tools.Gob.Manifest.{XmlReader}
use cos_tools.Findbuild.Types.{
  day, second, default_search_range, search_range_multiplier, no_source_changelog_size,
  BuildRequest, BuildResponse, ClData,
}
use cos_tools.Findbuild.Range.{candidate_manifest_commits}
use cos_tools.Findbuild.Query.{Services, get_cl_data}
use cos_tools.Findbuild.Builds.{tags_of, candidate_build_nums}
use cos_tools.Findbuild.Project.{manifest_data}
use cos_tools.Findbuild.Repo.{RepoData, get_repo_data}
use cos_tools.Findbuild.First.{first_build}

pub record IterCache : Type 0 where
  pub gitiles_client : Gitiles
  pub manifest_commits : List Commit
  pub tags : Table Bytes

-- How an attempt fails: the error, whether the range can be expanded, and the project of the
-- change, which the attempt may have replaced.
pub record Failure : Type 0 where
  pub error : ChangelogError
  pub can_expand : Bool
  pub project : Bytes

abbrev pub failed : Bool → Bytes → ChangelogError → Failure
failed can_expand project error = record {
  error = error;
  can_expand = can_expand;
  project = project;
}

abbrev pub with_project : ClData → Bytes → ClData
with_project cl_data project = record {
  cl_num = cl_data.cl_num;
  instance_url = cl_data.instance_url;
  project = project;
  release = cl_data.release;
  branch = cl_data.branch;
  revision = cl_data.revision;
  search_start_range = cl_data.search_start_range;
  search_end_range = cl_data.search_end_range;
}

abbrev pub with_range : ClData → ℕ → ℕ → ClData
with_range cl_data from until = record {
  cl_num = cl_data.cl_num;
  instance_url = cl_data.instance_url;
  project = cl_data.project;
  release = cl_data.release;
  branch = cl_data.branch;
  revision = cl_data.revision;
  search_start_range = from;
  search_end_range = until;
}

-- The error of `candidateBuildNums` is not looked at: the list of the builds is then empty.
abbrev pub builds_or_none :
    Outcome ChangelogError (List Bytes) → Outcome ChangelogError (List Bytes)
builds_or_none (fail e) = done []
builds_or_none o = o

abbrev pub changelog_size : Bytes → QuerySize
changelog_size [] = at_most no_source_changelog_size
changelog_size (_ ∷ _) = unlimited

abbrev pub changelog_client : Services → BuildRequest → Gitiles → Bytes → Option Gitiles
changelog_client services request client remote_url =
    if eqb remote_url request.gitiles_host then some client else services.gitiles remote_url

abbrev pub changelog_error : ClData → GoError → ChangelogError
changelog_error cl_data e =
    if eqb (gitiles_err_code e) (codes "404")
    then cl_not_used cl_data.cl_num cl_data.project cl_data.release cl_data.instance_url
    else internal_server_error

-- The ranges: the last days of the range before are searched again.
abbrev pub expand : ℕ → ClData → ClData
expand time_range cl_data =
    with_range cl_data (cl_data.search_end_range - default_search_range * day)
      (cl_data.search_end_range + time_range * day)

-- The loop condition, behind an attempt; `next` takes the project that the attempt leaves.
abbrev pub or_retry :
    (Bytes → Outcome ChangelogError Bytes) → Outcome Failure Bytes → Outcome ChangelogError Bytes
or_retry next stuck = stuck
or_retry next panic = panic
or_retry next (done build_num) = done build_num
or_retry next (fail failure) =
    if failure.error.retryable && failure.can_expand
    then next failure.project
    else fail failure.error

abbrev pub manifest_error : ClData → GoError → ChangelogError
manifest_error cl_data e =
    if eqb (gitiles_err_code e) (codes "404")
    then cl_invalid_release cl_data.cl_num cl_data.release cl_data.instance_url
    else internal_server_error

abbrev pub last_commit : List Commit → Option Commit
last_commit [] = none
last_commit (c ∷ []) = some c
last_commit (c ∷ d ∷ cs) = last_commit (d ∷ cs)

-- A change from before the first build: the range starts one second before the first build.
abbrev pub first_range : ℕ → ClData → ClData
first_range oldest cl_data =
    if ltb cl_data.search_end_range oldest
    then with_range cl_data (oldest - second) (oldest - second + default_search_range * day)
    else cl_data

module _ (services : Services) (fuel : ℕ) (request : BuildRequest) where
  -- Behind `getRepoData`.
  unfoldable pub find_in_changelog : IterCache → Bool → ClData → RepoData → Outcome Failure Bytes
  find_in_changelog cache can_expand cl_data repo_data = do
    let failure =
        λ (error : ChangelogError) (can_expand : Bool). failed can_expand cl_data.project error
    fail_if (is_blank repo_data.target_sha)
        (failure (cl_landing_not_found cl_data.cl_num request.gerrit_host) can_expand)
    client ←
        or_else (failure internal_server_error false)
          (changelog_client services request cache.gitiles_client repo_data.remote_url)
    changelog ←
        map_fail (λ e. failure (changelog_error cl_data e) can_expand)
          (commits fuel client cl_data.project repo_data.target_sha repo_data.source_sha
            (changelog_size repo_data.source_sha))
    map_fail (λ e. failure e can_expand) (first_build changelog.0 cl_data repo_data.candidates)

  unfoldable pub find_build_in_range : IterCache → ClData → Outcome Failure Bytes
  find_build_in_range cache cl_data = do
    window ←
        map_fail (failed false cl_data.project)
          (candidate_manifest_commits cache.manifest_commits cl_data)
    let can_expand = window.1
    build_nums ←
        map_fail (failed can_expand cl_data.project)
          (builds_or_none (candidate_build_nums window.0 cache.tags))
    found ← map_fail (failed can_expand cl_data.project) (
        get_repo_data
          (manifest_data services.read_xml cache.gitiles_client request.manifest_repo
            cl_data.branch)
          services.schedule cl_data build_nums)
    repo_data ← map_fail (failed can_expand found.1) found.0
    find_in_changelog cache can_expand (with_project cl_data found.1) repo_data

  -- The attempts. `time_range` is in days.
  unfoldable pub attempts : IterCache → ℕ → ℕ → ClData → Outcome ChangelogError Bytes
  attempts cache zero time_range cl_data = stuck
  attempts cache (suc rounds) time_range cl_data =
      let time_range = time_range * search_range_multiplier in
      let next = λ (project : Bytes).
        attempts cache rounds time_range (expand time_range (with_project cl_data project)) in
      or_retry next (find_build_in_range cache cl_data)

  unfoldable pub find_build_exponential : Gitiles → ℕ → ClData → Outcome ChangelogError Bytes
  find_build_exponential gitiles_client rounds cl_data = do
    manifest_commits ← map_fail (manifest_error cl_data) (
        commits fuel gitiles_client request.manifest_repo (codes "refs/heads/" ++ cl_data.release)
          [] unlimited)
    oldest ← or_panic (last_commit manifest_commits.0)
    oldest_date ← or_panic oldest.committer
    instance_url ←
        or_else internal_server_error
          (create_gerrit_url services.find_submatch request.gitiles_host)
    gerrit_client ← or_else internal_server_error (services.gerrit instance_url)
    tag_infos ← or_else internal_server_error (gerrit_client.list_tags request.manifest_repo)
    attempts
        (record {
          gitiles_client = gitiles_client;
          manifest_commits = manifest_commits.0;
          tags = tags_of tag_infos [];
        })
        rounds default_search_range (first_range oldest_date cl_data)

-- `rounds` bounds the number of attempts, `fuel` the pages of a list of commits.
unfoldable pub find_build :
    Services → (fuel rounds : ℕ) → BuildRequest → Outcome ChangelogError BuildResponse
find_build services fuel rounds request = do
  gitiles_client ← or_else internal_server_error (services.gitiles request.gitiles_host)
  cl_data ← get_cl_data services request.cl request.gerrit_host
  build_num ← find_build_exponential services fuel request gitiles_client rounds cl_data
  done (record { build_num = build_num; cl_num = cl_data.cl_num })
