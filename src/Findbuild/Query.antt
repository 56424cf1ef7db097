-- ===== src/Findbuild/Query.antt =====
-- The change that is asked for (functions queryString, queryCL and getCLData of
-- pkg/findbuild/findbuild.go).
use cos_tools.Base.{
  ℕ, ◌+◌, ◌*◌, ◌||◌, Option, none, some, List, [], ◌∷◌, ◌++◌, length, get_elem?, ◌==◌,
  if◌then◌else◌,
}
use cos_tools.Base.Outcome.{Outcome, fail, done, ◌>>=◌, map_fail, or_panic, or_else}
use cos_tools.Text.{Bytes, codes, eqb, format_uint}
use cos_tools.Maps.{Table, lookup}
use cos_tools.Gob.Errors.{
  ChangelogError, forbidden_error, internal_server_error, cl_not_found, cl_not_submitted,
  gerrit_err_code,
}
use cos_tools.Gob.Commits.{Gitiles}
use cos_tools.Gob.Urls.{Matcher}
use cos_tools.Gob.Manifest.{XmlReader}
use cos_tools.Findbuild.Types.{day, default_search_range, full_sha_length, ClData}
use cos_tools.Findbuild.Builds.{TagInfo}

pub record ChangeInfo : Type 0 where
  pub number : ℕ
  pub project : Bytes
  pub branch : Bytes
  pub current_revision : Bytes
  pub submitted : Option ℕ

-- A client of a Gerrit instance: the changes that match a query, at most one, or the text of the
-- error; and the tags of a repository.
pub record Gerrit : Type 0 where
  pub query_changes : Bytes → Outcome Bytes (List ChangeInfo)
  pub list_tags : Bytes → Option (List TagInfo)

-- What the build finder asks of others: the clients of the instances of Gitiles and of Gerrit, by
-- their URL; the packages regexp and etree; and the order in which the goroutines for the builds
-- run. `none` is an error of the call.
pub record Services : Type 0 where
  pub gitiles : Bytes → Option Gitiles
  pub gerrit : Bytes → Option Gerrit
  pub find_submatch : Matcher
  pub read_xml : XmlReader
  pub schedule : List Bytes → List Bytes

-- `clReleaseMapping`: the expression for the branch of a project, and the default release.
abbrev pub cl_release_mapping : Table (Bytes × Bytes)
cl_release_mapping =
    (codes "third_party/kernel", (codes "(.*)-cos-.*", codes "master"))
    ∷ (codes "chromiumos/third_party/kernel", (codes "(.*)-chromeos-.*", codes "master"))
    ∷ (codes "chromiumos/third_party/lakitu-kernel", (codes "(.*)-lakitu-.*", codes "master"))
    ∷ []

abbrev pub cros_repo_re : Bytes
cros_repo_re = codes "^(?:chromeos|chrome|chromiumos|chromium)?/(.*)"

unfoldable pub query_string : Bytes → Bytes
query_string cl_id =
    if length cl_id == full_sha_length then codes "commit:" ++ cl_id else codes "change:" ++ cl_id

abbrev pub query_error : Bytes → Bytes → ChangelogError
query_error cl_id text =
    let http_code = gerrit_err_code text in
    if eqb http_code (codes "403")
    then forbidden_error
    else if eqb http_code (codes "400") || eqb http_code (codes "404")
    then cl_not_found cl_id
    else internal_server_error

module _ (cl_id instance_url : Bytes) where
  -- The change, with the time of its submission.
  abbrev pub submitted_change : ChangeInfo → Option ℕ → Outcome ChangelogError (ChangeInfo × ℕ)
  submitted_change change none = fail (cl_not_submitted (format_uint change.number) instance_url)
  submitted_change change (some submitted) = done (change, submitted)

  abbrev pub first_change : List ChangeInfo → Outcome ChangelogError (ChangeInfo × ℕ)
  first_change [] = fail (cl_not_found cl_id)
  first_change (change ∷ _) = submitted_change change change.submitted

  unfoldable pub query_cl : Gerrit → Outcome ChangelogError (ChangeInfo × ℕ)
  query_cl client = do
    cl_list ← map_fail (query_error cl_id) (client.query_changes (query_string cl_id))
    first_change cl_list

module _ (find_submatch : Matcher) where
  -- The first group of a match, or another text where nothing matches.
  abbrev pub group_or : Bytes → Option (List Bytes) → Outcome ChangelogError Bytes
  group_or other none = done other
  group_or other (some matches) = or_panic (get_elem? matches 1)

  abbrev pub mapped_release : Bytes → Option (Bytes × Bytes) → Outcome ChangelogError Bytes
  mapped_release branch none = done branch
  mapped_release branch (some (release_re, default_release)) =
      group_or default_release (find_submatch release_re branch)

  unfoldable pub release_of : ChangeInfo → Outcome ChangelogError Bytes
  release_of change = do
    release ← mapped_release change.branch (lookup change.project cl_release_mapping)
    done (if eqb change.branch (codes "main") then codes "master" else release)

  unfoldable pub project_of : ChangeInfo → Outcome ChangelogError Bytes
  project_of change = group_or change.project (find_submatch cros_repo_re change.project)

unfoldable pub get_cl_data : Services → (cl_id instance_url : Bytes) → Outcome ChangelogError ClData
get_cl_data services cl_id instance_url = do
  client ← or_else internal_server_error (services.gerrit instance_url)
  found ← query_cl cl_id instance_url client
  let change = found.0
  release ← release_of services.find_submatch change
  project ← project_of services.find_submatch change
  done (record {
    cl_num = format_uint change.number;
    instance_url = instance_url;
    project = project;
    release = release;
    branch = change.branch;
    revision = change.current_revision;
    search_start_range = found.1;
    search_end_range = found.1 + default_search_range * day;
  })
