-- ===== src/Findbuild/Search/Untagged.antt =====
-- What an attempt answers where a candidate commit has no tag (function findBuildInRange of
-- pkg/findbuild/findbuild.go).
use cos_tools.Base.{ℕ, Bool, List, [], ◌≡◌, refl}
use cos_tools.Base.Outcome.{fail, done}
use cos_tools.Gob.Errors.{ChangelogError, cl_not_used}
use cos_tools.Gob.Commits.{Commit}
use cos_tools.Findbuild.Types.{BuildRequest, ClData}
use cos_tools.Findbuild.Query.{Services}
use cos_tools.Findbuild.Range.{candidate_manifest_commits}
use cos_tools.Findbuild.Builds.{candidate_build_nums}
use cos_tools.Findbuild.Repo.{run_manifests, collect, get_repo_data}
use cos_tools.Findbuild.Search.{IterCache, failed, find_build_in_range}

-- Where the candidate commits are found and one of them has no usable tag, so that no list of
-- build numbers is returned, the attempt answers that the change is not used, and not the error
-- of the builds, if no goroutine is made up.
pub untagged :
    (services : Services) (fuel : ℕ) (request : BuildRequest) (cache : IterCache) (cl_data : ClData)
    (window : List Commit) (can_expand : Bool) (error : ChangelogError)
    → candidate_manifest_commits cache.manifest_commits cl_data ≡ done (window, can_expand)
    → candidate_build_nums window cache.tags ≡ fail error
    → services.schedule [] ≡ []
    → find_build_in_range services fuel request cache cl_data
      ≡ fail (
          failed can_expand cl_data.project
            (cl_not_used cl_data.cl_num cl_data.project cl_data.release cl_data.instance_url))
unfolding find_build_in_range get_repo_data run_manifests collect
untagged services fuel request cache cl_data window can_expand error found refused none_run =
    rw (found, refused, none_run) refl
