-- ===== src/Findbuild/Search/Found.antt =====
-- What an attempt answers behind the manifests, from a server that hands out the changelog (function
-- findBuildInRange of pkg/findbuild/findbuild.go).
use cos_tools.Base.{ℕ, ◌<◌, Bool, false, List, [], ◌∷◌, ◌++◌, length, All, ◌≡◌, refl, ap}
use cos_tools.Base.Outcome.{map_fail, or_else}
use cos_tools.Text.{Bytes}
use cos_tools.Text.Equal.{eqb_refl}
use cos_tools.Gob.Commits.{Commit, unlimited, is_blank}
use cos_tools.Gob.Commits.Pages.{Serves, commits_unlimited}
use cos_tools.Findbuild.Types.{BuildRequest, ClData}
use cos_tools.Findbuild.Query.{Services}
use cos_tools.Findbuild.Repo.{RepoData}
use cos_tools.Findbuild.First.{landing_not_found}
use cos_tools.Findbuild.First.Scan.{LacksRevision, oldest_build, first_build_lem}
use cos_tools.Findbuild.Search.{IterCache, failed, changelog_size, find_in_changelog}

changelog_size_lem :
    (source_sha : Bytes) → is_blank source_sha ≡ false → changelog_size source_sha ≡ unlimited
changelog_size_lem [] h = cc
changelog_size_lem (c ∷ s) h = refl

module _ (services : Services) (fuel : ℕ) (request : BuildRequest) (cache : IterCache)
    (can_expand : Bool) (cl_data : ClData) (repo_data : RepoData) where
  -- Where a target and a source are given and the URL is that of the host, from a server that
  -- hands out in full pages a changelog of fewer commits than the fuel, in which no commit behind
  -- one with the revision of the change has that revision, an attempt answers with the build of
  -- the oldest commit that has one, from the commit of the change on towards the newer ones, and
  -- without one with the error that no build was found.
  pub find_in_changelog_lem :
      (cl : Commit) (newer older : List Commit)
      → is_blank repo_data.target_sha ≡ false
      → is_blank repo_data.source_sha ≡ false
      → repo_data.remote_url ≡ request.gitiles_host
      → Serves cache.gitiles_client cl_data.project repo_data.target_sha repo_data.source_sha
          (newer ++ (cl ∷ older))
      → length (newer ++ (cl ∷ older)) < fuel
      → cl.id ≡ cl_data.revision
      → All (LacksRevision cl_data.revision) older
      → find_in_changelog services fuel request cache can_expand cl_data repo_data
        ≡ map_fail (failed can_expand cl_data.project) (
            or_else
              (landing_not_found cl_data)
              (oldest_build repo_data.candidates (newer ++ (cl ∷ []))))
  unfolding find_in_changelog
  find_in_changelog_lem cl newer older target source here serves enough same lacks =
      rw
        (
          target,
          here,
          eqb_refl request.gitiles_host,
          changelog_size_lem repo_data.source_sha source,
          commits_unlimited cache.gitiles_client cl_data.project repo_data.target_sha
              repo_data.source_sha serves fuel enough,
        )
        (ap (map_fail (failed can_expand cl_data.project))
          (first_build_lem cl_data repo_data.candidates cl newer older same lacks))
