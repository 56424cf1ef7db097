-- ===== src/Changelog/Run.antt =====
-- The change log of two builds (function Changelog of pkg/changelog/changelog.go).
pub mod Missing
use cos_tools.Base.{ℕ, Bool, ◌&&◌, Option, List, [], ◌∷◌, if◌then◌else◌}
use cos_tools.Base.Outcome.{Outcome, stuck, panic, fail, done, ◌>>=◌}
use cos_tools.Text.{Bytes, codes, eqb}
use cos_tools.Maps.{Table, store}
use cos_tools.Gob.Errors.{ChangelogError, both_builds_not_found}
use cos_tools.Gob.Commits.{Gitiles, QuerySize}
use cos_tools.Gob.Manifest.{XmlReader}
use cos_tools.Changelog.Names.{resolve_image_name}
use cos_tools.Changelog.Repos.{Repo, mapped_manifest, gitiles_client, create_gitiles_clients}
use cos_tools.Changelog.Additions.{RepoLog, add_repos}

-- What the change log asks of others: the clients of the instances of Gitiles, by their URL; the
-- packages etree and time; and the order in which the goroutines for the repositories run.
pub record Services : Type 0 where
  pub gitiles : Bytes → Option Gitiles
  pub read_xml : XmlReader
  pub format_time : ℕ → Bytes
  pub schedule : Table Repo → List (Bytes × Repo)

abbrev pub is_404 : ChangelogError → Bool
is_404 e = eqb e.http_code (codes "404")

module _ (not_found : ChangelogError) where
  -- The manifests of both builds, or the error for the two.
  unfoldable pub both_manifests :
      (source target : Outcome ChangelogError (Table Repo))
      → Outcome ChangelogError (Table Repo × Table Repo)
  both_manifests stuck target = stuck
  both_manifests panic target = panic
  both_manifests (fail e) stuck = stuck
  both_manifests (fail e) panic = panic
  both_manifests (fail e) (fail f) = if is_404 e && is_404 f then fail not_found else fail e
  both_manifests (fail e) (done target) = fail e
  both_manifests (done source) target = target >>= λ target. done (source, target)

-- The new commits of the target, and those that only the source has.
unfoldable pub changelog :
    Services
    → (fuel : ℕ) → (source target host repo crosland_url : Bytes) → QuerySize
    → Outcome ChangelogError (Table RepoLog × Table RepoLog)
changelog services fuel source target host repo crosland_url query_size = do
  let source_build_num = resolve_image_name source
  let target_build_num = resolve_image_name target
  manifest_client ← gitiles_client services.gitiles host
  found ←
      both_manifests
        (both_builds_not_found crosland_url source target source_build_num target_build_num)
        (mapped_manifest services.read_xml manifest_client repo source source_build_num)
        (mapped_manifest services.read_xml manifest_client repo target target_build_num)
  source_clients ← create_gitiles_clients services.gitiles found.0 (store host manifest_client [])
  clients ← create_gitiles_clients services.gitiles found.1 source_clients
  missing ←
      add_repos services.format_time fuel clients found.1 found.0 query_size
        (services.schedule found.0) []
  added ←
      add_repos services.format_time fuel clients found.0 found.1 query_size
        (services.schedule found.1) []
  done (added, missing)
