-- ===== src/Changelog/Run/Missing.antt =====
-- The error of a change log where neither manifest can be downloaded.
use cos_tools.Base.{ℕ, ◌&&◌, some, ◌≡◌, refl, Bool-cases, inl, inr, if◌then◌else◌}
use cos_tools.Base.Outcome.{fail}
use cos_tools.Text.{Bytes, codes, eqb}
use cos_tools.Text.Equal.{eqb-eq-true}
use cos_tools.Gob.Errors.{GoError, build_not_found, both_builds_not_found, gitiles_err_code}
use cos_tools.Gob.Commits.{Gitiles, QuerySize, download_manifest}
use cos_tools.Changelog.Names.{resolve_image_name}
use cos_tools.Changelog.Repos.{download_error, mapped_manifest, gitiles_client}
use cos_tools.Changelog.Run.{Services, is_404, both_manifests, changelog}

is_404-download_error :
    (build_input : Bytes) (e : GoError)
    → is_404 (download_error build_input e) ≡ eqb (gitiles_err_code e) (codes "404")
unfolding eqb build_not_found
is_404-download_error build_input e = elim (Bool-cases (eqb (gitiles_err_code e) (codes "403"))) [
  | inl forbidden ↦ rw (eqb-eq-true (gitiles_err_code e) (codes "403") forbidden) refl
  | inr other ↦ elim (Bool-cases (eqb (gitiles_err_code e) (codes "404"))) [
    | inl missing ↦ rw (eqb-eq-true (gitiles_err_code e) (codes "404") missing) refl
    | inr not_missing ↦ rw (other, not_missing) refl
  ]
]

-- Where the host has a client and neither manifest can be downloaded, the error says that both
-- builds are not found exactly if both downloads have the code 404; else it is the error of the
-- source.
pub changelog_unavailable :
    (services : Services) (fuel : ℕ) (source target host repo crosland_url : Bytes)
    (query_size : QuerySize) (client : Gitiles) (e f : GoError)
    → services.gitiles host ≡ some client
    → download_manifest client repo (resolve_image_name source) ≡ fail e
    → download_manifest client repo (resolve_image_name target) ≡ fail f
    → changelog services fuel source target host repo crosland_url query_size
      ≡ fail (
          if eqb (gitiles_err_code e) (codes "404") && eqb (gitiles_err_code f) (codes "404")
          then both_builds_not_found crosland_url source target
              (resolve_image_name source)
              (resolve_image_name target)
          else download_error source e)
unfolding changelog gitiles_client mapped_manifest both_manifests
changelog_unavailable services fuel source target host repo crosland_url query_size client e f here
      he hf =
    elim (Bool-cases
      (eqb (gitiles_err_code e) (codes "404") && eqb (gitiles_err_code f) (codes "404"))) [
        | inl both ↦
            rw (here, he, hf, is_404-download_error source e, is_404-download_error target f, both)
              refl
        | inr one ↦
            rw (here, he, hf, is_404-download_error source e, is_404-download_error target f, one)
              refl
      ]
