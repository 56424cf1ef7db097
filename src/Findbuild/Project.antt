-- ===== src/Findbuild/Project.antt =====
-- The commit of the changed repository in the manifest of a build (function manifestData of
-- pkg/findbuild/findbuild.go).
use cos_tools.Base.{◌&&◌, ◌||◌, Option, none, some, List, [], ◌∷◌, length, drop, ltb, if◌then◌else◌}
use cos_tools.Base.Outcome.{Outcome, stuck, panic, fail, done, ◌>>=◌}
use cos_tools.Text.{Bytes, codes, eqb, contains}
use cos_tools.Maps.{Table}
use cos_tools.Gob.Errors.{ChangelogError, GoError}
use cos_tools.Gob.Commits.{Gitiles, download_manifest, is_blank}
use cos_tools.Gob.Manifest.{Tag, Document, XmlReader, attr, attr_value, get, remote_urls}

-- `manifestResponse` without `Err`; a response with an error is `none`.
pub record ManifestResponse : Type 0 where
  pub build_num : Bytes
  pub repo : Bytes
  pub sha : Bytes
  pub remote_url : Bytes

abbrev pub no_sha : Bytes → ManifestResponse
no_sha build_num = record { build_num = build_num; repo = []; sha = []; remote_url = [] }

abbrev pub or_second : Bytes → Bytes → Bytes
or_second [] second = second
or_second (c ∷ s) second = c ∷ s

-- `branch[11:]`, which panics on a shorter branch; an empty one is kept.
abbrev pub strip_heads : {E : Type 0} → Bytes → Outcome E Bytes
strip_heads branch =
    if is_blank branch
    then done branch
    else if ltb (length branch) 11
    then panic
    else done (drop 11 branch)

abbrev pub branch_of : Tag → Bytes
branch_of project =
    or_second (attr_value (codes "upstream") project) (attr_value (codes "dest-branch") project)

module _ (remote_map : Table Bytes) (cl_branch : Bytes) where
  -- The project of the change is replaced by each repository that matches it.
  unfoldable pub pick_project :
      List Tag → ManifestResponse → Bytes → Outcome ChangelogError (ManifestResponse × Bytes)
  pick_project [] output cl_project = done (output, cl_project)
  pick_project (project ∷ projects) output cl_project = do
    repo ← attr (codes "name") project
    branch ← strip_heads (branch_of project)
    let rest = pick_project projects
    if contains cl_project repo && (is_blank branch || eqb branch cl_branch)
        then (attr (codes "revision") project >>= λ sha.
            rest
              (record {
                build_num = output.build_num;
                repo = repo;
                sha = sha;
                remote_url = get (attr_value (codes "remote") project) remote_map;
              })
              repo)
        else rest output cl_project

abbrev pub if_complete : ManifestResponse → ManifestResponse
if_complete output =
    if is_blank output.sha || is_blank output.remote_url then no_sha output.build_num else output

module _ (read_xml : XmlReader) (client : Gitiles) (manifest_repo cl_branch : Bytes) where
  unfoldable pub read_root :
      (build_num cl_project : Bytes)
      → Option (Option Document)
      → Outcome ChangelogError (Option ManifestResponse × Bytes)
  read_root build_num cl_project none = done (none, cl_project)
  read_root build_num cl_project (some none) = panic
  read_root build_num cl_project (some (some root)) = do
    remote_map ← remote_urls root
    result ← pick_project remote_map cl_branch root.projects (no_sha build_num) cl_project
    done (some (if_complete result.0), result.1)

  unfoldable pub read_contents :
      (build_num cl_project : Bytes)
      → Bytes
      → Outcome ChangelogError (Option ManifestResponse × Bytes)
  read_contents build_num cl_project [] = done (some (no_sha build_num), cl_project)
  read_contents build_num cl_project (c ∷ s) = read_root build_num cl_project (read_xml (c ∷ s))

  abbrev pub read_response :
      (build_num cl_project : Bytes)
      → Outcome GoError Bytes
      → Outcome ChangelogError (Option ManifestResponse × Bytes)
  read_response build_num cl_project stuck = stuck
  read_response build_num cl_project panic = panic
  read_response build_num cl_project (fail e) = done (none, cl_project)
  read_response build_num cl_project (done contents) = read_contents build_num cl_project contents

  -- The response for a build, with the project of the change as it is left.
  unfoldable pub manifest_data :
      (build_num cl_project : Bytes) → Outcome ChangelogError (Option ManifestResponse × Bytes)
  manifest_data build_num cl_project =
      read_response build_num cl_project (download_manifest client manifest_repo build_num)
