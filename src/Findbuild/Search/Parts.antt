-- ===== src/Findbuild/Search/Parts.antt =====
-- The steps of an attempt end where the servers answer.
use cos_tools.Base.{
  ℕ, zero, suc, Bool, true, false, ◌&&◌, ◌||◌, Option, none, some, List, [], ◌∷◌, length, get_elem?,
  ltb, leb, Bool-cases, inl, inr, if◌then◌else◌,
}
use cos_tools.Base.Outcome.{Outcome}
use cos_tools.Base.Yields.{
  Yields, panics, fails, gives, Ends, Yields-bind, Yields-or_panic, Yields-or_else, Yields-fail_if,
}
use cos_tools.Text.{Bytes, codes, eqb, contains}
use cos_tools.Maps.{Table, lookup}
use cos_tools.Gob.Errors.{ChangelogError, GoError, internal_server_error}
use cos_tools.Gob.Commits.{
  Commit, FileRequest, Gitiles, QuerySize, download_manifest, commits, is_blank,
}
use cos_tools.Gob.Manifest.{Tag, Document, XmlReader, attr, map_remotes, remote_urls}
use cos_tools.Findbuild.Types.{ClData}
use cos_tools.Findbuild.Builds.{build_num_of, build_nums_of, candidate_build_nums}
use cos_tools.Findbuild.Project.{
  ManifestResponse, strip_heads, branch_of, pick_project, read_root, read_contents, read_response,
  manifest_data,
}
use cos_tools.Findbuild.Repo.{run_manifests, get_repo_data, none_found}
use cos_tools.Findbuild.First.{found_or, candidate_at, scan, scan_from, first_build}

-- A server whose lists of commits end within the fuel.
pub record Answers (fuel : ℕ) (client : Gitiles) : Type 0 where
  pub log_lem :
      (repo committish ancestor : Bytes) (size : QuerySize)
      → Ends (commits fuel client repo committish ancestor size)
  pub file_lem : (request : FileRequest) → Ends (client.download_file request)

build_num_of-Ends : (m : Table Bytes) (c : Commit) → Ends (build_num_of m c)
unfolding build_num_of
build_num_of-Ends m c =
    Yields-bind _ (Yields-or_else internal_server_error tt (lookup c.id m)) (λ tag _.
      Yields-bind _ (Yields-fail_if (leb (length tag) 10) internal_server_error tt)
        (λ _ _. gives tt))

build_nums_of-Ends : (m : Table Bytes) (cs : List Commit) → Ends (build_nums_of m cs)
unfolding build_nums_of
build_nums_of-Ends m [] = gives tt
build_nums_of-Ends m (c ∷ cs) =
    Yields-bind _ (build_num_of-Ends m c)
      (λ _ _. Yields-bind _ (build_nums_of-Ends m cs) (λ _ _. gives tt))

pub candidate_build_nums-Ends :
    (cs : List Commit) (tags : Table Bytes) → Ends (candidate_build_nums cs tags)
unfolding candidate_build_nums
candidate_build_nums-Ends cs tags = build_nums_of-Ends _ cs

attr-Ends : (name : Bytes) (tag : Tag) → Ends {E = ChangelogError} (attr name tag)
attr-Ends name tag = Yields-or_panic (lookup name tag)

map_remotes-Ends :
    (tags : List Tag) (m : Table Bytes) → Ends {E = ChangelogError} (map_remotes tags m)
unfolding map_remotes
map_remotes-Ends [] m = gives tt
map_remotes-Ends (tag ∷ tags) m =
    Yields-bind _ (attr-Ends (codes "fetch") tag)
      (λ _ _. Yields-bind _ (attr-Ends (codes "name") tag) (λ _ _. map_remotes-Ends tags _))

remote_urls-Ends : (root : Document) → Ends {E = ChangelogError} (remote_urls root)
unfolding remote_urls
remote_urls-Ends root =
    Yields-bind _ (map_remotes-Ends root.remotes [])
      (λ _ _. Yields-bind _ (Yields-or_panic root.default_tag) (λ _ _. gives tt))

strip_heads-Ends : (branch : Bytes) → Ends {E = ChangelogError} (strip_heads branch)
strip_heads-Ends [] = gives tt
strip_heads-Ends (c ∷ s) = elim (Bool-cases (ltb (length (c ∷ s)) 11)) [
  | inl e ↦ rw e panics
  | inr e ↦ rw e (gives tt)
]

pick_project-Ends :
    (m : Table Bytes) (branch : Bytes) (tags : List Tag) (output : ManifestResponse)
    (project : Bytes)
    → Ends (pick_project m branch tags output project)
unfolding pick_project
pick_project-Ends m branch [] output project = gives tt
pick_project-Ends m branch (tag ∷ tags) output project =
    Yields-bind _ (attr-Ends (codes "name") tag) (λ repo _.
      Yields-bind _ (strip_heads-Ends (branch_of tag)) (λ own _.
        elim (Bool-cases (contains project repo && (is_blank own || eqb own branch))) [
          | inl e ↦ rw e (
              Yields-bind _ (attr-Ends (codes "revision") tag)
                (λ _ _. pick_project-Ends m branch tags _ repo))
          | inr e ↦ rw e (pick_project-Ends m branch tags output project)
        ]))

module _ (read_xml : XmlReader) (fuel : ℕ) (client : Gitiles) (a : Answers fuel client)
    (manifest_repo branch : Bytes) where
  read_root-Ends :
      (build_num project : Bytes) (o : Option (Option Document))
      → Ends (read_root read_xml client manifest_repo branch build_num project o)
  unfolding read_root
  read_root-Ends build_num project none = gives tt
  read_root-Ends build_num project (some none) = panics
  read_root-Ends build_num project (some (some root)) =
      Yields-bind _ (remote_urls-Ends root) (λ m _.
        Yields-bind _ (pick_project-Ends m branch root.projects _ project) (λ _ _. gives tt))

  read_contents-Ends :
      (build_num project contents : Bytes)
      → Ends (read_contents read_xml client manifest_repo branch build_num project contents)
  unfolding read_contents
  read_contents-Ends build_num project [] = gives tt
  read_contents-Ends build_num project (c ∷ s) = read_root-Ends build_num project _

  read_response-Ends :
      (build_num project : Bytes) {o : Outcome GoError Bytes}
      → Ends o
      → Ends (read_response read_xml client manifest_repo branch build_num project o)
  read_response-Ends build_num project panics = panics
  read_response-Ends build_num project (fails _) = gives tt
  read_response-Ends build_num project (gives _) = read_contents-Ends build_num project _

  pub manifest_data-Ends :
      (build_num project : Bytes)
      → Ends (manifest_data read_xml client manifest_repo branch build_num project)
  unfolding manifest_data download_manifest
  manifest_data-Ends build_num project = read_response-Ends build_num project (a.file_lem _)

either-Ends :
    {A : Type 0} (b : Bool) (x y : Outcome ChangelogError A × Bytes)
    → Ends x.0
    → Ends y.0
    → Ends (if b then x else y).0
either-Ends true x y hx hy = hx
either-Ends false x y hx hy = hy

module _
    (manifest_data : (build_num cl_project : Bytes)
      → Outcome ChangelogError (Option ManifestResponse × Bytes))
    (ends : (build_num cl_project : Bytes) → Ends (manifest_data build_num cl_project)) where
  run_manifests-Ends :
      (build_nums : List Bytes) (project : Bytes)
      → Ends (run_manifests manifest_data build_nums project)
  unfolding run_manifests
  run_manifests-Ends [] project = gives tt
  run_manifests-Ends (b ∷ bs) project =
      Yields-bind _ (ends b project)
        (λ first _. Yields-bind _ (run_manifests-Ends bs first.1) (λ _ _. gives tt))

  pub get_repo_data-Ends :
      (schedule : List Bytes → List Bytes) (cl_data : ClData) (build_nums : List Bytes)
      → Yields
          (λ _. Unit)
          (λ found. Ends found.0)
          (get_repo_data manifest_data schedule cl_data build_nums)
  unfolding get_repo_data
  get_repo_data-Ends schedule cl_data build_nums =
      Yields-bind _ (run_manifests-Ends (schedule build_nums) cl_data.project)
        (λ _ _. gives (either-Ends (none_found _) _ _ (fails tt) (gives tt)))

module _ (changelog : List Commit) (cl_data : ClData) (candidates : Table Bytes) where
  found_or-Ends :
      (next : Outcome ChangelogError Bytes) (o : Option Bytes) → Ends next → Ends (found_or next o)
  found_or-Ends next none h = h
  found_or-Ends next (some b) h = gives tt

  candidate_at-Ends : (i : ℕ) → Ends (candidate_at changelog candidates i)
  candidate_at-Ends i = Yields-bind _ (Yields-or_panic (get_elem? changelog i)) (λ _ _. gives tt)

  scan-Ends : (i : ℕ) → Ends (scan changelog cl_data candidates i)
  unfolding scan
  scan-Ends zero = Yields-bind _ (candidate_at-Ends 0) (λ o _. found_or-Ends _ o (fails tt))
  scan-Ends (suc i) =
      Yields-bind _ (candidate_at-Ends (suc i)) (λ o _. found_or-Ends _ o (scan-Ends i))

  scan_from-Ends : (o : Option ℕ) → Ends (scan_from changelog cl_data candidates o)
  scan_from-Ends none = fails tt
  scan_from-Ends (some i) = scan-Ends i

  pub first_build-Ends : Ends (first_build changelog cl_data candidates)
  unfolding first_build
  first_build-Ends = scan_from-Ends _
