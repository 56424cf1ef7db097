-- ===== src/Changelog/Repos.antt =====
-- The repositories of a build (functions repoMap, mappedManifest and createGitilesClients of
-- pkg/changelog/changelog.go).
use cos_tools.Base.{Option, none, some, List, [], ◌∷◌, if◌then◌else◌}
use cos_tools.Base.Outcome.{Outcome, panic, fail, done, ◌>>=◌, map_fail, or_else}
use cos_tools.Text.{Bytes, codes, eqb}
use cos_tools.Maps.{Table, lookup, store}
use cos_tools.Gob.Errors.{
  ChangelogError, GoError, forbidden_error, internal_server_error, build_not_found,
  gitiles_err_code,
}
use cos_tools.Gob.Commits.{Gitiles, download_manifest}
use cos_tools.Gob.Manifest.{Tag, Document, XmlReader, attr, attr_value, get, remote_urls}

pub record Repo : Type 0 where
  pub repo : Bytes
  pub path : Bytes
  pub instance_url : Bytes
  pub committish : Bytes

unfoldable pub add_projects : Table Bytes → List Tag → Table Repo → Outcome GoError (Table Repo)
add_projects remote_map [] repos = done repos
add_projects remote_map (project ∷ projects) repos = do
  name ← attr (codes "name") project
  revision ← attr (codes "revision") project
  let path = attr_value (codes "path") project
  add_projects remote_map projects (
      store path
        (record {
          repo = name;
          path = path;
          instance_url = get (attr_value (codes "remote") project) remote_map;
          committish = revision;
        })
        repos)

abbrev pub map_document : Option (Option Document) → Outcome GoError (Table Repo)
map_document none = fail none
map_document (some none) = panic
map_document (some (some root)) = do
  remote_map ← remote_urls root
  add_projects remote_map root.projects []

abbrev pub download_error : Bytes → GoError → ChangelogError
download_error build_input e =
    let http_code = gitiles_err_code e in
    if eqb http_code (codes "403")
    then forbidden_error
    else if eqb http_code (codes "404")
    then build_not_found build_input
    else internal_server_error

abbrev pub map_error : Bytes → GoError → ChangelogError
map_error build_input e =
    if eqb (gitiles_err_code e) (codes "404")
    then build_not_found build_input
    else internal_server_error

module _ (read_xml : XmlReader) where
  -- The errors of `repoMap` are none of a remote call.
  unfoldable pub repo_map : Bytes → Outcome GoError (Table Repo)
  repo_map [] = fail none
  repo_map (c ∷ s) = map_document (read_xml (c ∷ s))

  unfoldable pub mapped_manifest :
      Gitiles → (repo build_input build_num : Bytes) → Outcome ChangelogError (Table Repo)
  mapped_manifest client repo build_input build_num = do
    contents ← map_fail (download_error build_input) (download_manifest client repo build_num)
    map_fail (map_error build_input) (repo_map contents)

-- `gitiles` makes a client for a URL; `none` is an error.
module _ (gitiles : Bytes → Option Gitiles) where
  unfoldable pub gitiles_client : Bytes → Outcome ChangelogError Gitiles
  gitiles_client remote_url = or_else internal_server_error (gitiles remote_url)

  unfoldable pub create_gitiles_clients :
      Table Repo → Table Gitiles → Outcome ChangelogError (Table Gitiles)
  create_gitiles_clients [] clients = done clients
  create_gitiles_clients ((_, repo_data) ∷ repos) clients =
      let further = create_gitiles_clients repos in
      elim (lookup repo_data.instance_url clients) [
        | some client ↦ further clients
        | none ↦ gitiles_client repo_data.instance_url >>= λ client.
            further (store repo_data.instance_url client clients)
      ]
