-- ===== src/Changelog/Tests.antt =====
-- The theorems about the change log at concrete inputs.
use cos_tools.Base.{ℕ, true, false, ◌&&◌, none, some, List, [], ◌∷◌, ◌++◌, ◌≡◌, refl, if◌then◌else◌}
use cos_tools.Base.Outcome.{done, fail}
use cos_tools.Text.{Bytes, Lacks, codes, eqb, split, has_prefix, is_digit}
use cos_tools.Maps.{Table, lookup}
use cos_tools.Gob.Errors.{GoError, not_found, both_builds_not_found, gitiles_err_code}
use cos_tools.Gob.Commits.{
  Commit, Gitiles, unlimited, commits, commits_from, next_commits, download_manifest,
}
use cos_tools.Changelog.Names.{image_build, resolve_image_name}
use cos_tools.Changelog.Names.Resolved.{beta, resolve_image_name_lem}
use cos_tools.Changelog.Repos.{Repo, download_error}
use cos_tools.Changelog.Sysctl.{Storage, Build, is_among, sysctl_path, get_sysctl_diff}
use cos_tools.Changelog.Sysctl.Diff.{row_of}
use cos_tools.Changelog.Sysctl.Changes.{get_sysctl_diff_lem}
use cos_tools.Changelog.Sysctl.Recorded.{recorded}
use cos_tools.Changelog.Sysctl.Report.{IsSorted}
use cos_tools.Changelog.Additions.{RepoLog, add_repos}
use cos_tools.Changelog.Additions.Answered.{Answer, entry, add_repos_lem}
use cos_tools.Changelog.Run.{Services, changelog}
use cos_tools.Changelog.Run.Missing.{changelog_unavailable}

resolve_image_name_example :
    resolve_image_name (codes "cos-beta-85-13310-1034-0") ≡ codes "13310.1034.0"
unfolding is_digit
resolve_image_name_example =
    resolve_image_name_lem (codes "13310") (codes "1034") (codes "0")
      (refl, (refl, (refl, (refl, (refl, tt))))) (refl, (refl, (refl, (refl, tt)))) (refl, tt) beta
      b'8' (codes "5") (refl, (refl, tt))

abbrev old_file : Bytes
old_file = codes "a.b = 1" ++ (10 ∷ (codes "c = 2" ++ (10 ∷ codes "kernel.version = 4")))

abbrev new_file : Bytes
new_file = codes "d = 7" ++ (10 ∷ codes "a.b = 1")

-- The files of two builds, told apart by their number.
abbrev storage : Storage
storage path =
    if eqb path (codes "b/lakitu-release/R85-1.0.0")
    then some old_file
    else if eqb path (codes "b/lakitu-release/R86-2.0.0")
    then some new_file
    else none

abbrev old_build : Build
old_build = record { board = codes "lakitu"; milestone = codes "85"; build = codes "1.0.0" }

abbrev new_build : Build
new_build = record { board = codes "lakitu"; milestone = codes "86"; build = codes "2.0.0" }

get_sysctl_diff_example :
    ((name : Bytes)
      → Lacks b' ' name
      → lookup name (get_sysctl_diff (some storage) (codes "b") old_build new_build).0
        ≡ row_of
            (recorded name (storage (sysctl_path (codes "b") old_build)))
            (recorded name (storage (sysctl_path (codes "b") new_build))))
    × IsSorted (get_sysctl_diff (some storage) (codes "b") old_build new_build).0
    × ((get_sysctl_diff (some storage) (codes "b") old_build new_build).1 ≡ (true, true))
unfolding sysctl_path resolve_image_name image_build is_among eqb split has_prefix
get_sysctl_diff_example =
    get_sysctl_diff_lem storage (codes "b") old_build new_build
      (codes "c", codes "2", ((λ e. cc), tt), refl) (codes "d", codes "7", ((λ e. cc), tt), refl)

abbrev kernel : Repo
kernel = record {
  repo = codes "third_party/kernel";
  path = codes "src/third_party/kernel";
  instance_url = codes "cos.googlesource.com";
  committish = codes "r2";
}

abbrev history : List Commit
history =
    record {
      id = codes "r2";
      author = none;
      committer = none;
      committer_name = [];
      message = codes "A change";
    }
    ∷ []

-- A server with one history, and no file.
abbrev server : GoError → Gitiles
server e = record {
  get_log = λ _. done (record { log = history; next_page_token = [] });
  download_file = λ _. fail e;
}

abbrev no_time : ℕ → Bytes
no_time _ = []

-- The client and the repositories.
abbrev clients : Table Gitiles
clients = (codes "cos.googlesource.com", server none) ∷ []

abbrev repos : Table Repo
repos = (codes "src/third_party/kernel", kernel) ∷ []

abbrev old_repos : Table Repo
old_repos = (codes "src/third_party/kernel", record kernel { committish = codes "r1" }) ∷ []

abbrev answer : Repo → Answer
answer r = some (history, false)

add_repos_example :
    (logs : Table RepoLog) × (add_repos no_time 1 clients old_repos repos unlimited repos []
      ≡ done logs)
    × ((repo_id : Bytes)
        → lookup repo_id logs
          ≡ entry no_time 1 clients old_repos repos unlimited answer (lookup repo_id repos))
unfolding commits commits_from next_commits lookup eqb
add_repos_example =
    add_repos_lem no_time 1 clients old_repos repos unlimited answer repos
      (((server none, refl, refl), refl, refl), tt) (refl, tt)

abbrev missing : GoError
missing = some (not_found, codes "no such file")

abbrev services : Services
services = record {
  gitiles = λ _. some (server missing);
  read_xml = λ _. none;
  format_time = no_time;
  schedule = λ repos. repos;
}

changelog_unavailable_example :
    changelog services 1
      (codes "1.0.0")
      (codes "2.0.0")
      (codes "cos.googlesource.com")
      (codes "cos/manifest-snapshots")
      (codes "https://crosland")
      unlimited
    ≡ fail (
        if eqb (gitiles_err_code missing) (codes "404")
          && eqb (gitiles_err_code missing) (codes "404")
        then both_builds_not_found
            (codes "https://crosland")
            (codes "1.0.0")
            (codes "2.0.0")
            (resolve_image_name (codes "1.0.0"))
            (resolve_image_name (codes "2.0.0"))
        else download_error (codes "1.0.0") missing)
unfolding download_manifest
changelog_unavailable_example =
    changelog_unavailable services 1 (codes "1.0.0") (codes "2.0.0") (codes "cos.googlesource.com")
      (codes "cos/manifest-snapshots") (codes "https://crosland") unlimited (server missing) missing
      missing refl refl refl
