-- ===== src/Findbuild/Tests.antt =====
-- The theorems about the build finder at concrete inputs.
use cos_tools.Base.{
  ◌*◌, ◌<◌, ◌-◌, true, false, Option, none, some, List, [], ◌∷◌, ◌++◌, length, take, drop, ◌≡◌, ◌≢◌,
  subst, refl, ltb, arith,
}
use mathlib.Core.Option.{some-injective}
use cos_tools.Base.Outcome.{map_fail, done, fail, or_else}
use cos_tools.Base.Yields.{gives, fails, Ends}
use cos_tools.Text.{Bytes, codes, eqb}
use cos_tools.Maps.{Table, lookup, store}
use cos_tools.Gob.Errors.{cl_not_used, internal_server_error}
use cos_tools.Gob.Commits.{
  Commit, Gitiles, QuerySize, at_most, unlimited, below, next_commits, commits_from, commits,
}
use cos_tools.Gob.Sample.{commit, paged_server, paged_server-Serves}
use cos_tools.Findbuild.Search.Found.{find_in_changelog_lem}
use cos_tools.Findbuild.Types.{day, BuildRequest, ClData}
use cos_tools.Findbuild.Query.{Services}
use cos_tools.Findbuild.Range.{candidate_manifest_commits}
use cos_tools.Findbuild.Range.Window.{candidate_manifest_commits_lem}
use cos_tools.Findbuild.Builds.{turn_around, build_num_of, build_nums_of, candidate_build_nums}
use cos_tools.Findbuild.Project.{ManifestResponse}
use cos_tools.Findbuild.Repo.{RepoData, build_places, place, empty_progress, collect}
use cos_tools.Findbuild.Repo.Found.{target-newest, candidate-oldest}
use cos_tools.Findbuild.First.{landing_not_found}
use cos_tools.Findbuild.First.Scan.{oldest_build}
use cos_tools.Findbuild.Search.{
  IterCache, failed, find_build_in_range, find_build_exponential, find_in_changelog,
}
use cos_tools.Findbuild.Search.Parts.{Answers}
use cos_tools.Findbuild.Search.Ending.{find_build_exponential-Ends}
use cos_tools.Findbuild.Search.Untagged.{untagged}

abbrev change : ClData
change = record {
  cl_num = codes "3741";
  instance_url = codes "https://cos-review.googlesource.com";
  project = codes "third_party/kernel";
  release = codes "master";
  branch = codes "main";
  revision = codes "r2";
  search_start_range = 10 * day;
  search_end_range = 15 * day;
}

abbrev later : List Commit
later = commit (codes "m5") (40 * day) ∷ commit (codes "m4") (20 * day) ∷ []

abbrev inside : List Commit
inside = commit (codes "m3") (12 * day) ∷ []

abbrev earlier : List Commit
earlier = commit (codes "m2") (9 * day) ∷ commit (codes "m1") (8 * day) ∷ []

candidate_manifest_commits_example :
    candidate_manifest_commits (later ++ (inside ++ earlier)) change
    ≡ done (drop (length later - 1) later ++ (inside ++ take 1 earlier), ltb 1 (length later))
candidate_manifest_commits_example =
    candidate_manifest_commits_lem change later inside earlier
      ((40 * day, refl, omega arith), ((20 * day, refl, omega arith), tt))
      ((12 * day, refl, omega arith, omega arith), tt)
      ((9 * day, refl, omega arith), ((8 * day, refl, omega arith), tt)) (omega arith) (omega arith)

abbrev response : Bytes → Bytes → ManifestResponse
response build_num sha = record {
  build_num = build_num;
  repo = codes "cos/third_party/kernel";
  sha = sha;
  remote_url = codes "cos.googlesource.com";
}

abbrev builds : List Bytes
builds = codes "16000.3.0" ∷ codes "16000.2.0" ∷ codes "16000.1.0" ∷ []

abbrev newest : ManifestResponse
newest = response (codes "16000.3.0") (codes "r3")

abbrev middle : ManifestResponse
middle = response (codes "16000.2.0") (codes "r3")

abbrev oldest : ManifestResponse
oldest = response (codes "16000.1.0") (codes "r1")

newest-middle :
    place (build_places 0 builds []) (codes "16000.3.0")
    < place (build_places 0 builds []) (codes "16000.2.0")
unfolding build_places place lookup store eqb
newest-middle = omega arith

middle-oldest :
    place (build_places 0 builds []) (codes "16000.2.0")
    < place (build_places 0 builds []) (codes "16000.1.0")
unfolding build_places place lookup store eqb
middle-oldest = omega arith

newest-oldest :
    place (build_places 0 builds []) (codes "16000.3.0")
    < place (build_places 0 builds []) (codes "16000.1.0")
newest-oldest = omega (arith, newest-middle, middle-oldest)

r1-ne-r3 : codes "r1" ≢ codes "r3"
unfolding eqb
r1-ne-r3 same = let test : false ≡ true = subst (λ t. eqb t (codes "r1") ≡ true) same refl in cc

r1-ne-r2 : codes "r1" ≢ codes "r2"
unfolding eqb
r1-ne-r2 same = let test : false ≡ true = subst (λ t. eqb t (codes "r1") ≡ true) same refl in cc

abbrev arrived : List (Option ManifestResponse)
arrived = some middle ∷ none ∷ some newest ∷ some oldest ∷ []

target-newest_example :
    ((collect
        (build_places 0 builds [])
        arrived
        (empty_progress builds (codes "kernel"))).output.target_sha
      ≡ codes "r3")
    × ((collect
          (build_places 0 builds [])
          arrived
          (empty_progress builds (codes "kernel"))).output.remote_url
        ≡ codes "cos.googlesource.com")
target-newest_example =
    target-newest builds (codes "kernel") (some middle ∷ none ∷ []) (some oldest ∷ []) newest
      (omega arith) (newest-middle, (tt, tt)) (newest-oldest, tt)

-- The commit r3 is in two builds.
candidate-oldest_example :
    lookup
      (codes "r3")
      (collect
        (build_places 0 builds [])
        arrived
        (empty_progress builds (codes "kernel"))).output.candidates
    ≡ some (codes "16000.2.0")
candidate-oldest_example =
    candidate-oldest builds (codes "kernel") [] (none ∷ some newest ∷ some oldest ∷ []) middle tt
      (tt, ((λ _. newest-middle), ((λ same. absurd (r1-ne-r3 same)), tt)))

abbrev at : Bytes → Commit
at id = commit id (12 * day)

abbrev candidates : Table Bytes
candidates = (codes "r3", codes "16000.2.0") ∷ (codes "r5", codes "16000.3.0") ∷ []

abbrev newer : List Commit
newer = at (codes "r5") ∷ at (codes "r4") ∷ at (codes "r3") ∷ []

abbrev older : List Commit
older = at (codes "r1") ∷ []

-- A server that hands out the whole history at once, and no file.
abbrev server : List Commit → Gitiles
server history = record {
  get_log = λ _. done (record { log = history; next_page_token = [] });
  download_file = λ _. fail none;
}

abbrev services : List Commit → Services
services history = record {
  gitiles = λ _. some (server history);
  gerrit = λ _. none;
  find_submatch = λ _ _. none;
  read_xml = λ _. none;
  schedule = λ builds. builds;
}

commits_end :
    (history : List Commit) (repo committish ancestor : Bytes) (size : QuerySize)
    → Ends (commits 1 (server history) repo committish ancestor size)
unfolding commits commits_from next_commits
commits_end history repo committish ancestor (at_most n) = gives tt
commits_end history repo committish ancestor unlimited = gives tt
commits_end history repo committish ancestor below = fails tt

answers : (history : List Commit) → Answers 1 (server history)
answers history = record { log_lem = commits_end history; file_lem = λ _. fails tt }

abbrev request : BuildRequest
request = record {
  gerrit_host = codes "https://cos-review.googlesource.com";
  gitiles_host = codes "cos.googlesource.com";
  manifest_repo = codes "cos/manifest-snapshots";
  cl = codes "3741";
}

find_build_exponential-Ends_example : Ends (
    find_build_exponential
      (services (later ++ inside))
      1
      request
      (server (later ++ inside))
      3
      change)
unfolding commits commits_from next_commits
find_build_exponential-Ends_example =
    find_build_exponential-Ends (services (later ++ inside)) 1 request
      (λ url client same. subst (Answers 1) (some-injective _ _ same) (answers (later ++ inside)))
      (server (later ++ inside)) (answers (later ++ inside)) 3 (40 * day) change (omega arith)
      (omega arith) (gives (omega arith, (omega arith, (omega arith, tt))))

abbrev cache : IterCache
cache = record {
  gitiles_client = server [];
  manifest_commits = later ++ (inside ++ earlier);
  tags = [];
}

untagged_example :
    find_build_in_range (services []) 1 request cache change
    ≡ fail (
        failed true change.project
          (cl_not_used change.cl_num change.project change.release change.instance_url))
unfolding candidate_build_nums build_nums_of build_num_of turn_around lookup
untagged_example =
    untagged (services []) 1 request cache change (drop 1 later ++ (inside ++ take 1 earlier)) true
      internal_server_error candidate_manifest_commits_example refl refl

abbrev kernel_cache : IterCache
kernel_cache = record {
  gitiles_client = paged_server (newer ++ (at (codes "r2") ∷ older));
  manifest_commits = [];
  tags = [];
}

abbrev kernel_data : RepoData
kernel_data = record {
  candidates = candidates;
  source_sha = codes "r0";
  target_sha = codes "r5";
  remote_url = codes "cos.googlesource.com";
}

find_in_changelog_example :
    find_in_changelog (services []) 6 request kernel_cache true change kernel_data
    ≡ map_fail (failed true change.project) (
        or_else
          (landing_not_found change)
          (oldest_build candidates (newer ++ (at (codes "r2") ∷ []))))
find_in_changelog_example =
    find_in_changelog_lem (services []) 6 request kernel_cache true change kernel_data
      (at (codes "r2")) newer older refl refl refl
      (paged_server-Serves (newer ++ (at (codes "r2") ∷ older)) change.project (codes "r5")
        (codes "r0"))
      (omega arith) refl (r1-ne-r2, tt)
