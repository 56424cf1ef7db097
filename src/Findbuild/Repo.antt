-- ===== src/Findbuild/Repo.antt =====
-- The builds that the manifests assign to the commits of the repository (function getRepoData of
-- pkg/findbuild/findbuild.go).
pub mod Arrivals
pub mod Found
use cos_tools.Base.{
  ℕ, suc, Bool, true, false, Option, none, some, List, [], ◌∷◌, length, ltb, if◌then◌else◌,
}
use cos_tools.Base.Outcome.{Outcome, fail, done, ◌>>=◌}
use cos_tools.Text.{Bytes}
use cos_tools.Maps.{Table, or_zero, lookup, store}
use cos_tools.Gob.Errors.{ChangelogError, cl_not_used}
use cos_tools.Gob.Commits.{is_blank}
use cos_tools.Findbuild.Types.{ClData}
use cos_tools.Findbuild.Project.{ManifestResponse}

pub record RepoData : Type 0 where
  pub candidates : Table Bytes
  pub source_sha : Bytes
  pub target_sha : Bytes
  pub remote_url : Bytes

-- The index of each build: the source's `buildOrder` is its negative.
unfoldable pub build_places : ℕ → List Bytes → Table ℕ → Table ℕ
build_places i [] places = places
build_places i (build_num ∷ build_nums) places =
    build_places (suc i) build_nums (store build_num i places)

unfoldable pub place : Table ℕ → Bytes → ℕ
place places build_num = or_zero (lookup build_num places)

-- The variables of the loop. `target_place` is the negative of the source's `targetOrder`;
-- `source_place` that of `sourceOrder`, and `none` as long as that is the number of the builds.
pub record Progress : Type 0 where
  pub output : RepoData
  pub project : Bytes
  pub target_place : ℕ
  pub source_place : Option ℕ

abbrev pub replace_if_named : Bytes → Bytes → Bytes
replace_if_named repo project = if is_blank repo then project else repo

module _ (places : Table ℕ) where
  abbrev pub put_target : ManifestResponse → Progress → Progress
  put_target curr st =
      let p = place places curr.build_num in
      let newer = ltb p st.target_place in
      record {
        output = record {
          candidates = st.output.candidates;
          source_sha = st.output.source_sha;
          target_sha = if newer then curr.sha else st.output.target_sha;
          remote_url = if newer then curr.remote_url else st.output.remote_url;
        };
        project = if newer then replace_if_named curr.repo st.project else st.project;
        target_place = if newer then p else st.target_place;
        source_place = st.source_place;
      }

  abbrev pub is_behind : Option ℕ → ℕ → Bool
  is_behind none p = true
  is_behind (some q) p = ltb q p

  abbrev pub put_source : ManifestResponse → Progress → Progress
  put_source curr st =
      let p = place places curr.build_num in
      let older = is_behind st.source_place p in
      record {
        output = record {
          candidates = st.output.candidates;
          source_sha = if older then curr.sha else st.output.source_sha;
          target_sha = st.output.target_sha;
          remote_url = st.output.remote_url;
        };
        project = st.project;
        target_place = st.target_place;
        source_place = if older then some p else st.source_place;
      }

  abbrev pub is_older_than : Option Bytes → ℕ → Bool
  is_older_than none p = true
  is_older_than (some stored_build) p = ltb (place places stored_build) p

  unfoldable pub put_candidate : ManifestResponse → Table Bytes → Table Bytes
  put_candidate curr candidates =
      if is_older_than (lookup curr.sha candidates) (place places curr.build_num)
      then store curr.sha curr.build_num candidates
      else candidates

  unfoldable pub take_response : ManifestResponse → Progress → Progress
  take_response curr st =
      let next = put_source curr (put_target curr st) in
      record {
        output = record {
          candidates = put_candidate curr next.output.candidates;
          source_sha = next.output.source_sha;
          target_sha = next.output.target_sha;
          remote_url = next.output.remote_url;
        };
        project = next.project;
        target_place = next.target_place;
        source_place = next.source_place;
      }

  -- The responses in the order in which they come out of the channel.
  unfoldable pub collect : List (Option ManifestResponse) → Progress → Progress
  collect [] st = st
  collect (none ∷ responses) st = collect responses st
  collect (some curr ∷ responses) st = collect responses (take_response curr st)

abbrev pub empty_progress : List Bytes → Bytes → Progress
empty_progress build_nums project = record {
  output = record { candidates = []; source_sha = []; target_sha = []; remote_url = [] };
  project = project;
  target_place = length build_nums;
  source_place = none;
}

-- The goroutines, one after the other: `manifest_data` says what each of them answers, and what it
-- leaves of the project.
unfoldable pub run_manifests :
    ((build_num cl_project : Bytes) → Outcome ChangelogError (Option ManifestResponse × Bytes))
    → List Bytes
    → Bytes
    → Outcome ChangelogError (List (Option ManifestResponse) × Bytes)
run_manifests manifest_data [] cl_project = done ([], cl_project)
run_manifests manifest_data (build_num ∷ build_nums) cl_project = do
  first ← manifest_data build_num cl_project
  rest ← run_manifests manifest_data build_nums first.1
  done (first.0 ∷ rest.0, rest.1)

abbrev pub none_found : Table Bytes → Bool
none_found [] = true
none_found (_ ∷ _) = false

-- `schedule` puts the goroutines into the order in which they run. The project of the change comes
-- out with an error as well.
unfoldable pub get_repo_data :
    ((build_num cl_project : Bytes) → Outcome ChangelogError (Option ManifestResponse × Bytes))
    → (List Bytes → List Bytes)
    → ClData
    → List Bytes
    → Outcome ChangelogError (Outcome ChangelogError RepoData × Bytes)
get_repo_data manifest_data schedule cl_data build_nums = do
  responses ← run_manifests manifest_data (schedule build_nums) cl_data.project
  let last =
      collect (build_places 0 build_nums []) responses.0 (empty_progress build_nums responses.1)
  done (
      if none_found last.output.candidates
      then (
        fail (cl_not_used cl_data.cl_num last.project cl_data.release cl_data.instance_url),
        last.project,
      )
      else (done last.output, last.project))
