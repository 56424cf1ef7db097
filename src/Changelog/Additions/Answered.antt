-- ===== src/Changelog/Additions/Answered.antt =====
-- The change log's entry for each repository, by what the server answers for it.
use cos_tools.Base.{
  ℕ, Bool, false, Option, none, some, List, [], ◌∷◌, All, ◌≡◌, refl, ◌∙◌, if◌then◌else◌,
}
use cos_tools.Base.Outcome.{Outcome, fail, done}
use cos_tools.Base.Parts.{All-imp}
use cos_tools.Text.{Bytes, codes}
use cos_tools.Text.Equal.{eqb_refl}
use cos_tools.Maps.{Table, IsMap, lookup}
use cos_tools.Gob.Errors.{GoError, gitiles_err_code}
use cos_tools.Gob.Commits.{Commit, Gitiles, QuerySize, commits}
use cos_tools.Changelog.Messages.{parse_git_commit_log}
use cos_tools.Changelog.Repos.{Repo}
use cos_tools.Changelog.Additions.{
  CommitsResult, RepoLog, sha_or_blank, has_commits, log_of, result_of, commits_answer,
  repo_commits, add_repos,
}
use cos_tools.Changelog.Additions.Logs.{IsAnswered, log_or, add_repos-log_or}

-- The commits of a repository and whether there are more, or `none` where the server does not know
-- the repository or one of the two commits.
abbrev pub Answer : Type 0
Answer = Option (List Commit × Bool)

abbrev pub Answers : Outcome GoError (List Commit × Bool) → Answer → Type 0
Answers result none = (e : GoError) × (result ≡ fail e) × (gitiles_err_code e ≡ codes "404")
Answers result (some found) = result ≡ done found

module _ (format_time : ℕ → Bytes) (fuel : ℕ) (clients : Table Gitiles)
    (source_repos target_repos : Table Repo) (query_size : QuerySize) (answer : Repo → Answer) where
  -- The commit that the repository had in the source build.
  abbrev pub source_commit : Bytes → Bytes
  source_commit repo_id = elim (lookup repo_id source_repos) [ none ↦ [] | some r ↦ r.committish ]

  -- The repository has a client, its path is its key, and the answer is that for the commits from
  -- its commit of the source build to that of the target build.
  abbrev pub IsServed : (Bytes × Repo) → Type 0
  IsServed (repo_id, r) =
      ((client : Gitiles) × (lookup r.instance_url clients ≡ some client)
        × Answers (commits fuel client r.repo r.committish (source_commit repo_id) query_size)
            (answer r))
      × (r.path ≡ repo_id)
      × (lookup repo_id target_repos ≡ some r)

  -- The entry of a repository: none without commits.
  abbrev pub entry_of : Repo → Answer → Option RepoLog
  entry_of r none = none
  entry_of r (some ([], more)) = none
  entry_of r (some (c ∷ cs, more)) = some (record {
    commits = parse_git_commit_log format_time (c ∷ cs);
    instance_url = r.instance_url;
    repo = r.repo;
    source_sha = source_commit r.path;
    target_sha = r.committish;
    has_more_commits = more;
  })

  abbrev pub entry : Option Repo → Option RepoLog
  entry none = none
  entry (some r) = entry_of r (answer r)

  abbrev result_for : Repo → Answer → CommitsResult
  result_for r none = result_of format_time fuel r [] false
  result_for r (some (found, more)) =
      result_of format_time fuel r (parse_git_commit_log format_time found) more

  sha_or_blank-source_commit :
      (repo_id : Bytes) → sha_or_blank (lookup repo_id source_repos) ≡ source_commit repo_id
  sha_or_blank-source_commit repo_id = by_repo (lookup repo_id source_repos)
    where
      by_repo : (o : Option Repo) → sha_or_blank o ≡ elim o [ none ↦ [] | some r ↦ r.committish ]
      by_repo none = refl
      by_repo (some r) = refl

  commits_answer-result_for :
      (r : Repo) (result : Outcome GoError (List Commit × Bool)) (found : Answer)
      → Answers result found
      → commits_answer format_time fuel r result ≡ done (result_for r found)
  commits_answer-result_for r result none (e, failed, code) =
      rw (failed, code, eqb_refl (codes "404")) refl
  commits_answer-result_for r result (some found) h = rw h refl

  result_for-path : (r : Repo) (found : Answer) → (result_for r found).path ≡ r.path
  result_for-path r none = refl
  result_for-path r (some found) = refl

  IsServed-IsAnswered :
      (arrival : Bytes × Repo)
      → IsServed arrival
      → IsAnswered format_time fuel clients source_repos target_repos query_size
          (λ r. result_for r (answer r))
          arrival
  unfolding repo_commits
  IsServed-IsAnswered (repo_id, r) ((client, there, answers), path, target) = (
    rw (there, sha_or_blank-source_commit repo_id)
        (commits_answer-result_for r _ (answer r) answers),
    result_for-path r (answer r) ∙ path,
    target,
  )

  log_or-entry :
      (o : Option Repo)
      → log_or format_time fuel clients source_repos target_repos query_size
          (λ r. result_for r (answer r))
          none
          o
        ≡ entry o
  unfolding parse_git_commit_log
  log_or-entry none = refl
  log_or-entry (some r) = by_answer (answer r)
    where
      by_answer :
          (found : Answer)
          → (if has_commits (result_for r found).commits
              then some (
                  log_of format_time fuel clients source_repos target_repos query_size
                    (result_for r found)
                    r)
              else none)
            ≡ entry_of r found
      by_answer none = refl
      by_answer (some ([], more)) = refl
      by_answer (some (c ∷ cs, more)) = rw (sha_or_blank-source_commit r.path) refl

  -- Where each repository of the target has a client, its path as key, and no key comes twice,
  -- and the server answers each query for the commits of a repository, from its commit in the
  -- source build to that in the target build, with commits or with the code 404, the additions
  -- are made, in whatever order the answers arrive. They hold for each repository with commits
  -- these commits, the URL and name of the repository, its commits in the source build (empty if
  -- it is not there) and in the target build, and whether there are more; and nothing else.
  pub add_repos_lem :
      (arrivals : Table Repo)
      → All IsServed arrivals
      → IsMap arrivals
      → (logs : Table RepoLog) × (add_repos format_time fuel clients source_repos target_repos
            query_size arrivals []
          ≡ done logs)
        × ((repo_id : Bytes) → lookup repo_id logs ≡ entry (lookup repo_id arrivals))
  add_repos_lem arrivals h once =
      let (logs, result, found) =
        add_repos-log_or format_time fuel clients source_repos target_repos query_size
          (λ r. result_for r (answer r)) arrivals
          (All-imp IsServed _ IsServed-IsAnswered arrivals h) once in
      (logs, result, λ repo_id. found repo_id ∙ log_or-entry (lookup repo_id arrivals))
