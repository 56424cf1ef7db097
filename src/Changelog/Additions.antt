-- ===== src/Changelog/Additions.antt =====
-- The commits that a build has beyond another (functions commits and additions of
-- pkg/changelog/changelog.go).
pub mod Logs
pub mod Answered
use cos_tools.Base.{ℕ, Bool, true, false, Option, none, some, List, [], ◌∷◌, if◌then◌else◌}
use cos_tools.Base.Outcome.{Outcome, stuck, panic, fail, done, ◌>>=◌, or_panic}
use cos_tools.Text.{Bytes, codes, eqb}
use cos_tools.Maps.{Table, lookup, store}
use cos_tools.Gob.Errors.{ChangelogError, GoError, internal_server_error, gitiles_err_code}
use cos_tools.Gob.Commits.{Commit, Gitiles, QuerySize, commits}
use cos_tools.Changelog.Messages.{ShownCommit, parse_git_commit_log}
use cos_tools.Changelog.Repos.{Repo}

-- A result without an error.
pub record CommitsResult : Type 0 where
  pub commits : List ShownCommit
  pub instance_url : Bytes
  pub repo : Bytes
  pub path : Bytes
  pub has_more_commits : Bool

pub record RepoLog : Type 0 where
  pub commits : List ShownCommit
  pub instance_url : Bytes
  pub repo : Bytes
  pub source_sha : Bytes
  pub target_sha : Bytes
  pub has_more_commits : Bool

abbrev pub sha_or_blank : Option Repo → Bytes
sha_or_blank none = []
sha_or_blank (some r) = r.committish

abbrev pub has_commits : List ShownCommit → Bool
has_commits [] = false
has_commits (_ ∷ _) = true

module _ (format_time : ℕ → Bytes) (fuel : ℕ) where
  abbrev pub result_of : Repo → List ShownCommit → Bool → CommitsResult
  result_of r commits has_more_commits = record {
    commits = commits;
    instance_url = r.instance_url;
    repo = r.repo;
    path = r.path;
    has_more_commits = has_more_commits;
  }

  -- A repository that is not found has no commits.
  abbrev pub commits_answer :
      Repo → Outcome GoError (List Commit × Bool) → Outcome ChangelogError CommitsResult
  commits_answer r stuck = stuck
  commits_answer r panic = panic
  commits_answer r (fail e) =
      if eqb (gitiles_err_code e) (codes "404")
      then done (result_of r [] false)
      else fail internal_server_error
  commits_answer r (done (log, has_more_commits)) =
      done (result_of r (parse_git_commit_log format_time log) has_more_commits)

  -- The function commits: a missing client is a nil pointer.
  unfoldable pub repo_commits :
      Table Gitiles → Repo → Bytes → QuerySize → Outcome ChangelogError CommitsResult
  repo_commits clients r ancestor query_size = do
    client ← or_panic (lookup r.instance_url clients)
    commits_answer r (commits fuel client r.repo r.committish ancestor query_size)

  module _ (clients : Table Gitiles) (source_repos target_repos : Table Repo)
      (query_size : QuerySize) where
    abbrev pub log_of : CommitsResult → Repo → RepoLog
    log_of res target = record {
      commits = res.commits;
      instance_url = res.instance_url;
      repo = res.repo;
      source_sha = sha_or_blank (lookup res.path source_repos);
      target_sha = target.committish;
      has_more_commits = res.has_more_commits;
    }

    -- The loop that takes a result out of the channel.
    unfoldable pub add_result :
        CommitsResult → Table RepoLog → Outcome ChangelogError (Table RepoLog)
    add_result res additions =
        if has_commits res.commits
        then (or_panic (lookup res.path target_repos) >>= λ target.
            done (store res.path (log_of res target) additions))
        else done additions

    -- The target's repositories in the order in which their goroutines run and answer.
    unfoldable pub add_repos :
        List (Bytes × Repo) → Table RepoLog → Outcome ChangelogError (Table RepoLog)
    add_repos [] additions = done additions
    add_repos ((repo_id, r) ∷ repos) additions = do
      res ← repo_commits clients r (sha_or_blank (lookup repo_id source_repos)) query_size
      next ← add_result res additions
      add_repos repos next
