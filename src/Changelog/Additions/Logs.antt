-- ===== src/Changelog/Additions/Logs.antt =====
-- What the change log holds for each repository, in whatever order the answers arrive.
use cos_tools.Base.{
  ℕ, false, Option, none, some, [], ◌∷◌, All, ◌≡◌, refl, subst, ◌∙◌, Bool-cases, inl, inr,
  if◌then◌else◌,
}
use cos_tools.Base.Outcome.{done}
use cos_tools.Text.{Bytes, eqb}
use cos_tools.Text.Equal.{eqb-eq-true}
use cos_tools.Maps.{Table, IsMap, lookup, store, lookup-store_self, lookup-store_other}
use cos_tools.Gob.Commits.{Gitiles, QuerySize}
use cos_tools.Changelog.Repos.{Repo}
use cos_tools.Changelog.Additions.{
  CommitsResult, RepoLog, sha_or_blank, has_commits, repo_commits, log_of, add_result, add_repos,
}

module _ (format_time : ℕ → Bytes) (fuel : ℕ) (clients : Table Gitiles)
    (source_repos target_repos : Table Repo) (query_size : QuerySize)
    (answer : Repo → CommitsResult) where
  -- The commits of a repository of the target are answered, and its path is its key.
  abbrev pub IsAnswered : (Bytes × Repo) → Type 0
  IsAnswered (repo_id, r) =
      (repo_commits format_time fuel clients r (sha_or_blank (lookup repo_id source_repos))
          query_size
        ≡ done (answer r))
      × ((answer r).path ≡ repo_id)
      × (lookup repo_id target_repos ≡ some r)

  abbrev pub log_for : Repo → RepoLog
  log_for r = log_of format_time fuel clients source_repos target_repos query_size (answer r) r

  -- The log of a repository with commits.
  abbrev pub log_or : Option RepoLog → Option Repo → Option RepoLog
  log_or other none = other
  log_or other (some r) = if has_commits (answer r).commits then some (log_for r) else other

  abbrev added : Bytes → Repo → Table RepoLog → Table RepoLog
  added repo_id r additions =
      if has_commits (answer r).commits then store repo_id (log_for r) additions else additions

  add_result_lem :
      (repo_id : Bytes) (r : Repo) (additions : Table RepoLog)
      → IsAnswered (repo_id, r)
      → add_result format_time fuel clients source_repos target_repos query_size
          (answer r)
          additions
        ≡ done (added repo_id r additions)
  unfolding add_result
  add_result_lem repo_id r additions (_, path, there) =
      elim (Bool-cases (has_commits (answer r).commits)) [
        | inl e ↦ rw (e, path, there) refl
        | inr e ↦ rw e refl
      ]

  lookup-added_self :
      (k : Bytes) (r : Repo) (additions : Table RepoLog)
      → lookup k (added k r additions) ≡ log_or (lookup k additions) (some r)
  lookup-added_self k r additions = elim (Bool-cases (has_commits (answer r).commits)) [
    | inl e ↦ rw e (lookup-store_self k (log_for r) additions)
    | inr e ↦ rw e refl
  ]

  lookup-added_other :
      (n k : Bytes) (r : Repo) (additions : Table RepoLog)
      → eqb n k ≡ false
      → lookup k (added n r additions) ≡ lookup k additions
  lookup-added_other n k r additions h = elim (Bool-cases (has_commits (answer r).commits)) [
    | inl e ↦ rw e (lookup-store_other n k (log_for r) additions h)
    | inr e ↦ rw e refl
  ]

  add_repos_from :
      (arrivals : Table Repo) (additions : Table RepoLog)
      → All IsAnswered arrivals
      → IsMap arrivals
      → (logs : Table RepoLog) × (add_repos format_time fuel clients source_repos target_repos
            query_size arrivals additions
          ≡ done logs)
        × ((k : Bytes) → lookup k logs ≡ log_or (lookup k additions) (lookup k arrivals))
  unfolding add_repos lookup
  add_repos_from [] additions h once = (additions, refl, λ k. refl)
  add_repos_from ((n, r) ∷ arrivals) additions (hr, h) (fresh, once) =
      let (logs, result, found) = add_repos_from arrivals (added n r additions) h once in
      (
        logs,
        rw (hr.0, add_result_lem n r additions hr) result,
        λ k. elim (Bool-cases (eqb n k)) [
          | inl e ↦
              let name = eqb-eq-true n k e in
              found k
              ∙ rw (e, subst (λ t. lookup t arrivals ≡ none) name fresh)
                  (subst
                    (λ t. lookup t (added n r additions) ≡ log_or (lookup t additions) (some r))
                    name (lookup-added_self n r additions))
          | inr e ↦ found k ∙ rw (e, lookup-added_other n k r additions e) refl
        ],
      )

  -- Into an empty change log.
  pub add_repos-log_or :
      (arrivals : Table Repo)
      → All IsAnswered arrivals
      → IsMap arrivals
      → (logs : Table RepoLog) × (add_repos format_time fuel clients source_repos target_repos
            query_size arrivals []
          ≡ done logs)
        × ((k : Bytes) → lookup k logs ≡ log_or none (lookup k arrivals))
  unfolding lookup
  add_repos-log_or arrivals h once = add_repos_from arrivals [] h once
