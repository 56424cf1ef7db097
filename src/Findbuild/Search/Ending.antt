-- ===== src/Findbuild/Search/Ending.antt =====
-- The search ends: the range grows by the factor five, and it is not expanded beyond the newest
-- commit of the manifest repository.
use cos_tools.Base.{
  ℕ, zero, suc, ◌+◌, ◌*◌, ◌^◌, ◌≤◌, ◌<◌, Bool, false, ◌&&◌, some, List, [], ◌++◌, ltb, Option-cases,
  Bool-cases, ◌≡◌, refl, sym, ap, ◌∙◌, ◌⊎◌, inl, inr, arith,
}
use cos_tools.Base.Outcome.{Outcome, or_else}
use cos_tools.Base.Yields.{
  Yields, panics, fails, gives, Ends, Yields-bind, Yields-map_fail, Yields-or_panic, Yields-or_else,
  Yields-fail_if,
}
use native.Mathlib.Nat.{mul_assoc, pow-succ'}
use cos_tools.Text.{Bytes, codes, eqb}
use cos_tools.Gob.Errors.{ChangelogError, internal_server_error}
use cos_tools.Gob.Commits.{Gitiles, unlimited, commits, is_blank}
use cos_tools.Gob.Urls.{create_gerrit_url}
use cos_tools.Findbuild.Types.{
  day, default_search_range, search_range_multiplier, BuildRequest, ClData,
}
use cos_tools.Findbuild.Query.{Services}
use cos_tools.Findbuild.Range.Ending.{AllUntil, candidates_end}
use cos_tools.Findbuild.Project.{manifest_data}
use cos_tools.Findbuild.Repo.{RepoData}
use cos_tools.Findbuild.Search.{
  IterCache, Failure, with_project, builds_or_none, changelog_client, find_in_changelog,
  find_build_in_range, or_retry, attempts, last_commit, first_range, find_build_exponential,
}
use cos_tools.Findbuild.Search.Parts.{
  Answers, candidate_build_nums-Ends, manifest_data-Ends, get_repo_data-Ends, first_build-Ends,
}

builds_or_none-Ends : {o : Outcome ChangelogError (List Bytes)} → Ends o → Ends (builds_or_none o)
builds_or_none-Ends panics = panics
builds_or_none-Ends (fails _) = gives tt
builds_or_none-Ends (gives _) = gives tt

module _ (services : Services) (fuel : ℕ) (request : BuildRequest)
    (others : (url : Bytes) (client : Gitiles)
      → services.gitiles url ≡ some client
      → Answers fuel client) where
  changelog_client_lem :
      {P : Failure → Type 0} (e : Failure)
      → P e
      → (client : Gitiles) → Answers fuel client
      → (url : Bytes)
      → Yields P (Answers fuel) (or_else e (changelog_client services request client url))
  changelog_client_lem e p client a url = elim (Bool-cases (eqb url request.gitiles_host)) [
    | inl same ↦ rw same (gives a)
    | inr other ↦ rw other (elim (Option-cases (services.gitiles url)) [
      | inl none_there ↦ rw none_there (fails p)
      | inr (there, found) ↦ rw found (gives (others url there found))
    ])
  ]

  -- The error of an attempt says that the range cannot be expanded, where it is beyond `until`.
  module _ (cache : IterCache) (a : Answers fuel cache.gitiles_client) (cl_data : ClData)
      (until : ℕ) where
    abbrev Stops : Failure → Type 0
    Stops failure = until ≤ cl_data.search_end_range → failure.can_expand ≡ false

    find_in_changelog_ends :
        (can_expand : Bool) (repo_data : RepoData) (cl : ClData)
        → (until ≤ cl_data.search_end_range → can_expand ≡ false)
        → Yields Stops
            (λ _. Unit)
            (find_in_changelog services fuel request cache can_expand cl repo_data)
    unfolding find_in_changelog
    find_in_changelog_ends can_expand repo_data cl h =
        Yields-bind _ (Yields-fail_if (is_blank repo_data.target_sha) _ h) (λ _ _.
          Yields-bind {Q = Answers fuel} _
            (changelog_client_lem _ (λ _. refl) cache.gitiles_client a repo_data.remote_url)
            (λ client ca.
              Yields-bind _ (Yields-map_fail _ (ca.log_lem _ _ _ _) (λ _ _. h) (λ _ _. tt))
                (λ changelog _.
                  Yields-map_fail _ (first_build-Ends changelog.0 cl repo_data.candidates)
                    (λ _ _. h) (λ _ _. tt))))

    find_build_in_range_ends :
        AllUntil until cache.manifest_commits
        → Yields Stops (λ _. Unit) (find_build_in_range services fuel request cache cl_data)
    unfolding find_build_in_range
    find_build_in_range_ends all =
        Yields-bind _
          (Yields-map_fail _ (candidates_end cache.manifest_commits cl_data until all)
            (λ _ _ _. refl) (λ w h. h))
          (λ window h.
            Yields-bind _
              (Yields-map_fail _
                (builds_or_none-Ends (candidate_build_nums-Ends window.0 cache.tags)) (λ _ _. h)
                (λ _ _. tt))
              (λ build_nums _.
                Yields-bind _
                  (Yields-map_fail _
                    (get_repo_data-Ends
                      (manifest_data services.read_xml cache.gitiles_client request.manifest_repo
                        cl_data.branch)
                      (manifest_data-Ends services.read_xml fuel cache.gitiles_client a
                        request.manifest_repo cl_data.branch)
                      services.schedule cl_data build_nums)
                    (λ _ _. h) (λ _ e. e))
                  (λ found e.
                    Yields-bind _ (Yields-map_fail _ e (λ _ _. h) (λ _ _. tt)) (λ repo_data _.
                      find_in_changelog_ends window.1 repo_data (with_project cl_data found.1) h))))

  or_retry-Ends :
      {P : Failure → Type 0} (next : Bytes → Outcome ChangelogError Bytes)
      → ((failure : Failure)
          → P failure
          → (failure.can_expand ≡ false) ⊎ ((project : Bytes) → Ends (next project)))
      → {o : Outcome Failure Bytes} → Yields P (λ _. Unit) o
      → Ends (or_retry next o)
  or_retry-Ends next h panics = panics
  or_retry-Ends next h (gives _) = gives tt
  or_retry-Ends next h (fails {e = failure} p) = elim (h failure p) [
    | inl stop ↦
        let test : failure.error.retryable && failure.can_expand ≡ false = ground (arith, stop) in
        rw test (fails tt)
    | inr goes ↦ elim (Bool-cases (failure.error.retryable && failure.can_expand)) [
      | inl e ↦ rw e (goes failure.project)
      | inr e ↦ rw e (fails tt)
    ]
  ]

  -- The reach of the attempts, in days.
  abbrev reach : ℕ → ℕ → ℕ
  reach zero time_range = time_range
  reach (suc rounds) time_range = reach rounds (time_range * search_range_multiplier)

  attempts_end :
      (cache : IterCache)
      → Answers fuel cache.gitiles_client
      → (until : ℕ) → AllUntil until cache.manifest_commits
      → (rounds time_range : ℕ) (cl_data : ClData)
      → until + time_range * day ≤ cl_data.search_end_range + reach rounds time_range * day
      → Ends (attempts services fuel request cache (suc rounds) time_range cl_data)
  unfolding attempts
  attempts_end cache a until all zero time_range cl_data h =
      or_retry-Ends _ (λ failure stops. inl (stops (omega (arith, h))))
        (find_build_in_range_ends cache a cl_data until all)
  attempts_end cache a until all (suc rounds) time_range cl_data h =
      or_retry-Ends _
        (λ failure stops. inr (λ project.
          attempts_end cache a until all rounds (time_range * search_range_multiplier) _
            (omega (arith, h))))
        (find_build_in_range_ends cache a cl_data until all)

  reach-pow : (rounds time_range : ℕ) → reach rounds time_range ≡ time_range * 5 ^ rounds
  reach-pow zero time_range = omega arith
  reach-pow (suc rounds) time_range =
      reach-pow rounds (time_range * 5)
      ∙ mul_assoc time_range 5 (5 ^ rounds)
      ∙ ap (λ k. time_range * k) (sym (pow-succ' 5 rounds))

  first_range_end :
      (oldest : ℕ) (cl_data : ClData)
      → cl_data.search_end_range ≤ (first_range oldest cl_data).search_end_range
  first_range_end oldest cl_data = elim (Bool-cases (ltb cl_data.search_end_range oldest)) [
    | inl e ↦ rw e (ground arith)
    | inr e ↦ rw e (omega arith)
  ]

  -- The search for the first build ends, with a build, an error or a panic, within so many
  -- attempts, at least one, that the newest commit of the manifest repository is not later than
  -- five days before the end of the first range with five to that power of days added, where
  -- every list of commits that is asked for ends within the fuel and every file is answered.
  pub find_build_exponential-Ends :
      (client : Gitiles)
      → Answers fuel client
      → (rounds until : ℕ) (cl_data : ClData) → 0 < rounds
      → until + default_search_range * day ≤ cl_data.search_end_range + 5 ^ rounds * day
      → Yields
          (λ _. Unit)
          (λ listed. AllUntil until listed.0)
          (commits fuel client request.manifest_repo
            (codes "refs/heads/" ++ cl_data.release)
            []
            unlimited)
      → Ends (find_build_exponential services fuel request client rounds cl_data)
  unfolding find_build_exponential
  find_build_exponential-Ends client a zero until cl_data hr h listed = absurd (omega (arith, hr))
  find_build_exponential-Ends client a (suc rounds) until cl_data hr h listed =
      Yields-bind _ (Yields-map_fail _ listed (λ _ _. tt) (λ _ all. all)) (λ manifest all.
        Yields-bind _ (Yields-or_panic (last_commit manifest.0)) (λ oldest _.
          Yields-bind _ (Yields-or_panic oldest.committer) (λ oldest_date _.
            Yields-bind _
              (Yields-or_else internal_server_error tt
                (create_gerrit_url services.find_submatch request.gitiles_host))
              (λ instance_url _.
                Yields-bind _
                  (Yields-or_else internal_server_error tt (services.gerrit instance_url))
                  (λ gerrit_client _.
                    Yields-bind _
                      (Yields-or_else internal_server_error tt
                        (gerrit_client.list_tags request.manifest_repo))
                      (λ tag_infos _.
                        attempts_end _ a until all rounds default_search_range
                          (first_range oldest_date cl_data)
                          (omega (
                            arith,
                            h,
                            pow-succ' 5 rounds,
                            reach-pow rounds default_search_range,
                            first_range_end oldest_date cl_data,
                          ))))))))
