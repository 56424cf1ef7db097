-- ===== src/Findbuild/Range/Ending.antt =====
-- The two binary searches end on any list of commits, in order or not, and the range cannot be
-- expanded where no commit is behind its end.
use cos_tools.Base.{
  ℕ, zero, suc, ◌+◌, ◌-◌, ◌/◌, ◌==◌, ◌≤◌, ◌<◌, Bool, true, false, not, Option, none, some, List, [],
  ◌∷◌, length, take, drop, get_elem?, All, All-get_elem?, ◌≡◌, refl, ltb, Bool-cases, Option-cases,
  inl, inr, arith, if◌then◌else◌,
}
use cos_tools.Base.Outcome.{Outcome, or_else}
use cos_tools.Base.Yields.{
  Yields, panics, fails, gives, Ends, Yields-imp, Yields-bind, Yields-or_panic, Yields-or_else,
  Yields-fail_if,
}
use cos_tools.Gob.Errors.{ChangelogError, internal_server_error}
use cos_tools.Gob.Commits.{Commit}
use cos_tools.Findbuild.Types.{ClData}
use cos_tools.Findbuild.Range.{
  find_earliest, find_latest, committed_at, before_range, after_range, candidate_manifest_commits,
}

-- Not after the time, as far as the commit has one.
abbrev pub IsUntil : ℕ → Option ℕ → Type 0
IsUntil until none = Unit
IsUntil until (some t) = t ≤ until

abbrev pub AllUntil : ℕ → List Commit → Type 0
AllUntil until = All (λ c. IsUntil until c.committer)

module _ (probe : ℕ → Outcome ChangelogError Bool) where
  find_earliest-Ends :
      ((i : ℕ) → Ends (probe i))
      → (fuel left right : ℕ) → left ≤ right
      → right < left + fuel
      → Yields (λ _. Unit) (λ k. k ≤ right) (find_earliest probe fuel left right)
  unfolding find_earliest
  find_earliest-Ends p zero left right le h = absurd (omega (arith, le, h))
  find_earliest-Ends p (suc fuel) left right le h = elim (Bool-cases (ltb left right)) [
    | inl more ↦
        let mid = (left + right) / 2 in
        rw more (
          Yields-bind _ (p mid) (λ before _.
            elim before
              as (λ b.
                Yields (λ _. Unit) (λ k. k ≤ right)
                  (find_earliest probe fuel (if b then left else mid + 1)
                    (if b then mid else right))) [
                      | true ↦
                          Yields-imp
                            (find_earliest-Ends p fuel left mid (ground arith) (ground arith))
                            (λ k h. ground (arith, h, more))
                      | false ↦
                          find_earliest-Ends p fuel (mid + 1) right (ground arith) (ground arith)
                    ]))
    | inr over ↦ rw over (gives le)
  ]

  -- Ending at the index 0, where no commit is after the range and `none_after` holds.
  find_latest_ends :
      (none_after : Type 0)
      → ((i : ℕ) → Yields (λ _. Unit) (λ after. none_after → after ≡ false) (probe i))
      → (fuel left right : ℕ) → left ≤ right
      → right < left + fuel
      → (none_after → left ≡ 0)
      → Yields (λ _. Unit) (λ latest. none_after → latest ≡ 0) (find_latest probe fuel left right)
  unfolding find_latest
  find_latest_ends none_after p zero left right le h zero_lem = absurd (omega (arith, le, h))
  find_latest_ends none_after p (suc fuel) left right le h zero_lem =
      elim (Bool-cases (ltb left right)) [
        | inl more ↦
            let mid = (left + right) / 2 + 1 in
            rw more (
              Yields-bind _ (p mid) (λ after not_after.
                elim after
                    as (λ b.
                      (none_after → b ≡ false)
                      → Yields (λ _. Unit) (λ latest. none_after → latest ≡ 0)
                          (find_latest probe fuel (if b then mid else left)
                            (if b then right else mid - 1))) [
                              | true ↦ λ no.
                                  find_latest_ends none_after p fuel mid right (ground arith)
                                    (ground arith) (λ all. absurd (ground (arith, no all)))
                              | false ↦ λ no.
                                  find_latest_ends none_after p fuel left (mid - 1) (ground arith)
                                    (ground arith) zero_lem
                            ]
                  not_after))
        | inr over ↦ rw over (gives (λ all. omega (arith, le, zero_lem all, ended left right over)))
      ]
    where
      ended : (l r : ℕ) → ltb l r ≡ false → r ≤ l
      ended l r e = ground arith

get_elem?-lt : (cs : List Commit) {c : Commit} → get_elem? cs 0 ≡ some c → 0 < length cs
get_elem?-lt [] e = cc
get_elem?-lt (c ∷ cs) e = omega arith

module _ (manifest_commits : List Commit) (cl_data : ClData) where
  committed_at-Ends : (i : ℕ) → Ends (committed_at manifest_commits i)
  unfolding committed_at
  committed_at-Ends i =
      Yields-bind _ (Yields-or_panic (get_elem? manifest_commits i))
        (λ commit _. Yields-or_else internal_server_error tt commit.committer)

  before_range-Ends : (i : ℕ) → Ends (before_range manifest_commits cl_data i)
  unfolding before_range
  before_range-Ends i = Yields-bind _ (committed_at-Ends i) (λ t _. gives tt)

  module _ (until : ℕ) (all : AllUntil until manifest_commits) where
    abbrev NoneAfter : Type 0
    NoneAfter = until ≤ cl_data.search_end_range

    committed_at_until :
        (i : ℕ) → Yields (λ _. Unit) (λ t. t ≤ until) (committed_at manifest_commits i)
    unfolding committed_at
    committed_at_until i = elim (Option-cases (get_elem? manifest_commits i)) [
      | inl e ↦ rw e panics
      | inr (c, e) ↦ rw e (
          time c.committer
            (All-get_elem? (λ c. IsUntil until c.committer) manifest_commits i all e))
    ]
      where
        time :
            (o : Option ℕ)
            → IsUntil until o
            → Yields (λ _. Unit) (λ t. t ≤ until) (or_else internal_server_error o)
        time none h = fails tt
        time (some t) h = gives h

    after_range_lem :
        (i : ℕ)
        → Yields
            (λ _. Unit)
            (λ after. NoneAfter → after ≡ false)
            (after_range manifest_commits cl_data i)
    unfolding after_range
    after_range_lem i =
        Yields-bind _ (committed_at_until i) (λ t h. gives (λ all. ground (arith, h, all)))

    -- The candidates are found or refused, and the range cannot be expanded beyond all commits.
    pub candidates_end :
        Yields
          (λ _. Unit)
          (λ found. NoneAfter → found.1 ≡ false)
          (candidate_manifest_commits manifest_commits cl_data)
    unfolding candidate_manifest_commits
    candidates_end = elim (Option-cases (get_elem? manifest_commits 0)) [
      | inl e ↦ rw e panics
      | inr (newest, e) ↦
          let n = length manifest_commits in
          let present : 0 < n = get_elem?-lt manifest_commits e in
          rw e (
            Yields-bind _ (Yields-or_panic newest.committer) (λ newest_date _.
              Yields-bind _ (Yields-fail_if _ _ tt) (λ _ _.
                Yields-bind _
                  (find_earliest-Ends (before_range manifest_commits cl_data) before_range-Ends n 0
                    (n - 1) (omega arith) (omega (arith, present)))
                  (λ earliest inside.
                    Yields-bind _
                      (find_latest_ends (after_range manifest_commits cl_data) NoneAfter
                        after_range_lem n 0 earliest (omega arith) (omega (arith, present, inside))
                        (λ _. refl))
                      (λ latest h.
                        gives
                          {a = (
                            take (earliest + 1 - latest) (drop latest manifest_commits),
                            not (latest == 0),
                          )}
                          (λ all. ground (arith, h all)))))))
    ]
