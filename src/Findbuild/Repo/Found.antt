-- ===== src/Findbuild/Repo/Found.antt =====
-- What getRepoData finds among the builds: the newest and the oldest, and the oldest for a commit.
use cos_tools.Base.{
  ℕ, suc, ◌+◌, ◌≤◌, ◌<◌, Option, some, List, [], ◌∷◌, ◌++◌, length, All, ◌≡◌, refl, ◌⊎◌, sym, ap,
  ◌∙◌, Bool-cases, inl, inr, arith,
}
use cos_tools.Text.{Bytes, eqb}
use cos_tools.Text.Equal.{eqb-eq-true}
use cos_tools.Maps.{Table, or_zero, lookup, store, lookup-store_self, lookup-store_other}
use cos_tools.Findbuild.Project.{ManifestResponse}
use cos_tools.Findbuild.Repo.{build_places, place, collect, empty_progress}
use cos_tools.Findbuild.Repo.Arrivals.{
  IsOlder, IsNewer, IsNewerOrOther, target_reached, source_reached, candidates_reached,
}

place-store :
    (k b : Bytes) (i : ℕ) (m : Table ℕ)
    → (place (store k i m) b ≡ i) ⊎ (place (store k i m) b ≡ place m b)
unfolding place
place-store k b i m = elim (Bool-cases (eqb k b)) [
  | inl e ↦ inl (
      ap (λ l. or_zero (lookup l (store k i m))) (sym (eqb-eq-true k b e))
      ∙ ap or_zero (lookup-store_self k i m))
  | inr e ↦ inr (ap or_zero (lookup-store_other k b i m e))
]

place-lt :
    (bs : List Bytes) (i n : ℕ) (m : Table ℕ) (b : Bytes)
    → i + length bs ≤ n
    → place m b < n
    → place (build_places i bs m) b < n
unfolding build_places
place-lt [] i n m b h hm = hm
place-lt (c ∷ bs) i n m b h hm =
    place-lt bs (suc i) n (store c i m) b (omega (arith, h))
      (elim (place-store c b i m) [ inl e ↦ omega (arith, e, h) | inr e ↦ omega (arith, e, hm) ])

place-nil : (b : Bytes) → place [] b ≡ 0
unfolding place lookup
place-nil b = refl

module _ (build_nums : List Bytes) (project : Bytes) (xs ys : List (Option ManifestResponse))
    (r : ManifestResponse) where
  -- Whatever the order in which the manifests arrive, where there is a build, the target commit
  -- and the URL are those of a response if all other responses are of older builds; also where
  -- this response has no commit.
  pub target-newest :
      0 < length build_nums
      → All (IsOlder (build_places 0 build_nums []) r) xs
      → All (IsOlder (build_places 0 build_nums []) r) ys
      → ((collect
            (build_places 0 build_nums [])
            (xs ++ (some r ∷ ys))
            (empty_progress build_nums project)).output.target_sha
          ≡ r.sha)
        × ((collect
              (build_places 0 build_nums [])
              (xs ++ (some r ∷ ys))
              (empty_progress build_nums project)).output.remote_url
            ≡ r.remote_url)
  target-newest some_build hx hy =
      let places = build_places 0 build_nums [] in
      let bound =
        place-lt build_nums 0 (length build_nums) [] r.build_num (omega arith)
          (omega (arith, place-nil r.build_num, some_build)) in
      let (at, sha, url) =
        target_reached places r xs ys (empty_progress build_nums project) hx hy bound in
      (sha, url)

  -- The oldest one gives the source.
  pub source-oldest :
      All (IsNewer (build_places 0 build_nums []) r) xs
      → All (IsNewer (build_places 0 build_nums []) r) ys
      → (collect
          (build_places 0 build_nums [])
          (xs ++ (some r ∷ ys))
          (empty_progress build_nums project)).output.source_sha
        ≡ r.sha
  source-oldest hx hy =
      let (at, sha) =
        source_reached (build_places 0 build_nums []) r xs ys (empty_progress build_nums project) hx
          hy tt in
      sha

  -- Whatever the order in which the manifests arrive, the build kept for a commit is that of a
  -- response with this commit if all other responses with it are of newer builds.
  pub candidate-oldest :
      All (IsNewerOrOther (build_places 0 build_nums []) r) xs
      → All (IsNewerOrOther (build_places 0 build_nums []) r) ys
      → lookup r.sha
          (collect
            (build_places 0 build_nums [])
            (xs ++ (some r ∷ ys))
            (empty_progress build_nums project)).output.candidates
        ≡ some r.build_num
  unfolding lookup
  candidate-oldest hx hy =
      candidates_reached (build_places 0 build_nums []) r xs ys (empty_progress build_nums project)
        hx hy tt
