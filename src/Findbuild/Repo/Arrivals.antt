-- ===== src/Findbuild/Repo/Arrivals.antt =====
-- What is collected from the responses, in whatever order they arrive.
use cos_tools.Base.{
  ℕ, ◌<◌, true, false, Option, none, some, List, [], ◌∷◌, ◌++◌, All, ◌≡◌, refl, sym, subst, ap, ◌∙◌,
  ltb, Bool-cases, inl, inr, ◌⊎◌, arith, if◌then◌else◌,
}
use cos_tools.Text.{Bytes, eqb}
use cos_tools.Text.Equal.{eqb-eq-true}
use cos_tools.Maps.{Table, lookup, lookup-store_self, lookup-store_other}
use cos_tools.Findbuild.Project.{ManifestResponse}
use cos_tools.Findbuild.Repo.{
  place, Progress, put_candidate, is_behind, is_older_than, take_response, collect,
}

module _ (places : Table ℕ) (s : ManifestResponse) (m : Table Bytes) where
  candidate_stays :
      (b : Bytes)
      → lookup s.sha m ≡ some b
      → ltb (place places b) (place places s.build_num) ≡ false
      → put_candidate places s m ≡ m
  unfolding put_candidate
  candidate_stays b has test = rw (has, test) refl

  candidate_put_or_kept :
      (lookup s.sha (put_candidate places s m) ≡ some s.build_num) ⊎ (put_candidate places s m ≡ m)
  unfolding put_candidate
  candidate_put_or_kept =
      elim (Bool-cases (is_older_than places (lookup s.sha m) (place places s.build_num))) [
        | inl test ↦ inl (rw test (lookup-store_self s.sha s.build_num m))
        | inr test ↦ inr (rw test refl)
      ]

module _ (places : Table ℕ) (r : ManifestResponse) where
  -- The response of a build that is older than that of `r`.
  abbrev pub IsOlder : Option ManifestResponse → Type 0
  IsOlder none = Unit
  IsOlder (some s) = place places r.build_num < place places s.build_num

  abbrev pub IsNewer : Option ManifestResponse → Type 0
  IsNewer none = Unit
  IsNewer (some s) = place places s.build_num < place places r.build_num

  -- A response with another commit, or of a newer build.
  abbrev pub IsNewerOrOther : Option ManifestResponse → Type 0
  IsNewerOrOther none = Unit
  IsNewerOrOther (some s) = s.sha ≡ r.sha → place places s.build_num < place places r.build_num

  abbrev HasTarget : Progress → Type 0
  HasTarget st =
      (st.target_place ≡ place places r.build_num)
      × (st.output.target_sha ≡ r.sha)
      × (st.output.remote_url ≡ r.remote_url)

  target_kept :
      (ys : List (Option ManifestResponse)) (st : Progress)
      → All IsOlder ys
      → HasTarget st
      → HasTarget (collect places ys st)
  unfolding collect take_response
  target_kept [] st h has = has
  target_kept (none ∷ ys) st (_, h) has = target_kept ys st h has
  target_kept (some s ∷ ys) st (hs, h) (at, sha, url) =
      let test : ltb (place places s.build_num) st.target_place ≡ false = ground arith in
      target_kept ys (take_response places s st) h (rw test at, rw test sha, rw test url)

  pub target_reached :
      (xs ys : List (Option ManifestResponse)) (st : Progress)
      → All IsOlder xs
      → All IsOlder ys
      → place places r.build_num < st.target_place
      → HasTarget (collect places (xs ++ (some r ∷ ys)) st)
  unfolding collect take_response
  target_reached [] ys st hx hy h =
      let test : ltb (place places r.build_num) st.target_place ≡ true = ground arith in
      target_kept ys (take_response places r st) hy (rw test refl, rw test refl, rw test refl)
  target_reached (none ∷ xs) ys st (_, hx) hy h = target_reached xs ys st hx hy h
  target_reached (some s ∷ xs) ys st (hs, hx) hy h =
      target_reached xs ys (take_response places s st) hx hy (ground arith)

  abbrev HasSource : Progress → Type 0
  HasSource st =
      (st.source_place ≡ some (place places r.build_num)) × (st.output.source_sha ≡ r.sha)

  source_kept :
      (ys : List (Option ManifestResponse)) (st : Progress)
      → All IsNewer ys
      → HasSource st
      → HasSource (collect places ys st)
  unfolding collect take_response
  source_kept [] st h has = has
  source_kept (none ∷ ys) st (_, h) has = source_kept ys st h has
  source_kept (some s ∷ ys) st (hs, h) (at, sha) =
      let test : is_behind places st.source_place (place places s.build_num) ≡ false =
        rw at (ground arith) in
      source_kept ys (take_response places s st) h (rw test at, rw test sha)

  abbrev IsBefore : Option ℕ → Type 0
  IsBefore none = Unit
  IsBefore (some p) = p < place places r.build_num

  IsBefore-is_behind :
      (q : Option ℕ) (p : ℕ)
      → p < place places r.build_num
      → IsBefore q
      → IsBefore (if is_behind places q p then some p else q)
  IsBefore-is_behind none p h b = h
  IsBefore-is_behind (some q) p h b = elim (Bool-cases (ltb q p)) [
    | inl e ↦ rw e h
    | inr e ↦ rw e b
  ]

  behind-before : (q : Option ℕ) → IsBefore q → is_behind places q (place places r.build_num) ≡ true
  behind-before none b = refl
  behind-before (some q) b = ground arith

  pub source_reached :
      (xs ys : List (Option ManifestResponse)) (st : Progress)
      → All IsNewer xs
      → All IsNewer ys
      → IsBefore st.source_place
      → HasSource (collect places (xs ++ (some r ∷ ys)) st)
  unfolding collect take_response
  source_reached [] ys st hx hy h =
      let test = behind-before st.source_place h in
      source_kept ys (take_response places r st) hy (rw test refl, rw test refl)
  source_reached (none ∷ xs) ys st (_, hx) hy h = source_reached xs ys st hx hy h
  source_reached (some s ∷ xs) ys st (hs, hx) hy h =
      source_reached xs ys (take_response places s st) hx hy
        (IsBefore-is_behind st.source_place (place places s.build_num) hs h)

  abbrev IsPending : Option Bytes → Type 0
  IsPending none = Unit
  IsPending (some b) = place places b < place places r.build_num

  put_candidate_other :
      (s : ManifestResponse) (m : Table Bytes)
      → eqb s.sha r.sha ≡ false
      → lookup r.sha (put_candidate places s m) ≡ lookup r.sha m
  unfolding put_candidate
  put_candidate_other s m e =
      elim (Bool-cases (is_older_than places (lookup s.sha m) (place places s.build_num))) [
        | inl test ↦ rw test (lookup-store_other s.sha r.sha s.build_num m e)
        | inr test ↦ rw test refl
      ]

  put_candidate_kept :
      (s : ManifestResponse) (m : Table Bytes)
      → IsNewerOrOther (some s)
      → lookup r.sha m ≡ some r.build_num
      → lookup r.sha (put_candidate places s m) ≡ some r.build_num
  put_candidate_kept s m h has = elim (Bool-cases (eqb s.sha r.sha)) [
    | inl e ↦ same (eqb-eq-true s.sha r.sha e)
    | inr e ↦ put_candidate_other s m e ∙ has
  ]
    where
      same : s.sha ≡ r.sha → lookup r.sha (put_candidate places s m) ≡ some r.build_num
      same e =
          let newer = h e in
          let test : ltb (place places r.build_num) (place places s.build_num) ≡ false =
            ground arith in
          let stays : put_candidate places s m ≡ m =
            candidate_stays places s m r.build_num (ap (λ k. lookup k m) e ∙ has) test in
          ap (lookup r.sha) stays ∙ has

  candidates_kept :
      (ys : List (Option ManifestResponse)) (st : Progress)
      → All IsNewerOrOther ys
      → lookup r.sha st.output.candidates ≡ some r.build_num
      → lookup r.sha (collect places ys st).output.candidates ≡ some r.build_num
  unfolding collect take_response
  candidates_kept [] st h has = has
  candidates_kept (none ∷ ys) st (_, h) has = candidates_kept ys st h has
  candidates_kept (some s ∷ ys) st (hs, h) has =
      candidates_kept ys (take_response places s st) h
        (put_candidate_kept s st.output.candidates hs has)

  put_candidate-IsPending :
      (s : ManifestResponse) (m : Table Bytes)
      → IsNewerOrOther (some s)
      → IsPending (lookup r.sha m)
      → IsPending (lookup r.sha (put_candidate places s m))
  put_candidate-IsPending s m h pending = elim (Bool-cases (eqb s.sha r.sha)) [
    | inl e ↦ same (eqb-eq-true s.sha r.sha e)
    | inr e ↦ subst IsPending (sym (put_candidate_other s m e)) pending
  ]
    where
      same : s.sha ≡ r.sha → IsPending (lookup r.sha (put_candidate places s m))
      same e = elim (candidate_put_or_kept places s m) [
        | inl put ↦
            subst IsPending (sym (ap (λ k. lookup k (put_candidate places s m)) (sym e) ∙ put))
              (h e)
        | inr kept ↦ subst IsPending (sym (ap (lookup r.sha) kept)) pending
      ]

  put_candidate_self :
      (m : Table Bytes)
      → IsPending (lookup r.sha m)
      → lookup r.sha (put_candidate places r m) ≡ some r.build_num
  unfolding put_candidate
  put_candidate_self m pending =
      let test = older_test (lookup r.sha m) pending in
      rw test (lookup-store_self r.sha r.build_num m)
    where
      older_test :
          (o : Option Bytes)
          → IsPending o
          → is_older_than places o (place places r.build_num) ≡ true
      older_test none h = refl
      older_test (some b) h = ground arith

  pub candidates_reached :
      (xs ys : List (Option ManifestResponse)) (st : Progress)
      → All IsNewerOrOther xs
      → All IsNewerOrOther ys
      → IsPending (lookup r.sha st.output.candidates)
      → lookup r.sha (collect places (xs ++ (some r ∷ ys)) st).output.candidates ≡ some r.build_num
  unfolding collect take_response
  candidates_reached [] ys st hx hy h =
      candidates_kept ys (take_response places r st) hy (put_candidate_self st.output.candidates h)
  candidates_reached (none ∷ xs) ys st (_, hx) hy h = candidates_reached xs ys st hx hy h
  candidates_reached (some s ∷ xs) ys st (hs, hx) hy h =
      candidates_reached xs ys (take_response places s st) hx hy
        (put_candidate-IsPending s st.output.candidates hs h)
