-- ===== src/Gob/Commits/Pages.antt =====
-- What Commits returns from a server that hands a history out page by page.
use cos_tools.Base.{
  ℕ, zero, suc, ◌+◌, ◌-◌, ◌≤◌, ◌<◌, Bool, true, false, not, ◌||◌, ◌&&◌, List, [], ◌∷◌, ◌++◌, length,
  take, drop, ◌≡◌, refl, ap, sym, ◌∙◌, ltb, if◌then◌else◌, Bool-cases, inl, inr, arith,
}
use cos_tools.Base.Outcome.{Outcome, done}
use cos_tools.Text.{Bytes}
use cos_tools.Gob.Errors.{GoError}
use cos_tools.Gob.Commits.{
  Commit, Gitiles, at_most, unlimited, limit_page_size, is_blank, grow, next_commits, more_commits,
  commits_from, commits,
}

module _ {A : Type 0} where
  take_nil : (n : ℕ) → take {A = A} n [] ≡ []
  take_nil zero = refl
  take_nil (suc n) = refl

  take_add : (m n : ℕ) (xs : List A) → take m xs ++ take n (drop m xs) ≡ take (m + n) xs
  take_add zero n xs = ap (λ k. take k xs) (omega arith)
  take_add (suc m) n [] = take_nil n ∙ sym (take_nil (suc m + n))
  take_add (suc m) n (x ∷ xs) =
      let shift : suc m + n ≡ suc (m + n) = omega arith in
      rw shift (ap (λ t. x ∷ t) (take_add m n xs))

  take_all : (n : ℕ) (xs : List A) → length xs ≤ n → take n xs ≡ xs
  take_all zero [] h = refl
  take_all zero (x ∷ xs) h = absurd (omega (arith, h))
  take_all (suc n) [] h = refl
  take_all (suc n) (x ∷ xs) h = ap (λ t. x ∷ t) (take_all n xs (omega (arith, h)))

module _ {A : Type 0} where
  if_true : (b : Bool) (x y : A) → b ≡ true → (if b then x else y) ≡ x
  if_true true x y h = refl
  if_true false x y h = absurd (ground (arith, h))

  if_false : (b : Bool) (x y : A) → b ≡ false → (if b then x else y) ≡ y
  if_false false x y h = refl
  if_false true x y h = absurd (ground (arith, h))

-- A server that fills its pages: the commits of a page, and the token of the next one, if any
-- commit is left.
module _ (client : Gitiles) (repo committish ancestor : Bytes) where
  abbrev token_at : (ℕ → Bytes) → List Commit → ℕ → Bytes
  token_at token all n = if ltb n (length all) then token n else []

  pub record Serves (all : List Commit) : Type 0 where
    pub token : ℕ → Bytes
    pub token_lem : (n : ℕ) → is_blank (token n) ≡ false
    pub first_lem :
        (size : ℕ)
        → 0 < size
        → next_commits client repo committish ancestor [] size
          ≡ done (record { log = take size all; next_page_token = token_at token all size })
    pub later_lem :
        (n size : ℕ)
        → 0 < size
        → next_commits client repo committish ancestor (token n) size
          ≡ done (record {
            log = take size (drop n all);
            next_page_token = token_at token all (n + size);
          })

limit-le : (page query : ℕ) → limit_page_size page query false ≤ query
unfolding limit_page_size
limit-le page query = ground arith

limit_positive : (page query : ℕ) → 0 < page → 0 < query → 0 < limit_page_size page query false
unfolding limit_page_size
limit_positive page query hp hq = ground arith

limit_positive_all : (page query : ℕ) → 0 < page → 0 < limit_page_size page query true
unfolding limit_page_size
limit_positive_all page query hp = ground arith

grow_positive : (page : ℕ) → 0 < page → 0 < grow page
grow_positive page h = ground arith

module _ (client : Gitiles) (repo committish ancestor : Bytes) {all : List Commit}
    (s : Serves client repo committish ancestor all) where
  more_token :
      (n : ℕ)
      → not (is_blank (token_at client repo committish ancestor s.token all n)) ≡ ltb n (length all)
  more_token n = elim (Bool-cases (ltb n (length all))) [
    | inl more ↦ rw (more, s.token_lem n) refl
    | inr none_left ↦ rw none_left refl
  ]

  abbrev loop : Bool → ℕ → ℕ → ℕ → ℕ → Outcome GoError (List Commit × Bool)
  loop no_limit fuel query page n =
      more_commits client repo committish ancestor no_limit fuel query page (take n all)
        (token_at client repo committish ancestor s.token all n)

  -- One round, where a page is left and wanted.
  round :
      (no_limit : Bool) (fuel query page n : ℕ)
      → n < length all
      → no_limit || ltb 0 query ≡ true
      → 0 < limit_page_size (grow page) query no_limit
      → loop no_limit (suc fuel) query page n
        ≡ loop no_limit fuel
            (query - limit_page_size (grow page) query no_limit)
            (limit_page_size (grow page) query no_limit)
            (n + limit_page_size (grow page) query no_limit)
  unfolding more_commits
  round no_limit fuel query page n left wanted some =
      let more : ltb n (length all) ≡ true = ground arith in
      let size = limit_page_size (grow page) query no_limit in
      rw (wanted, more, s.token_lem n, s.later_lem n size some, take_add n size all) refl

  -- A round that is not made.
  stops :
      (no_limit : Bool) (fuel query page n : ℕ)
      → (no_limit || ltb 0 query) && ltb n (length all) ≡ false
      → loop no_limit (suc fuel) query page n ≡ done (take n all, ltb n (length all))
  unfolding more_commits
  stops no_limit fuel query page n stop = rw (more_token n, stop) refl

  loop_all :
      (fuel query page n : ℕ)
      → 0 < page
      → 0 < fuel
      → length all < fuel + n
      → loop true fuel query page n ≡ done (all, false)
  loop_all zero query page n hp hf h = absurd (omega (arith, hf))
  loop_all (suc fuel) query page n hp hf h = elim (Bool-cases (ltb n (length all))) [
    | inl more ↦
        let some = limit_positive_all (grow page) query (grow_positive page hp) in
        round true fuel query page n (ground arith) refl some
        ∙ loop_all fuel _ _ _ some (ground arith) (omega (arith, h, some))
    | inr none_left ↦
        stops true fuel query page n none_left ∙ rw (none_left, take_all n all (ground arith)) refl
  ]

  loop_limited :
      (fuel query page n : ℕ)
      → 0 < page
      → query < fuel
      → loop false fuel query page n ≡ done (take (n + query) all, ltb (n + query) (length all))
  loop_limited zero query page n hp h = absurd (omega (arith, h))
  loop_limited (suc fuel) zero page n hp h =
      let same : n + 0 ≡ n = omega arith in stops false fuel 0 page n refl ∙ rw same refl
  loop_limited (suc fuel) (suc query) page n hp h = elim (Bool-cases (ltb n (length all))) [
    | inl more ↦
        let some = limit_positive (grow page) (suc query) (grow_positive page hp) (omega arith) in
        let fits = limit-le (grow page) (suc query) in
        let size = limit_page_size (grow page) (suc query) false in
        let total : n + size + (suc query - size) ≡ n + suc query = omega (arith, fits) in
        round false fuel (suc query) page n (ground arith) (ground arith) some
        ∙ loop_limited fuel (suc query - size) size (n + size) some (omega (arith, h, some))
        ∙ rw total refl
    | inr none_left ↦
        let short : length all ≤ n = ground arith in
        let still : ltb (n + suc query) (length all) ≡ false = ground arith in
        stops false fuel (suc query) page n (ground arith)
        ∙ rw
            (
              none_left,
              still,
              take_all n all short,
              take_all (n + suc query) all (omega (arith, short)),
            )
            refl
  ]

  -- Behind the first page the loop goes on, or it ends where that page was the last.
  first_page :
      (no_limit : Bool) (fuel query : ℕ)
      → 0 < limit_page_size 100 query no_limit
      → commits_from client repo committish ancestor no_limit fuel query ≡ (
          if ltb (limit_page_size 100 query no_limit) (length all)
          then loop no_limit fuel
              (query - limit_page_size 100 query no_limit)
              (limit_page_size 100 query no_limit)
              (limit_page_size 100 query no_limit)
          else done (take (limit_page_size 100 query no_limit) all, false))
  unfolding commits_from
  first_page no_limit fuel query some =
      let size = limit_page_size 100 query no_limit in
      elim (Bool-cases (ltb size (length all))) [
        | inl more ↦ rw (s.first_lem size some, more, s.token_lem size) refl
        | inr none_left ↦ rw (s.first_lem size some, none_left) refl
      ]

  -- From a server that hands a history out in full pages, all its commits are retrieved where no
  -- limit is set and the fuel exceeds their number.
  pub commits_unlimited :
      (fuel : ℕ)
      → length all < fuel
      → commits fuel client repo committish ancestor unlimited ≡ done (all, false)
  unfolding commits
  commits_unlimited fuel h =
      let some = limit_positive_all 100 0 (omega arith) in
      let size = limit_page_size 100 0 true in
      first_page true fuel 0 some ∙ elim (Bool-cases (ltb size (length all))) [
        | inl more ↦
            if_true (ltb size (length all)) _ _ more
            ∙ loop_all fuel (0 - size) size size some (omega (arith, h)) (omega (arith, h, some))
        | inr none_left ↦
            if_false (ltb size (length all)) _ _ none_left
            ∙ rw (take_all size all (ground arith)) refl
      ]

  -- From a server that hands a history out in full pages, a positive limit below the fuel
  -- retrieves the first commits up to that number, and says whether there are more.
  pub commits_at_most :
      (fuel query : ℕ)
      → 0 < query
      → query < fuel
      → commits fuel client repo committish ancestor (at_most query)
        ≡ done (take query all, ltb query (length all))
  unfolding commits
  commits_at_most fuel query hq h =
      let some = limit_positive 100 query (omega arith) hq in
      let fits = limit-le 100 query in
      let size = limit_page_size 100 query false in
      let total : size + (query - size) ≡ query = omega (arith, fits) in
      first_page false fuel query some ∙ elim (Bool-cases (ltb size (length all))) [
        | inl more ↦
            if_true (ltb size (length all)) _ _ more
            ∙ loop_limited fuel (query - size) size size some (omega (arith, h))
            ∙ rw total refl
        | inr none_left ↦
            let short : length all ≤ size = ground arith in
            let still : ltb query (length all) ≡ false = ground arith in
            if_false (ltb size (length all)) _ _ none_left
            ∙ rw (still, take_all size all short, take_all query all (omega (arith, short, fits)))
                refl
      ]
