-- ===== src/Findbuild/Range/Window.antt =====
-- The window that the two binary searches cut out.
use cos_tools.Base.{
  ℕ, zero, suc, ◌+◌, ◌-◌, ◌==◌, ◌/◌, ◌≤◌, ◌<◌, Bool, false, not, ◌≡◌, refl, ltb, leb, ◌∙◌,
  Bool-cases, inl, inr, ◌⊎◌, arith, some, List, [], ◌∷◌, ◌++◌, append_assoc, length, get_elem?,
  take, drop, subst, All, All-append, length-append, ap, sym,
}
use cos_tools.Base.Outcome.{Outcome, done}
use cos_tools.Base.Parts.{drop-append, length-drop, take-append, index_either, All-imp}
use cos_tools.Gob.Errors.{ChangelogError}
use cos_tools.Gob.Commits.{Commit}
use cos_tools.Findbuild.Types.{ClData}
use cos_tools.Findbuild.Range.{
  find_earliest, find_latest, committed_at, before_range, after_range, candidate_manifest_commits,
}

-- The first index at or behind `m`, where the commits from `m` on are before the range; the last
-- index where there is none.
earliest_lem :
    (probe : ℕ → Outcome ChangelogError Bool) (m n k : ℕ)
    → ((i : ℕ) → i < n → probe i ≡ done (leb m i))
    → k ≤ m
    → k < n
    → m ≤ k ⊎ n ≤ suc k
    → (fuel left right : ℕ) → left ≤ k
    → k ≤ right
    → right < n
    → right < left + fuel
    → find_earliest probe fuel left right ≡ done k
unfolding find_earliest
earliest_lem probe m n k p km kn exact zero left right hl hr hn h =
    absurd (omega (arith, hl, hr, h))
earliest_lem probe m n k p km kn exact (suc fuel) left right hl hr hn h =
    let mid = (left + right) / 2 in
    elim (Bool-cases (ltb left right)) [
      | inl more ↦
          let inside : mid < n = ground arith in
          elim (Bool-cases (leb m mid)) [
            | inl before ↦
                rw (more, p mid inside, before)
                  (earliest_lem probe m n k p km kn exact fuel left mid hl (ground arith) inside
                    (ground arith))
            | inr not_before ↦
                rw (more, p mid inside, not_before)
                  (earliest_lem probe m n k p km kn exact fuel (mid + 1) right (ground arith) hr hn
                    (ground arith))
          ]
      | inr over ↦ let same : left ≡ k = ground arith in rw (over, same) refl
    ]

-- The last index below `a`, where the commits below `a` are after the range.
latest_lem :
    (probe : ℕ → Outcome ChangelogError Bool) (a n : ℕ)
    → ((i : ℕ) → i < n → probe i ≡ done (ltb i a))
    → (fuel left right : ℕ) → left ≤ a - 1
    → a - 1 ≤ right
    → right < n
    → right < left + fuel
    → find_latest probe fuel left right ≡ done (a - 1)
unfolding find_latest
latest_lem probe a n p zero left right hl hr hn h = absurd (omega (arith, hl, hr, h))
latest_lem probe a n p (suc fuel) left right hl hr hn h =
    let mid = (left + right) / 2 + 1 in
    elim (Bool-cases (ltb left right)) [
      | inl more ↦
          let inside : mid < n = ground arith in
          elim (Bool-cases (ltb mid a)) [
            | inl after ↦
                rw (more, p mid inside, after)
                  (latest_lem probe a n p fuel mid right (ground arith) hr hn (ground arith))
            | inr not_after ↦
                rw (more, p mid inside, not_after)
                  (latest_lem probe a n p fuel left (mid - 1) hl (ground arith) (ground arith)
                    (ground arith))
          ]
      | inr over ↦ let same : right ≡ a - 1 = ground arith in rw (over, same) refl
    ]

-- The first entry, if there is one.
first_count :
    {A : Type 0} (xs : List A)
    → (length xs ≡ 0 × length (take 1 xs) ≡ 0) ⊎ (0 < length xs × length (take 1 xs) ≡ 1)
first_count [] = inl (refl, refl)
first_count (x ∷ xs) = inr (omega arith, refl)

take_first : {A : Type 0} (xs : List A) → take (length (take 1 xs)) xs ≡ take 1 xs
take_first [] = refl
take_first (x ∷ xs) = refl

cut :
    {A : Type 0} (later inside earlier : List A)
    → take
        (length (later ++ inside) + length (take 1 earlier) - (length later - 1))
        (drop (length later - 1) (later ++ (inside ++ earlier)))
      ≡ drop (length later - 1) later ++ (inside ++ take 1 earlier)
cut later inside earlier =
    let l = length later - 1 in
    let f = length (take 1 earlier) in
    let count : length (later ++ inside) + f - l ≡ length (drop l later) + (length inside + f) =
      omega (arith, length-append later inside, length-drop l later) in
    ap (λ c. take c (drop l (later ++ (inside ++ earlier)))) count
    ∙ ap (λ t. take (length (drop l later) + (length inside + f)) t)
        (drop-append l later (inside ++ earlier) (omega arith))
    ∙ take-append (drop l later) (inside ++ earlier) (length inside + f)
    ∙ ap (λ t. drop l later ++ t) (take-append inside earlier f)
    ∙ ap (λ t. drop l later ++ (inside ++ t)) (take_first earlier)

module _ (cl_data : ClData) where
  abbrev pub IsAfter : Commit → Type 0
  IsAfter c = (t : ℕ) × (c.committer ≡ some t) × cl_data.search_end_range < t

  abbrev pub IsInside : Commit → Type 0
  IsInside c =
      (t : ℕ) × (c.committer ≡ some t)
      × cl_data.search_start_range ≤ t
      × t ≤ cl_data.search_end_range

  abbrev pub IsBefore : Commit → Type 0
  IsBefore c = (t : ℕ) × (c.committer ≡ some t) × t < cl_data.search_start_range

  abbrev FromStart : Commit → Type 0
  FromStart c = (t : ℕ) × (c.committer ≡ some t) × cl_data.search_start_range ≤ t

  abbrev UntilEnd : Commit → Type 0
  UntilEnd c = (t : ℕ) × (c.committer ≡ some t) × t ≤ cl_data.search_end_range

  before_probe :
      (xs ys : List Commit)
      → All FromStart xs
      → All IsBefore ys
      → (i : ℕ) → i < length (xs ++ ys)
      → before_range (xs ++ ys) cl_data i ≡ done (leb (length xs) i)
  unfolding before_range committed_at
  before_probe xs ys hx hy i h =
      let (c, e, side) = index_either FromStart IsBefore xs ys hx hy i h in
      elim side [
        | inl (lt, (t, time, from)) ↦
            let test : ltb t cl_data.search_start_range ≡ leb (length xs) i = ground arith in
            rw (e, time, test) refl
        | inr (le, (t, time, before)) ↦
            let test : ltb t cl_data.search_start_range ≡ leb (length xs) i = ground arith in
            rw (e, time, test) refl
      ]

  after_probe :
      (xs ys : List Commit)
      → All IsAfter xs
      → All UntilEnd ys
      → (i : ℕ) → i < length (xs ++ ys)
      → after_range (xs ++ ys) cl_data i ≡ done (ltb i (length xs))
  unfolding after_range committed_at
  after_probe xs ys hx hy i h =
      let (c, e, side) = index_either IsAfter UntilEnd xs ys hx hy i h in
      elim side [
        | inl (lt, (t, time, after)) ↦
            let test : ltb cl_data.search_end_range t ≡ ltb i (length xs) = ground arith in
            rw (e, time, test) refl
        | inr (le, (t, time, until)) ↦
            let test : ltb cl_data.search_end_range t ≡ ltb i (length xs) = ground arith in
            rw (e, time, test) refl
      ]

  module _ (order : cl_data.search_start_range ≤ cl_data.search_end_range) where
    after-FromStart : (c : Commit) → IsAfter c → FromStart c
    after-FromStart c (t, time, h) = (t, time, omega (arith, order, h))

    before-UntilEnd : (c : Commit) → IsBefore c → UntilEnd c
    before-UntilEnd c (t, time, h) = (t, time, omega (arith, order, h))

  inside-FromStart : (c : Commit) → IsInside c → FromStart c
  inside-FromStart c (t, time, h, _) = (t, time, h)

  inside-UntilEnd : (c : Commit) → IsInside c → UntilEnd c
  inside-UntilEnd c (t, time, _, h) = (t, time, h)

  newest :
      (xs ys : List Commit)
      → All FromStart xs
      → 0 < length xs
      → (c : Commit) × (get_elem? (xs ++ ys) 0 ≡ some c) × FromStart c
  newest [] ys hx h = absurd (omega (arith, h))
  newest (x ∷ xs) ys (px, hx) h = (x, refl, px)

  -- Of manifest commits of which the first are after the search range, the next inside it and the
  -- rest before it, where not all are before it, all inside the range are returned, with the last
  -- one after it and the first one before it where there are such, and the range can be expanded
  -- exactly if at least two are after it.
  pub candidate_manifest_commits_lem :
      (later inside earlier : List Commit)
      → All IsAfter later
      → All IsInside inside
      → All IsBefore earlier
      → cl_data.search_start_range ≤ cl_data.search_end_range
      → 0 < length (later ++ inside)
      → candidate_manifest_commits (later ++ (inside ++ earlier)) cl_data
        ≡ done (drop (length later - 1) later ++ (inside ++ take 1 earlier), ltb 1 (length later))
  unfolding candidate_manifest_commits
  candidate_manifest_commits_lem later inside earlier hl hi he order present =
      let xs = later ++ inside in
      let all = later ++ (inside ++ earlier) in
      let k = length xs + length (take 1 earlier) - 1 in
      let n = length all in
      let assoc : all ≡ xs ++ earlier = sym (append_assoc later inside earlier) in
      let total : n ≡ length xs + length earlier = ap length assoc ∙ length-append xs earlier in
      let from =
        All-append FromStart later inside
          (All-imp IsAfter FromStart (after-FromStart order) later hl)
          (All-imp IsInside FromStart inside-FromStart inside hi) in
      let till =
        All-append UntilEnd inside earlier (All-imp IsInside UntilEnd inside-UntilEnd inside hi)
          (All-imp IsBefore UntilEnd (before-UntilEnd order) earlier he) in
      let early : find_earliest (before_range all cl_data) n 0 (n - 1) ≡ done k =
        earliest_lem (before_range all cl_data) (length xs) n k
          (subst (λ l. (i : ℕ) → i < length l → before_range l cl_data i ≡ done (leb (length xs) i))
            (sym assoc) (before_probe xs earlier from he))
          (ground (arith, first_count earlier)) (ground (arith, total, first_count earlier))
          (ground (arith, total, first_count earlier)) n 0 (n - 1) (ground arith)
          (ground (arith, total, first_count earlier)) (ground (arith, total))
          (ground (arith, total)) in
      let late : find_latest (after_range all cl_data) n 0 k ≡ done (length later - 1) =
        latest_lem (after_range all cl_data) (length later) n
          (after_probe later (inside ++ earlier) hl till) n 0 k (ground arith)
          (ground (arith, length-append later inside)) (ground (arith, total, first_count earlier))
          (ground (arith, total, first_count earlier)) in
      let whole : k + 1 ≡ length xs + length (take 1 earlier) = ground (arith, present) in
      let more : not (length later - 1 == 0) ≡ ltb 1 (length later) = ground arith in
      let (c, first, side) = newest xs earlier from present in
      let (t, time, recent) = side in
      let guard : ltb t cl_data.search_start_range ≡ false = ground arith in
      rw (subst (λ l. get_elem? l 0 ≡ some c) (sym assoc) first, time, guard, early, late, more)
        (ap
            (λ m.
              done
                (take (m - (length later - 1)) (drop (length later - 1) all), ltb 1 (length later)))
            whole
          ∙ ap (λ l. done (l, ltb 1 (length later))) (cut later inside earlier))
