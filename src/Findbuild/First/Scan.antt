-- ===== src/Findbuild/First/Scan.antt =====
-- What the two scans of a changelog find.
use cos_tools.Base.{
  ℕ, zero, suc, ◌+◌, ◌<◌, true, Option, none, some, List, [], ◌∷◌, ◌++◌, length, get_elem?, take,
  All, length-append, ◌≡◌, refl, sym, subst, ap, ◌∙◌, ◌≢◌, arith,
}
use cos_tools.Base.Outcome.{fail, or_else}
use cos_tools.Base.Parts.{take-append}
use cos_tools.Text.{Bytes, eqb}
use cos_tools.Text.Equal.{eqb_refl, eqb-eq-false}
use cos_tools.Maps.{Table, lookup}
use cos_tools.Gob.Commits.{Commit}
use cos_tools.Findbuild.Types.{ClData}
use cos_tools.Findbuild.First.{
  find_target, landing_not_found, found_or, scan, scan_from, first_build,
}

abbrev pub LacksRevision : Bytes → Commit → Type 0
LacksRevision revision c = c.id ≢ revision

-- The build of the oldest commit that has one.
abbrev pub older_or : Option Bytes → Option Bytes → Option Bytes
older_or newer none = newer
older_or newer (some build_num) = some build_num

abbrev pub oldest_build : Table Bytes → List Commit → Option Bytes
oldest_build candidates [] = none
oldest_build candidates (c ∷ cs) = older_or (lookup c.id candidates) (oldest_build candidates cs)

older_or_assoc : (a b c : Option Bytes) → older_or a (older_or b c) ≡ older_or (older_or a b) c
older_or_assoc a b none = refl
older_or_assoc a b (some x) = refl

oldest_build-snoc :
    (candidates : Table Bytes) (cs : List Commit) (c : Commit)
    → oldest_build candidates (cs ++ (c ∷ []))
      ≡ older_or (oldest_build candidates cs) (lookup c.id candidates)
oldest_build-snoc candidates [] c = flip (lookup c.id candidates)
  where
    flip : (o : Option Bytes) → older_or o none ≡ older_or none o
    flip none = refl
    flip (some x) = refl
oldest_build-snoc candidates (d ∷ cs) c =
    ap (older_or (lookup d.id candidates)) (oldest_build-snoc candidates cs c)
    ∙ older_or_assoc (lookup d.id candidates) (oldest_build candidates cs) (lookup c.id candidates)

find_target_none :
    (revision : Bytes) (cs : List Commit) (i : ℕ) (t : Option ℕ)
    → All (LacksRevision revision) cs
    → find_target revision cs i t ≡ t
unfolding find_target
find_target_none revision [] i t h = refl
find_target_none revision (c ∷ cs) i t (hc, h) =
    rw (eqb-eq-false c.id revision hc) (find_target_none revision cs (suc i) t h)

find_target_here :
    (revision : Bytes) (c : Commit) (cs : List Commit) (i : ℕ) (t : Option ℕ)
    → eqb c.id revision ≡ true
    → All (LacksRevision revision) cs
    → find_target revision (c ∷ cs) i t ≡ some i
unfolding find_target
find_target_here revision c cs i t e h = rw e (find_target_none revision cs (suc i) (some i) h)

find_target_last :
    (cl : Commit) (newer older : List Commit) (i : ℕ) (t : Option ℕ)
    → All (LacksRevision cl.id) older
    → find_target cl.id (newer ++ (cl ∷ older)) i t ≡ some (i + length newer)
unfolding find_target
find_target_last cl [] older i t h =
    find_target_here cl.id cl older i t (eqb_refl cl.id) h ∙ ap some (omega arith)
find_target_last cl (c ∷ newer) older i t h =
    find_target_last cl newer older (suc i) _ h ∙ ap some (omega arith)

take_snoc :
    (l : List Commit) (i : ℕ)
    → i < length l
    → (c : Commit) × (get_elem? l i ≡ some c) × (take (suc i) l ≡ take i l ++ (c ∷ []))
take_snoc [] i h = absurd (omega (arith, h))
take_snoc (x ∷ l) zero h = (x, refl, refl)
take_snoc (x ∷ l) (suc i) h =
    let (c, at, longer) = take_snoc l i (omega (arith, h)) in (c, at, ap (λ t. x ∷ t) longer)

module _ (cl_data : ClData) (candidates : Table Bytes) where
  or_older :
      (p q : Option Bytes)
      → found_or (or_else (landing_not_found cl_data) p) q
        ≡ or_else (landing_not_found cl_data) (older_or p q)
  or_older p none = refl
  or_older p (some b) = refl

  first_or :
      (q : Option Bytes)
      → found_or (fail (landing_not_found cl_data)) q ≡ or_else (landing_not_found cl_data) q
  first_or none = refl
  first_or (some b) = refl

  scan-take :
      (l : List Commit) (i : ℕ)
      → i < length l
      → scan l cl_data candidates i
        ≡ or_else (landing_not_found cl_data) (oldest_build candidates (take (suc i) l))
  unfolding scan
  scan-take [] i h = absurd (omega (arith, h))
  scan-take (x ∷ l) zero h = first_or (lookup x.id candidates)
  scan-take (x ∷ l) (suc i) h =
      let (c, at, longer) = take_snoc (x ∷ l) (suc i) h in
      rw (at, scan-take (x ∷ l) i (omega (arith, h)))
        (or_older (oldest_build candidates (take (suc i) (x ∷ l))) (lookup c.id candidates)
          ∙ ap (or_else (landing_not_found cl_data))
              (sym (oldest_build-snoc candidates (take (suc i) (x ∷ l)) c))
          ∙ ap (λ t. or_else (landing_not_found cl_data) (oldest_build candidates t)) (sym longer))

  scan_lem :
      (before : List Commit) (c : Commit) (after : List Commit) (i : ℕ)
      → i ≡ length before
      → scan (before ++ (c ∷ after)) cl_data candidates i
        ≡ or_else (landing_not_found cl_data) (oldest_build candidates (before ++ (c ∷ [])))
  scan_lem before c after i h = rw h (
      scan-take (before ++ (c ∷ after)) (length before)
        (omega (arith, length-append before (c ∷ after)))
      ∙ ap (λ l. or_else (landing_not_found cl_data) (oldest_build candidates l))
          (ap (λ n. take n (before ++ (c ∷ after))) {x = suc (length before)} (omega arith)
            ∙ take-append before (c ∷ after) 1))

  -- In a changelog with the newest commit first, where no commit behind a commit of the change
  -- has its revision, the first build is that of the oldest commit with a build, from that commit
  -- on towards the newer ones; without one no build is found.
  pub first_build_lem :
      (cl : Commit) (newer older : List Commit)
      → cl.id ≡ cl_data.revision
      → All (LacksRevision cl_data.revision) older
      → first_build (newer ++ (cl ∷ older)) cl_data candidates
        ≡ or_else (landing_not_found cl_data) (oldest_build candidates (newer ++ (cl ∷ [])))
  unfolding first_build
  first_build_lem cl newer older e h =
      ap (scan_from (newer ++ (cl ∷ older)) cl_data candidates) (
        subst (λ r. find_target r (newer ++ (cl ∷ older)) 0 none ≡ some (0 + length newer)) e
          (find_target_last cl newer older 0 none
            (subst (λ r. All (LacksRevision r) older) (sym e) h)))
      ∙ scan_lem newer cl older (0 + length newer) (omega arith)
