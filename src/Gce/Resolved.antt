-- ===== src/Gce/Resolved.antt =====
-- The images of a milestone, told from their names, and the one that the milestone is resolved to.
use cos_tools.Base.{ℕ, Option, some, List, [], ◌∷◌, ◌≡◌, ◌⊎◌}
use cos_tools.Text.{Bytes, codes}
use cos_tools.Gob.Urls.{Matcher}
use cos_tools.Gce.{DecodedImageName, atoi}

-- A name is listed.
abbrev pub IsListed : Bytes → List Bytes → Type 0
IsListed name [] = ⊥
IsListed name (first ∷ names) = (name ≡ first) ⊎ IsListed name names

module _ (find_submatch : Matcher) (milestone : ℕ) where
  -- The expression matches the name, its first group is the number of the milestone, and its second
  -- one the build number.
  abbrev pub HasMilestone : DecodedImageName → Type 0
  HasMilestone image =
      (whole digits : Bytes) × (find_submatch
          (codes "[a-z0-9-]+-[a-z]+-([0-9]+)-([0-9]+-[0-9]+-[0-9]+)") image.name
        ≡ some (whole ∷ digits ∷ image.build_number ∷ []))
      × (atoi digits ≡ some milestone)
      × (image.milestone ≡ milestone)

  -- A listed image of the milestone.
  abbrev pub IsImageOf : List Bytes → DecodedImageName → Type 0
  IsImageOf names image = IsListed image.name names × HasMilestone image
