-- ===== src/Gce/Tests.antt =====
-- Resolving a milestone at concrete images.
use cos_tools.Base.{some, List, [], ◌∷◌, ◌≡◌, refl}
use cos_tools.Base.Outcome.{done}
use cos_tools.Text.{Bytes, codes, eqb, digits_value, is_digit, split}
use cos_tools.Maps.{Table, lookup}
use cos_tools.Gob.Urls.{Matcher}
use cos_tools.Gce.{
  DecodedImageName, build_part, image_compare, insert_image, sort_images, new_decoded_image_name,
  in_milestone, resolve_milestone,
}

-- What the expression matches of four names.
abbrev matches : Table (List Bytes)
matches =
    (
      codes "cos-dev-72-11172-0-0",
      codes "cos-dev-72-11172-0-0" ∷ codes "72" ∷ codes "11172-0-0" ∷ [],
    )
    ∷ (codes "cos-rc-73-900-1-0", codes "cos-rc-73-900-1-0" ∷ codes "73" ∷ codes "900-1-0" ∷ [])
    ∷ (
      codes "cos-beta-72-9999-9-9",
      codes "cos-beta-72-9999-9-9" ∷ codes "72" ∷ codes "9999-9-9" ∷ [],
    )
    ∷ []

abbrev find_submatch : Matcher
find_submatch pattern text = lookup text matches

abbrev names : List Bytes
names =
    codes "cos-dev-72-11172-0-0"
    ∷ codes "cos-rc-73-900-1-0"
    ∷ codes "an-image"
    ∷ codes "cos-beta-72-9999-9-9"
    ∷ []

latest_72 : resolve_milestone find_submatch (some names) 72 ≡ done (codes "cos-dev-72-11172-0-0")
unfolding resolve_milestone in_milestone new_decoded_image_name sort_images insert_image
    image_compare build_part lookup eqb digits_value is_digit split
latest_72 = refl

-- The image with the smaller build number.
abbrev beta_image : DecodedImageName
beta_image = record {
  name = codes "cos-beta-72-9999-9-9";
  milestone = 72;
  build_number = codes "9999-9-9";
}
