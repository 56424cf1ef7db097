-- ===== src/Gce.antt =====
-- The image of a milestone (function ResolveMilestone of pkg/gce/gce.go).
pub mod Order
pub mod Latest
pub mod Resolved
mod Tests
use cos_tools.Base.{
  ℕ, Bool, true, false, not, Option, none, some, List, [], ◌∷◌, get_elem?, ltb, ◌==◌, if◌then◌else◌,
}
use cos_tools.Base.Outcome.{Outcome, fail, done, ◌>>=◌, or_else}
use cos_tools.Text.{Bytes, codes, digits_value, split}
use cos_tools.Gob.Urls.{Matcher}

-- The errors: an image that is not found, and one of the call.
pub data ImageError : Type 0 where
  image_not_found : ImageError
  list_failed : ImageError

-- The largest value of an int.
abbrev pub max_int : ℕ
max_int = 9_223_372_036_854_775_807

abbrev pub in_range : Option ℕ → Option ℕ
in_range none = none
in_range (some n) = if ltb max_int n then none else some n

-- `strconv.Atoi` on digits, and its value where the error is not looked at.
abbrev pub atoi : Bytes → Option ℕ
atoi s = in_range (digits_value 0 s)

abbrev pub clamped : Option ℕ → ℕ
clamped none = 0
clamped (some n) = if ltb max_int n then max_int else n

abbrev pub atoi_value : Bytes → ℕ
atoi_value s = clamped (digits_value 0 s)

pub record DecodedImageName : Type 0 where
  pub name : Bytes
  pub milestone : ℕ
  pub build_number : Bytes

abbrev pub with_milestone : (name build_number : Bytes) → Option ℕ → Option DecodedImageName
with_milestone name build_number none = none
with_milestone name build_number (some milestone) =
    some (record { name = name; milestone = milestone; build_number = build_number })

-- The match and its two groups: the expression has two, so no match has another number of them,
-- where reading a group would panic.
abbrev pub decoded : Bytes → Option (List Bytes) → Option DecodedImageName
decoded name (some (_ ∷ milestone ∷ build_number ∷ [])) =
    with_milestone name build_number (atoi milestone)
decoded name _ = none

-- A part of a build number. The expression leaves three parts of digits, so that no index is behind
-- the last one, where reading the part would panic.
abbrev pub or_blank : Option Bytes → Bytes
or_blank none = []
or_blank (some part) = part

unfoldable pub build_part : DecodedImageName → ℕ → ℕ
build_part image i = atoi_value (or_blank (get_elem? (split image.build_number b'-') i))

-- The loop over the parts.
abbrev pub differ_or : ℕ → ℕ → Bool → Bool
differ_or first_num second_num rest =
    if not (first_num == second_num) then ltb first_num second_num else rest

unfoldable pub image_compare : DecodedImageName → DecodedImageName → Bool
image_compare first second = differ_or first.milestone second.milestone (
    differ_or (build_part first 0) (build_part second 0) (
      differ_or (build_part first 1) (build_part second 1)
        (differ_or (build_part first 2) (build_part second 2) false)))

-- `sort.Slice`: which order equal images get is not relied on.
unfoldable pub insert_image : DecodedImageName → List DecodedImageName → List DecodedImageName
insert_image image [] = image ∷ []
insert_image image (first ∷ images) =
    let rest = insert_image image images in
    if image_compare first image then first ∷ rest else image ∷ first ∷ images

unfoldable pub sort_images : List DecodedImageName → List DecodedImageName
sort_images [] = []
sort_images (image ∷ images) = insert_image image (sort_images images)

abbrev pub last_image : List DecodedImageName → Option DecodedImageName
last_image [] = none
last_image (image ∷ []) = some image
last_image (image ∷ next ∷ images) = last_image (next ∷ images)

abbrev pub keep_milestone :
    ℕ → Option DecodedImageName → List DecodedImageName → List DecodedImageName
keep_milestone milestone none images = images
keep_milestone milestone (some image) images =
    if image.milestone == milestone then image ∷ images else images

abbrev pub latest_name : Option DecodedImageName → Outcome ImageError Bytes
latest_name none = fail image_not_found
latest_name (some image) = done image.name

module _ (find_submatch : Matcher) where
  unfoldable pub new_decoded_image_name : Bytes → Option DecodedImageName
  new_decoded_image_name name =
      decoded name (find_submatch (codes "[a-z0-9-]+-[a-z]+-([0-9]+)-([0-9]+-[0-9]+-[0-9]+)") name)

  unfoldable pub in_milestone : ℕ → List Bytes → List DecodedImageName
  in_milestone milestone [] = []
  in_milestone milestone (name ∷ names) =
      keep_milestone milestone (new_decoded_image_name name) (in_milestone milestone names)

  -- `names` are those of the images of cos-cloud, or `none` where they cannot be listed.
  unfoldable pub resolve_milestone : (names : Option (List Bytes)) → ℕ → Outcome ImageError Bytes
  resolve_milestone names milestone = do
    images ← or_else list_failed names
    latest_name (last_image (sort_images (in_milestone milestone images)))
