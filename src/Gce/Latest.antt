-- ===== src/Gce/Latest.antt =====
-- The image that a milestone is resolved to is the latest one.
use cos_tools.Base.{
  ℕ, true, false, some, List, [], ◌∷◌, All, ◌≡◌, refl, sym, ap, ◌≢◌, ◌⊎◌, Bool-cases, inl, inr,
  arith,
}
use mathlib.Core.Option.{some-injective}
use cos_tools.Base.Outcome.{done}
use cos_tools.Base.Parts.{All-imp}
use cos_tools.Text.{Bytes}
use cos_tools.Gob.Urls.{Matcher}
use cos_tools.Gce.Order.{
  Precedes, compare_trans, compare_negtrans, compare_asym, compare_irrefl, not_compare-Precedes,
}
use cos_tools.Gce.{
  DecodedImageName, image_compare, insert_image, sort_images, last_image, in_milestone, latest_name,
  resolve_milestone,
}

-- No image is greater for the comparison.
abbrev IsGreatest : DecodedImageName → List DecodedImageName → Type 0
IsGreatest l = All (λ image. image_compare l image ≡ false)

abbrev pub IsIn : DecodedImageName → List DecodedImageName → Type 0
IsIn l [] = ⊥
IsIn l (image ∷ images) = (l ≡ image) ⊎ IsIn l images

last-cons :
    (y : DecodedImageName) (images : List DecodedImageName) {l : DecodedImageName}
    → last_image images ≡ some l
    → last_image (y ∷ images) ≡ some l
last-cons y [] e = cc
last-cons y (z ∷ images) e = e

last-IsIn :
    (images : List DecodedImageName) {l : DecodedImageName}
    → last_image images ≡ some l
    → IsIn l images
last-IsIn [] e = cc
last-IsIn (y ∷ []) e = inl (sym (some-injective _ _ e))
last-IsIn (y ∷ z ∷ images) e = inr (last-IsIn (z ∷ images) e)

insert_image-All :
    (P : DecodedImageName → Type 0) (x : DecodedImageName) (images : List DecodedImageName)
    → All P (x ∷ images)
    → All P (insert_image x images)
unfolding insert_image
insert_image-All P x [] h = h
insert_image-All P x (y ∷ images) (px, (py, h)) = elim (Bool-cases (image_compare y x)) [
  | inl e ↦ rw e (py, insert_image-All P x images (px, h))
  | inr e ↦ rw e (px, (py, h))
]

passed-IsIn :
    (l x y : DecodedImageName) (images : List DecodedImageName) {inserted : Type 0}
    → (inserted → IsIn l (x ∷ images))
    → (l ≡ y) ⊎ inserted
    → IsIn l (x ∷ y ∷ images)
passed-IsIn l x y images f (inl here) = inr (inl here)
passed-IsIn l x y images f (inr there) = elim (f there) [
  | inl here ↦ inl here
  | inr behind ↦ inr (inr behind)
]

insert_image-IsIn :
    (l x : DecodedImageName) (images : List DecodedImageName)
    → IsIn l (insert_image x images)
    → IsIn l (x ∷ images)
unfolding insert_image
insert_image-IsIn l x [] = λ h. h
insert_image-IsIn l x (y ∷ images) = elim (Bool-cases (image_compare y x)) [
  | inl e ↦ rw e (passed-IsIn l x y images (insert_image-IsIn l x images))
  | inr e ↦ rw e (λ h. h)
]

-- The last image of a list is later than none of another one.
abbrev HasLatest : List DecodedImageName → List DecodedImageName → Type 0
HasLatest sorted images =
    (l : DecodedImageName) × (last_image sorted ≡ some l) × IsGreatest l images

insert_latest_one :
    (x y : DecodedImageName) → image_compare y x ≡ true → HasLatest (y ∷ x ∷ []) (x ∷ y ∷ [])
insert_latest_one x y e = (x, refl, (compare_irrefl x, (compare_asym y x e, tt)))

insert_latest :
    (x y : DecodedImageName) (images : List DecodedImageName)
    → HasLatest (y ∷ images) (y ∷ images)
    → HasLatest (insert_image x (y ∷ images)) (x ∷ y ∷ images)
unfolding insert_image
insert_latest x y [] (l, e, (top_y, top)) = elim (Bool-cases (image_compare y x)) [
  | inr stop ↦ rw stop (l, e, (compare_negtrans l y x top_y stop, (top_y, top)))
  | inl less ↦ rw less (insert_latest_one x y less)
]
insert_latest x y (z ∷ zs) (l, e, (top_y, top)) = elim (Bool-cases (image_compare y x)) [
  | inr stop ↦ rw stop (l, e, (compare_negtrans l y x top_y stop, (top_y, top)))
  | inl less ↦
      let (m, at, (top_x, behind)) = insert_latest x z zs (l, e, top) in
      rw less (m, last-cons y (insert_image x (z ∷ zs)) at, (top_x, (above m less top_x, behind)))
]
  where
    above :
        (m : DecodedImageName)
        → image_compare y x ≡ true
        → image_compare m x ≡ false
        → image_compare m y ≡ false
    above m less top_x = elim (Bool-cases (image_compare m y)) [
      | inl later ↦ absurd (ground (arith, compare_trans m y x later less, top_x))
      | inr e ↦ e
    ]

-- Of the sorted list itself.
sorted_latest :
    (image : DecodedImageName) (images : List DecodedImageName)
    → HasLatest (sort_images (image ∷ images)) (sort_images (image ∷ images))
unfolding sort_images insert_image
sorted_latest image [] = (image, refl, (compare_irrefl image, tt))
sorted_latest image (next ∷ images) =
    put image (sort_images (next ∷ images)) (sorted_latest next images)
  where
    put :
        (x : DecodedImageName) (sorted : List DecodedImageName)
        → HasLatest sorted sorted
        → HasLatest (insert_image x sorted) (insert_image x sorted)
    put x [] (l, e, top) = (x, refl, (compare_irrefl x, tt))
    put x (y ∷ sorted) h =
        let (l, e, top) = insert_latest x y sorted h in
        (l, e, insert_image-All (λ i. image_compare l i ≡ false) x (y ∷ sorted) top)

All-insert_image :
    (P : DecodedImageName → Type 0) (x : DecodedImageName) (images : List DecodedImageName)
    → All P (insert_image x images)
    → All P (x ∷ images)
unfolding insert_image
All-insert_image P x [] = λ h. h
All-insert_image P x (y ∷ images) = elim (Bool-cases (image_compare y x)) [
  | inl e ↦ rw e (λ h. turned (h.0) (All-insert_image P x images (h.1)))
  | inr e ↦ rw e (λ h. h)
]
  where
    turned : P y → All P (x ∷ images) → All P (x ∷ y ∷ images)
    turned py (px, h) = (px, (py, h))

All-sort_images :
    (P : DecodedImageName → Type 0) (images : List DecodedImageName)
    → All P (sort_images images)
    → All P images
unfolding sort_images
All-sort_images P [] h = h
All-sort_images P (x ∷ images) h =
    let (px, rest) = All-insert_image P x (sort_images images) h in
    (px, All-sort_images P images rest)

sort_images-IsIn :
    (l : DecodedImageName) (images : List DecodedImageName)
    → IsIn l (sort_images images)
    → IsIn l images
unfolding sort_images
sort_images-IsIn l [] h = h
sort_images-IsIn l (x ∷ images) h = elim (insert_image-IsIn l x (sort_images images) h) [
  | inl here ↦ inl here
  | inr there ↦ inr (sort_images-IsIn l images there)
]

last-sort_images :
    (images : List DecodedImageName)
    → images ≢ []
    → (l : DecodedImageName) × (last_image (sort_images images) ≡ some l)
      × IsIn l images
      × IsGreatest l images
last-sort_images [] present = absurd (present refl)
last-sort_images (x ∷ images) present =
    let (l, e, top) = sorted_latest x images in
    (
      l,
      e,
      sort_images-IsIn l (x ∷ images) (last-IsIn (sort_images (x ∷ images)) e),
      All-sort_images (λ i. image_compare l i ≡ false) (x ∷ images) top,
    )

-- No image is later.
abbrev pub IsLatest : DecodedImageName → List DecodedImageName → Type 0
IsLatest l = All (λ image. ¬ Precedes l image)

pub resolve_milestone-IsLatest :
    (find_submatch : Matcher) (names : List Bytes) (milestone : ℕ)
    → in_milestone find_submatch milestone names ≢ []
    → (l : DecodedImageName) × (resolve_milestone find_submatch (some names) milestone
        ≡ done l.name)
      × IsIn l (in_milestone find_submatch milestone names)
      × IsLatest l (in_milestone find_submatch milestone names)
unfolding resolve_milestone
resolve_milestone-IsLatest find_submatch names milestone present =
    let images = in_milestone find_submatch milestone names in
    let (l, e, isin, top) = last-sort_images images present in
    (
      l,
      ap latest_name e,
      isin,
      All-imp (λ i. image_compare l i ≡ false) (λ i. ¬ Precedes l i) (not_compare-Precedes l) images
          top,
    )
