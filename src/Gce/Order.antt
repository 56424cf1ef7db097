-- ===== src/Gce/Order.antt =====
-- The order in which ResolveMilestone sorts images.
use cos_tools.Base.{◌<◌, ℕ, Bool, true, false, ◌≡◌, refl, ◌⊎◌, Bool-cases, inl, inr, arith}
use cos_tools.Gce.{DecodedImageName, build_part, differ_or, image_compare}

-- The order of images: by milestone, and by the three parts of the build number.
abbrev pub Precedes : DecodedImageName → DecodedImageName → Type 0
Precedes x y =
    (x.milestone < y.milestone)
    ⊎ ((x.milestone ≡ y.milestone)
        × ((build_part x 0 < build_part y 0)
            ⊎ ((build_part x 0 ≡ build_part y 0)
                × ((build_part x 1 < build_part y 1)
                    ⊎ ((build_part x 1 ≡ build_part y 1) × (build_part x 2 < build_part y 2))))))

differ_trans :
    (a b c : ℕ) (r s t : Bool)
    → (r ≡ true → s ≡ true → t ≡ true)
    → differ_or a b r ≡ true
    → differ_or b c s ≡ true
    → differ_or a c t ≡ true
differ_trans a b c r s t f h k = ground (arith, f, h, k)

differ_negtrans :
    (a b c : ℕ) (r s t : Bool)
    → (r ≡ false → s ≡ false → t ≡ false)
    → differ_or a b r ≡ false
    → differ_or b c s ≡ false
    → differ_or a c t ≡ false
differ_negtrans a b c r s t f h k = ground (arith, f, h, k)

differ_asym :
    (a b : ℕ) (r s : Bool)
    → (r ≡ true → s ≡ false)
    → differ_or a b r ≡ true
    → differ_or b a s ≡ false
differ_asym a b r s f h = ground (arith, f, h)

pub compare_trans :
    (x y z : DecodedImageName)
    → image_compare x y ≡ true
    → image_compare y z ≡ true
    → image_compare x z ≡ true
unfolding image_compare
compare_trans x y z = differ_trans x.milestone y.milestone z.milestone _ _ _ (
    differ_trans (build_part x 0) (build_part y 0) (build_part z 0) _ _ _ (
      differ_trans (build_part x 1) (build_part y 1) (build_part z 1) _ _ _ (
        differ_trans (build_part x 2) (build_part y 2) (build_part z 2) false false false
          (λ h k. h))))

pub compare_negtrans :
    (x y z : DecodedImageName)
    → image_compare x y ≡ false
    → image_compare y z ≡ false
    → image_compare x z ≡ false
unfolding image_compare
compare_negtrans x y z = differ_negtrans x.milestone y.milestone z.milestone _ _ _ (
    differ_negtrans (build_part x 0) (build_part y 0) (build_part z 0) _ _ _ (
      differ_negtrans (build_part x 1) (build_part y 1) (build_part z 1) _ _ _ (
        differ_negtrans (build_part x 2) (build_part y 2) (build_part z 2) false false false
          (λ h k. h))))

pub compare_asym : (x y : DecodedImageName) → image_compare x y ≡ true → image_compare y x ≡ false
unfolding image_compare
compare_asym x y = differ_asym x.milestone y.milestone _ _ (
    differ_asym (build_part x 0) (build_part y 0) _ _ (
      differ_asym (build_part x 1) (build_part y 1) _ _
        (differ_asym (build_part x 2) (build_part y 2) false false (λ h. refl))))

pub compare_irrefl : (x : DecodedImageName) → image_compare x x ≡ false
compare_irrefl x = elim (Bool-cases (image_compare x x)) [ inl e ↦ compare_asym x x e | inr e ↦ e ]

pub not_compare-Precedes : (x y : DecodedImageName) → image_compare x y ≡ false → ¬ Precedes x y
unfolding image_compare
not_compare-Precedes x y h later = ground (arith, h, later)
