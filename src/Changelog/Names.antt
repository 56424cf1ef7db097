-- ===== src/Changelog/Names.antt =====
-- The build number of an image name (function resolveImageName of pkg/changelog/changelog.go).
pub mod Resolved
use cos_tools.Base.{
  ℕ, zero, suc, Bool, true, false, ◌&&◌, ◌||◌, not, Option, none, some, List, [], ◌∷◌, ◌++◌, drop,
  ◌==◌, if◌then◌else◌,
}
use cos_tools.Text.{Bytes, codes, has_prefix, is_digit}

unfoldable pub skip_digits : Bytes → Bytes
skip_digits [] = []
skip_digits (c ∷ s) = let rest = skip_digits s in if is_digit c then rest else c ∷ s

unfoldable pub all_in_number : Bytes → Bool
all_in_number [] = true
all_in_number (c ∷ s) = (is_digit c || c == b'-') && all_in_number s

-- The group `(dev-|beta-|stable-|rc-)?`.
unfoldable pub strip_channel : Bytes → Bytes
strip_channel s =
    if has_prefix (codes "dev-") s
    then drop 4 s
    else if has_prefix (codes "beta-") s
    then drop 5 s
    else if has_prefix (codes "stable-") s
    then drop 7 s
    else if has_prefix (codes "rc-") s
    then drop 3 s
    else s

-- `-([\d-]+)$`
unfoldable pub match_number : Bytes → Option Bytes
match_number [] = none
match_number (d ∷ []) = none
match_number (d ∷ c ∷ s) = if d == b'-' && all_in_number (c ∷ s) then some (c ∷ s) else none

-- `\d+` and what follows it
unfoldable pub match_milestone : Bytes → Option Bytes
match_milestone [] = none
match_milestone (c ∷ s) =
    let rest = match_number (skip_digits s) in if is_digit c then rest else none

-- The second group of `imageBuildRe`.
unfoldable pub image_build : Bytes → Option Bytes
image_build s =
    if has_prefix (codes "cos-") s then match_milestone (strip_channel (drop 4 s)) else none

-- `strings.Replace(s, "-", ".", n)`
unfoldable pub dots_for_dashes : ℕ → Bytes → Bytes
dots_for_dashes n [] = []
dots_for_dashes zero (c ∷ s) = c ∷ s
dots_for_dashes (suc n) (c ∷ s) =
    let rest = dots_for_dashes (suc n) s in
    let fewer = dots_for_dashes n s in if c == b'-' then b'.' ∷ fewer else c ∷ rest

abbrev pub dotted_or : Bytes → Option Bytes → Bytes
dotted_or image_name none = image_name
dotted_or image_name (some number) = dots_for_dashes 3 number

unfoldable pub resolve_image_name : Bytes → Bytes
resolve_image_name image_name = dotted_or image_name (image_build image_name)
