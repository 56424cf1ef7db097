-- ===== src/Changelog/Names/Resolved.antt =====
-- The build number that an image name is resolved to.
use cos_tools.Base.{ℕ, suc, true, false, some, [], ◌∷◌, ◌++◌, ◌==◌, ◌≡◌, ◌≢◌, refl, ap, ◌∙◌, arith}
use cos_tools.Text.{Bytes, codes, has_prefix, is_digit}
use cos_tools.Text.Decimal.{AreDigits}
use cos_tools.Changelog.Names.{
  skip_digits, all_in_number, strip_channel, match_number, match_milestone, image_build,
  dots_for_dashes, dotted_or, resolve_image_name,
}

pub data Channel : Type 0 where
  no_channel dev beta stable rc : Channel

abbrev pub channel_text : Channel → Bytes
channel_text no_channel = []
channel_text dev = codes "dev-"
channel_text beta = codes "beta-"
channel_text stable = codes "stable-"
channel_text rc = codes "rc-"

skip_digits_lem : (s t : Bytes) → AreDigits s → skip_digits (s ++ (b'-' ∷ t)) ≡ b'-' ∷ t
unfolding skip_digits is_digit
skip_digits_lem [] t h = refl
skip_digits_lem (c ∷ s) t (hc, h) = rw hc (skip_digits_lem s t h)

all_in_number_lem : (s t : Bytes) → AreDigits s → all_in_number (s ++ t) ≡ all_in_number t
unfolding all_in_number
all_in_number_lem [] t h = refl
all_in_number_lem (c ∷ s) t (hc, h) = rw hc (all_in_number_lem s t h)

digit-dash : (c : ℕ) → is_digit c ≡ true → c == b'-' ≡ false
unfolding is_digit
digit-dash c h = ground (arith, h)

dots_lem :
    (n : ℕ) (s t : Bytes)
    → AreDigits s
    → dots_for_dashes (suc n) (s ++ t) ≡ s ++ dots_for_dashes (suc n) t
unfolding dots_for_dashes
dots_lem n [] t h = refl
dots_lem n (c ∷ s) t (hc, h) = rw (digit-dash c hc) (ap (λ r. c ∷ r) (dots_lem n s t h))

strip_channel_lem :
    (ch : Channel) (d : ℕ) (s : Bytes)
    → is_digit d ≡ true
    → strip_channel (channel_text ch ++ (d ∷ s)) ≡ d ∷ s
unfolding strip_channel has_prefix is_digit
strip_channel_lem no_channel d s h = ground (arith, h)
strip_channel_lem dev d s h = refl
strip_channel_lem beta d s h = refl
strip_channel_lem stable d s h = refl
strip_channel_lem rc d s h = refl

-- A number of three parts, with dashes, and with points.
abbrev pub parts_with : ℕ → (a b c : Bytes) → Bytes
parts_with sep a b c = a ++ (sep ∷ (b ++ (sep ∷ c)))

-- The name of an image.
abbrev pub image_name_of : Channel → (milestone a b c : Bytes) → Bytes
image_name_of ch milestone a b c =
    codes "cos-" ++ (channel_text ch ++ (milestone ++ (b'-' ∷ parts_with b'-' a b c)))

all_in_number_dash : (t : Bytes) → all_in_number (b'-' ∷ t) ≡ all_in_number t
unfolding all_in_number is_digit
all_in_number_dash t = refl

all_in_number_digits : (s : Bytes) → AreDigits s → all_in_number s ≡ true
unfolding all_in_number
all_in_number_digits [] h = refl
all_in_number_digits (c ∷ s) (hc, h) = rw hc (all_in_number_digits s h)

dots_dash : (n : ℕ) (t : Bytes) → dots_for_dashes (suc n) (b'-' ∷ t) ≡ b'.' ∷ dots_for_dashes n t
unfolding dots_for_dashes
dots_dash n t = refl

dots_digits : (n : ℕ) (s : Bytes) → AreDigits s → dots_for_dashes (suc n) s ≡ s
unfolding dots_for_dashes
dots_digits n [] h = refl
dots_digits n (c ∷ s) (hc, h) = rw (digit-dash c hc) (ap (λ r. c ∷ r) (dots_digits n s h))

match_number_lem : (n : Bytes) → n ≢ [] → all_in_number n ≡ true → match_number (b'-' ∷ n) ≡ some n
unfolding match_number
match_number_lem [] some_part h = absurd (some_part refl)
match_number_lem (c ∷ s) some_part h = rw h refl

append-ne-nil : (s t : Bytes) (c : ℕ) → s ++ (c ∷ t) ≢ []
append-ne-nil [] t c e = cc
append-ne-nil (d ∷ s) t c e = cc

module _ (a b c : Bytes) (ha : AreDigits a) (hb : AreDigits b) (hc : AreDigits c) where
  parts_in_number : all_in_number (parts_with b'-' a b c) ≡ true
  parts_in_number =
      all_in_number_lem a (b'-' ∷ (b ++ (b'-' ∷ c))) ha
      ∙ all_in_number_dash (b ++ (b'-' ∷ c))
      ∙ all_in_number_lem b (b'-' ∷ c) hb
      ∙ all_in_number_dash c
      ∙ all_in_number_digits c hc

  parts_dotted : dots_for_dashes 3 (parts_with b'-' a b c) ≡ parts_with b'.' a b c
  parts_dotted =
      dots_lem 2 a (b'-' ∷ (b ++ (b'-' ∷ c))) ha
      ∙ ap (λ r. a ++ r)
          (dots_dash 2 (b ++ (b'-' ∷ c))
            ∙ ap (λ r. b'.' ∷ r)
                (dots_lem 1 b (b'-' ∷ c) hb
                  ∙ ap (λ r. b ++ r) (dots_dash 1 c ∙ ap (λ r. b'.' ∷ r) (dots_digits 0 c hc))))

  image_build_lem :
      (ch : Channel) (d : ℕ) (m : Bytes)
      → AreDigits (d ∷ m)
      → image_build (image_name_of ch (d ∷ m) a b c) ≡ some (parts_with b'-' a b c)
  unfolding image_build match_milestone has_prefix
  image_build_lem ch d m (hd, hm) =
      let n = parts_with b'-' a b c in
      rw
        (
          strip_channel_lem ch d (m ++ (b'-' ∷ n)) hd,
          skip_digits_lem m n hm,
          match_number_lem n (append-ne-nil a (b ++ (b'-' ∷ c)) b'-') parts_in_number,
          hd,
        )
        refl

  -- The name of an image, with any channel, a milestone of one digit at least and a build number
  -- of three parts of digits, is resolved to the build number with points.
  pub resolve_image_name_lem :
      (ch : Channel) (d : ℕ) (m : Bytes)
      → AreDigits (d ∷ m)
      → resolve_image_name (image_name_of ch (d ∷ m) a b c) ≡ parts_with b'.' a b c
  unfolding resolve_image_name
  resolve_image_name_lem ch d m h =
      ap (dotted_or (image_name_of ch (d ∷ m) a b c)) (image_build_lem ch d m h) ∙ parts_dotted
