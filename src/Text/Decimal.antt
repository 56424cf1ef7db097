-- ===== src/Text/Decimal.antt =====
-- `strconv.FormatUint` and `strconv.ParseUint` undo one another on a uint64.
use cos_tools.Base.{
  ℕ, zero, suc, ◌+◌, ◌/◌, ◌%◌, ◌^◌, ◌<◌, ◌≡◌, refl, ◌≢◌, ◌∙◌, true, false, inl, inr, [], ◌∷◌, some,
  arith, ltb, All, Bool-cases,
}
use native.Mathlib.Nat.{pow-suc}
use cos_tools.Text.{
  Bytes, Lacks, u64_mod, is_digit, is_space, digits_value, parse_uint, put_digits, format_uint,
  trim_left, trim_right, trim_space,
}

-- Reading the last digit of `n` behind the digits before it gives `n`.
digits_value_last :
    (n : ℕ) (out : Bytes) → digits_value (n / 10) ((b'0' + n % 10) ∷ out) ≡ digits_value n out
unfolding digits_value
digits_value_last n out = ground arith

digits_value_first :
    (n : ℕ) (out : Bytes) → n < 10 → digits_value 0 ((b'0' + n) ∷ out) ≡ digits_value n out
unfolding digits_value
digits_value_first n out h = ground arith

digits_value-put_digits :
    (rounds n : ℕ) (out : Bytes)
    → n < 10 ^ rounds
    → digits_value 0 (put_digits rounds n out) ≡ digits_value n out
unfolding put_digits
digits_value-put_digits zero n out h = let e : 0 ≡ n = omega arith in rw e refl
digits_value-put_digits (suc rounds) n out h = elim (Bool-cases (ltb n 10)) [
  | inl e ↦ rw e (digits_value_first n out (ground arith))
  | inr e ↦ rw e (
      digits_value-put_digits rounds (n / 10) ((b'0' + n % 10) ∷ out)
        (omega (arith, pow-suc 10 rounds))
      ∙ digits_value_last n out)
]

abbrev pub AreDigits : Bytes → Type 0
AreDigits = All (λ c. is_digit c ≡ true)

put_digits-AreDigits :
    (rounds n : ℕ) (out : Bytes) → AreDigits out → AreDigits (put_digits rounds n out)
unfolding put_digits
put_digits-AreDigits zero n out h = h
put_digits-AreDigits (suc rounds) n out h = elim (Bool-cases (ltb n 10)) [
  | inl e ↦ rw e (unfold is_digit in ground arith, h)
  | inr e ↦ rw e (
      put_digits-AreDigits rounds (n / 10) ((b'0' + n % 10) ∷ out)
        (unfold is_digit in ground arith, h))
]

put_digits-ne-nil : (rounds n : ℕ) (out : Bytes) → out ≢ [] → put_digits rounds n out ≢ []
unfolding put_digits
put_digits-ne-nil zero n out h = h
put_digits-ne-nil (suc rounds) n out h = elim (Bool-cases (ltb n 10)) [
  | inl e ↦ rw e (λ q. cc)
  | inr e ↦ rw e (put_digits-ne-nil rounds (n / 10) ((b'0' + n % 10) ∷ out) (λ q. cc))
]

pub format_uint-ne-nil : (n : ℕ) → format_uint n ≢ []
unfolding format_uint
format_uint-ne-nil n = elim (Bool-cases (ltb n 10)) [
  | inl e ↦ rw e (λ q. cc)
  | inr e ↦ rw e (put_digits-ne-nil 19 (n / 10) ((b'0' + n % 10) ∷ []) (λ q. cc))
]

pub format_uint-AreDigits : (n : ℕ) → AreDigits (format_uint n)
unfolding format_uint
format_uint-AreDigits n = put_digits-AreDigits 20 n [] tt

parse_uint_of_value :
    (s : Bytes) (n : ℕ) → s ≢ [] → digits_value 0 s ≡ some n → n < u64_mod → parse_uint s ≡ some n
unfolding parse_uint
parse_uint_of_value [] n h e fits = absurd (h refl)
parse_uint_of_value (c ∷ s) n h e fits = rw e (ground arith)

digits_value-format_uint : (n : ℕ) → n < u64_mod → digits_value 0 (format_uint n) ≡ some n
unfolding format_uint
digits_value-format_uint n h =
    digits_value-put_digits 20 n [] (omega arith) ∙ (unfold digits_value in refl)

pub parse_uint-format_uint : (n : ℕ) → n < u64_mod → parse_uint (format_uint n) ≡ some n
parse_uint-format_uint n h =
    parse_uint_of_value (format_uint n) n (format_uint-ne-nil n) (digits_value-format_uint n h) h

-- Digits are no spaces, so trimming leaves them alone.
digit-is_space : (c : ℕ) → is_digit c ≡ true → is_space c ≡ false
unfolding is_digit is_space
digit-is_space c h = ground arith

trim_left-digits : (s : Bytes) → AreDigits s → trim_left s ≡ s
unfolding trim_left
trim_left-digits [] h = refl
trim_left-digits (c ∷ s) (hc, h) = rw (digit-is_space c hc)

trim_right-digits : (s : Bytes) → AreDigits s → trim_right s ≡ s
unfolding trim_right
trim_right-digits [] h = refl
trim_right-digits (c ∷ s) (hc, h) = rw (digit-is_space c hc, trim_right-digits s h)

pub trim_space-digits : (s : Bytes) → AreDigits s → trim_space s ≡ s
unfolding trim_space
trim_space-digits s h = rw (trim_left-digits s h) (trim_right-digits s h)

pub digits-Lacks : (b : ℕ) (s : Bytes) → is_digit b ≡ false → AreDigits s → Lacks b s
digits-Lacks b [] h _ = tt
digits-Lacks b (c ∷ s) h (hc, k) = ((λ e. cc), digits-Lacks b s h k)

-- What a successful read returns is a uint64.
pub parse_uint-lt : (s : Bytes) (n : ℕ) → parse_uint s ≡ some n → n < u64_mod
unfolding parse_uint
parse_uint-lt [] n h = cc
parse_uint-lt (c ∷ s) n h = ground arith
