-- ===== src/Partutil/Size/Laws.antt =====
-- What a size text comes to, and what the roundings guarantee.
use cos_tools.Base.{
  ℕ, ◌+◌, ◌*◌, ◌%◌, ◌^◌, ◌<◌, ◌≤◌, ◌≡◌, ◌≢◌, refl, ap, true, false, some, [], ◌∷◌, ◌++◌, arith,
}
use cos_tools.Base.Errors.{ok}
use cos_tools.Text.{Bytes, u64_mod, is_digit, parse_uint, format_uint}
use cos_tools.Text.Decimal.{
  AreDigits, format_uint-ne-nil, format_uint-AreDigits, parse_uint-format_uint,
}
use cos_tools.Partutil.Size.{
  last_byte, all_but_last, unit_bytes, convert_size_to_bytes, round_up_gb,
  convert_size_to_gb_round_up, find_last_4k_sector,
}

last_byte-append : (c : ℕ) (s : Bytes) (u : ℕ) → last_byte c (s ++ (u ∷ [])) ≡ u
unfolding last_byte
last_byte-append c [] u = refl
last_byte-append c (d ∷ s) u = last_byte-append d s u

all_but_last-append : (c : ℕ) (s : Bytes) (u : ℕ) → all_but_last c (s ++ (u ∷ [])) ≡ c ∷ s
unfolding all_but_last
all_but_last-append c [] u = refl
all_but_last-append c (d ∷ s) u = ap (λ t. c ∷ t) (all_but_last-append d s u)

last_byte-digit : (c : ℕ) (s : Bytes) → AreDigits (c ∷ s) → is_digit (last_byte c s) ≡ true
unfolding last_byte
last_byte-digit c [] (h, _) = h
last_byte-digit c (d ∷ s) (_, h) = last_byte-digit d s h

-- The letters of the units and the bytes they stand for.
pub data IsUnit : ℕ → ℕ → Type 0 where
  one_byte : IsUnit b'B' 1
  one_kib : IsUnit b'K' (2 ^ 10)
  one_mib : IsUnit b'M' (2 ^ 20)
  one_gib : IsUnit b'G' (2 ^ 30)

IsUnit-unit_bytes : {u factor : ℕ} → IsUnit u factor → unit_bytes u ≡ some factor
unfolding unit_bytes
IsUnit-unit_bytes one_byte = refl
IsUnit-unit_bytes one_kib = refl
IsUnit-unit_bytes one_mib = refl
IsUnit-unit_bytes one_gib = refl

unit-is_digit : (u factor : ℕ) → unit_bytes u ≡ some factor → is_digit u ≡ false
unfolding unit_bytes is_digit
unit-is_digit u factor h = ground arith

convert_with_unit :
    (t : Bytes) (n u factor : ℕ)
    → t ≢ []
    → AreDigits t
    → parse_uint t ≡ some n
    → unit_bytes u ≡ some factor
    → convert_size_to_bytes (t ++ (u ∷ [])) ≡ ok (n * factor % u64_mod)
unfolding convert_size_to_bytes
convert_with_unit [] n u factor ne h e f = absurd (ne refl)
convert_with_unit (c ∷ t) n u factor ne (hc, h) e f =
    rw (hc, last_byte-append c t u, unit-is_digit u factor f, all_but_last-append c t u, e, f)

convert_without :
    (t : Bytes) (n : ℕ)
    → t ≢ []
    → AreDigits t
    → parse_uint t ≡ some n
    → convert_size_to_bytes t ≡ ok (n * 512 % u64_mod)
unfolding convert_size_to_bytes
convert_without [] n ne h e = absurd (ne refl)
convert_without (c ∷ t) n ne (hc, h) e = rw (hc, last_byte-digit c t (hc, h), e)

-- A decimal number below 2^64 with a unit behind it comes to that number times 1 for B, 2^10 for
-- K, 2^20 for M or 2^30 for G, as a uint64, and without a unit to that number times 512.
pub convert_size_to_bytes-format_uint :
    (n u factor : ℕ)
    → n < u64_mod
    → IsUnit u factor
    → (convert_size_to_bytes (format_uint n ++ (u ∷ [])) ≡ ok (n * factor % u64_mod))
      × (convert_size_to_bytes (format_uint n) ≡ ok (n * 512 % u64_mod))
convert_size_to_bytes-format_uint n u factor fits unit = (
  convert_with_unit (format_uint n) n u factor (format_uint-ne-nil n) (format_uint-AreDigits n)
      (parse_uint-format_uint n fits) (IsUnit-unit_bytes unit),
  convert_without (format_uint n) n (format_uint-ne-nil n) (format_uint-AreDigits n)
      (parse_uint-format_uint n fits),
)

-- Where a decimal number below 2^64 with one of the units B, K, M and G behind it means 2^64
-- bytes or more, the size is accepted, without an error, and comes out smaller than that.
pub convert_size_to_bytes_wraps :
    (n u factor : ℕ)
    → n < u64_mod
    → IsUnit u factor
    → u64_mod ≤ n * factor
    → (bytes : ℕ) × (convert_size_to_bytes (format_uint n ++ (u ∷ [])) ≡ ok bytes)
      × (bytes < n * factor)
convert_size_to_bytes_wraps n u factor fits unit large =
    (n * factor % u64_mod, (convert_size_to_bytes-format_uint n u factor fits unit).0, omega arith)

-- The size in GB is the least number of whole GB that holds the size in bytes.
pub convert_size_to_gb_round_up_bounds :
    (size : Bytes) {bytes : ℕ}
    → convert_size_to_bytes size ≡ ok bytes
    → (gb : ℕ) × (convert_size_to_gb_round_up size ≡ ok gb)
      × (bytes ≤ gb * 2 ^ 30)
      × (gb * 2 ^ 30 < bytes + 2 ^ 30)
unfolding convert_size_to_gb_round_up
convert_size_to_gb_round_up_bounds size {bytes} h =
    (round_up_gb bytes, rw h, ground arith, ground arith)

-- The result is aligned to 4K, not behind the sector asked for, and less than 4K in front of it.
pub find_last_4k_sector_bounds :
    (start : ℕ)
    → (find_last_4k_sector start % 8 ≡ 0)
      × (find_last_4k_sector start ≤ start)
      × (start < find_last_4k_sector start + 8)
unfolding find_last_4k_sector
find_last_4k_sector_bounds start = omega arith
