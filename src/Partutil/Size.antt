-- ===== src/Partutil/Size.antt =====
-- Sizes with units, 4K alignment and partition names (pkg/tools/partutil/helpers.go).
pub mod Laws
use cos_tools.Base.{
  ℕ, ◌+◌, ◌-◌, ◌*◌, ◌/◌, ◌%◌, ◌^◌, Bool, true, false, not, List, Option, none, some, [], ◌∷◌, ◌++◌,
  if◌then◌else◌, ◌==◌,
}
use cos_tools.Base.Errors.{Result, ok, err, message, ◌>>=◌, or_fail}
use cos_tools.Text.{Bytes, codes, u64_mod, is_digit, parse_uint, format_uint}

-- `size[l-1]` and `size[0:l-1]` of a text that begins with `c`
unfoldable pub last_byte : ℕ → Bytes → ℕ
last_byte c [] = c
last_byte c (d ∷ s) = last_byte d s

unfoldable pub all_but_last : ℕ → Bytes → Bytes
all_but_last c [] = []
all_but_last c (d ∷ s) = c ∷ all_but_last d s

-- The bytes in a unit.
unfoldable pub unit_bytes : ℕ → Option ℕ
unit_bytes u =
    if u == b'B'
    then some 1
    else if u == b'K'
    then some 1024
    else if u == b'M'
    then some (1024 * 1024)
    else if u == b'G'
    then some (1024 * 1024 * 1024)
    else none

-- `ConvertSizeToBytes`: products are taken in uint64. The number is read before the unit is looked at.
unfoldable pub convert_size_to_bytes : Bytes → Result ℕ
unfolding is_digit last_byte all_but_last unit_bytes
convert_size_to_bytes [] = err message
convert_size_to_bytes (c ∷ s) =
    if not (is_digit c)
    then err message
    else if is_digit (last_byte c s)
    then (do n ← or_fail (parse_uint (c ∷ s)); ok (n * 512 % u64_mod))
    else do
      n ← or_fail (parse_uint (all_but_last c s))
      unit ← or_fail (unit_bytes (last_byte c s))
      ok (n * unit % u64_mod)

-- `ConvertSizeToGBRoundUp`
abbrev pub round_up_gb : ℕ → ℕ
round_up_gb size_byte =
    let size_gb = size_byte / 2 ^ 30 in
    if not (size_gb * 2 ^ 30 == size_byte) then size_gb + 1 else size_gb

unfoldable pub convert_size_to_gb_round_up : Bytes → Result ℕ
convert_size_to_gb_round_up size = do
  size_byte ← convert_size_to_bytes size
  ok (round_up_gb size_byte)

-- `PartNumIntToString`: a disk whose name ends with a digit gets a "p" before the number.
unfoldable pub part_num_int_to_string : Bytes → ℕ → Result Bytes
unfolding is_digit last_byte
part_num_int_to_string [] n = err message
part_num_int_to_string (c ∷ disk) n =
    ok (if is_digit (last_byte c disk) then b'p' ∷ format_uint n else format_uint n)

-- `FindLast4KSector`: `start & ^7` clears the last three bits.
unfoldable pub find_last_4k_sector : ℕ → ℕ
find_last_4k_sector start = start / 8 * 8
