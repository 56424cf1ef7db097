-- ===== src/Text.antt =====
-- What the tools use of Go's packages `strings` and `strconv`, over texts as lists of bytes.
-- The texts are ASCII: a space is one of the six ASCII space characters.
pub mod Split
pub mod Decimal
pub mod Search
pub mod Equal
use Prim.Native.Char.{code}
use Prim.Native.String.{String}
use cos_tools.Base.{
  ℕ, suc, zero, ◌+◌, ◌-◌, ◌*◌, ◌/◌, ◌%◌, ◌^◌, ◌≡◌, refl, ◌≢◌, Bool, true, false, ◌&&◌, ◌||◌, Option,
  none, some, List, [], ◌∷◌, ◌++◌, length, ltb, leb, ◌==◌, if◌then◌else◌, All,
}

abbrev pub Bytes : Type 0
Bytes = List ℕ

-- The code points of a literal, which are its bytes.
abbrev pub codes : String → Bytes
codes String.[] = []
codes (String.◌∷◌ c s) = code c ∷ codes s

abbrev pub Lacks : ℕ → Bytes → Type 0
Lacks b = All (λ c. c ≢ b)

-- `==` on strings
unfoldable pub eqb : Bytes → Bytes → Bool
eqb [] [] = true
eqb (a ∷ s) (b ∷ t) = a == b && eqb s t
eqb _ _ = false

-- `strings.Split(s, sep)` at a separator of one byte: there is always one part at least.
abbrev pub onto_first : ℕ → List Bytes → List Bytes
onto_first c [] = (c ∷ []) ∷ []
onto_first c (p ∷ ps) = (c ∷ p) ∷ ps

unfoldable pub split : Bytes → ℕ → List Bytes
split [] sep = [] ∷ []
split (c ∷ s) sep = if c == sep then [] ∷ split s sep else onto_first c (split s sep)

-- `strings.Join(parts, sep)`
unfoldable pub join : List Bytes → ℕ → Bytes
join [] sep = []
join (p ∷ []) sep = p
join (p ∷ q ∷ ps) sep = p ++ (sep ∷ join (q ∷ ps) sep)

-- `strings.HasPrefix(s, prefix)`, the prefix first
unfoldable pub has_prefix : Bytes → Bytes → Bool
has_prefix [] s = true
has_prefix (p ∷ ps) [] = false
has_prefix (p ∷ ps) (c ∷ s) = p == c && has_prefix ps s

-- `strings.Split(s, sep)` at a separator that is not empty; `skip` counts what is left of one.
unfoldable pub split_by : Bytes → ℕ → Bytes → List Bytes
split_by sep skip [] = [] ∷ []
split_by sep (suc skip) (c ∷ s) = split_by sep skip s
split_by sep zero (c ∷ s) =
    let behind = split_by sep (length sep - 1) s in
    let further = split_by sep zero s in
    if has_prefix sep (c ∷ s) then [] ∷ behind else onto_first c further

-- `strings.Index(s, sub)`; `none` is -1
abbrev next_index : Option ℕ → Option ℕ
next_index none = none
next_index (some i) = some (suc i)

unfoldable pub index : Bytes → Bytes → Option ℕ
unfolding has_prefix
index sub [] = if has_prefix sub [] then some 0 else none
index sub (c ∷ s) = if has_prefix sub (c ∷ s) then some 0 else next_index (index sub s)

-- `strings.Contains(s, sub)`
unfoldable pub contains : Bytes → Bytes → Bool
unfolding index
contains sub s = elim (index sub s) [ none ↦ false | some _ ↦ true ]

unfoldable pub is_space : ℕ → Bool
is_space c = c == b' ' || leb 9 c && leb c 13

-- `strings.TrimSpace`
unfoldable pub trim_left : Bytes → Bytes
unfolding is_space
trim_left [] = []
trim_left (c ∷ s) = if is_space c then trim_left s else c ∷ s

abbrev pub keep_unless_blank : Bool → ℕ → Bytes → Bytes
keep_unless_blank true c [] = []
keep_unless_blank _ c s = c ∷ s

unfoldable pub trim_right : Bytes → Bytes
unfolding is_space
trim_right [] = []
trim_right (c ∷ s) = keep_unless_blank (is_space c) c (trim_right s)

unfoldable pub trim_space : Bytes → Bytes
unfolding trim_left trim_right
trim_space s = trim_right (trim_left s)

-- 2 ^ 64
abbrev pub u64_mod : ℕ
u64_mod = 18_446_744_073_709_551_616

unfoldable pub is_digit : ℕ → Bool
is_digit c = leb b'0' c && leb c b'9'

-- The value that the digits spell behind `n`, if all are digits.
unfoldable pub digits_value : ℕ → Bytes → Option ℕ
unfolding is_digit
digits_value n [] = some n
digits_value n (c ∷ s) = if is_digit c then digits_value (n * 10 + (c - b'0')) s else none

abbrev if_u64 : Option ℕ → Option ℕ
if_u64 none = none
if_u64 (some n) = if ltb n u64_mod then some n else none

-- `strconv.ParseUint(s, 10, 64)`
unfoldable pub parse_uint : Bytes → Option ℕ
unfolding digits_value
parse_uint [] = none
parse_uint (c ∷ s) = if_u64 (digits_value 0 (c ∷ s))

-- `strconv.FormatUint(n, 10)` in front of `out`; 20 rounds are enough for a uint64.
unfoldable pub put_digits : ℕ → ℕ → Bytes → Bytes
put_digits zero n out = out
put_digits (suc rounds) n out =
    let more = put_digits rounds (n / 10) ((b'0' + n % 10) ∷ out) in
    if ltb n 10 then (b'0' + n) ∷ out else more

unfoldable pub format_uint : ℕ → Bytes
unfolding put_digits
format_uint n = put_digits 20 n []
