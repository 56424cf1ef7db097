-- ===== src/Profiler/Fields.antt =====
-- The functions of `strings` that the node profiler cuts lines with, on ASCII text.
use cos_tools.Base.{ℕ, Bool, false, not, List, [], ◌∷◌, ◌==◌, if◌then◌else◌}
use cos_tools.Text.{Bytes, onto_first, keep_unless_blank, is_space}

abbrev pub starts_word : Bytes → Bool
starts_word [] = false
starts_word (c ∷ s) = not (is_space c)

-- `strings.Fields(s)`
unfoldable pub fields : Bytes → List Bytes
fields [] = []
fields (c ∷ s) =
    let rest = fields s in
    if is_space c then rest else if starts_word s then onto_first c rest else (c ∷ []) ∷ rest

-- `strings.Trim(s, c)` for one character
unfoldable pub trim_left_of : ℕ → Bytes → Bytes
trim_left_of char [] = []
trim_left_of char (c ∷ s) = let rest = trim_left_of char s in if c == char then rest else c ∷ s

unfoldable pub trim_right_of : ℕ → Bytes → Bytes
trim_right_of char [] = []
trim_right_of char (c ∷ s) = keep_unless_blank (c == char) c (trim_right_of char s)

abbrev pub trim : ℕ → Bytes → Bytes
trim char s = trim_right_of char (trim_left_of char s)

-- The function TrimCharacter of pkg/nodeprofiler/utils/utils.go, for one character.
unfoldable pub trim_character : List Bytes → ℕ → List Bytes
trim_character [] char = []
trim_character (str ∷ a) char = trim char str ∷ trim_character a char
