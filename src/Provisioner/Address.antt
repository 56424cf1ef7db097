-- ===== src/Provisioner/Address.antt =====
-- The addresses of build contexts (function unpackBuildContexts of pkg/provisioner/state.go).
pub mod Laws
use cos_tools.Base.{
  ℕ, Bool, true, false, not, Option, none, some, List, [], ◌∷◌, ◌++◌, ◌≡◌, refl, ◌==◌,
  if◌then◌else◌,
}
use cos_tools.Base.Errors.{Result, ok, err, panic, message, refuse_if, ◌>>=◌, ◌>>◌}
use cos_tools.Text.{Bytes, codes, eqb, Lacks}

-- The first five bytes; slicing a shorter address panics.
unfoldable pub cut_scheme : Bytes → Result (Bytes × Bytes)
cut_scheme (a ∷ b ∷ c ∷ d ∷ e ∷ rest) = ok (a ∷ b ∷ c ∷ d ∷ e ∷ [], rest)
cut_scheme _ = panic

abbrev pub onto_first_part : ℕ → Option (Bytes × Bytes) → Option (Bytes × Bytes)
onto_first_part c none = none
onto_first_part c (some (p, q)) = some (c ∷ p, q)

-- `strings.SplitN(s, "/", 2)` where it has two parts.
unfoldable pub split_at_slash : Bytes → Option (Bytes × Bytes)
split_at_slash [] = none
split_at_slash (c ∷ s) = if c == b'/' then some ([], s) else onto_first_part c (split_at_slash s)

unfoldable pub bucket_and_object : Option (Bytes × Bytes) → Result (Bytes × Bytes)
bucket_and_object none = err message
bucket_and_object (some ([], q)) = err message
bucket_and_object (some (b ∷ p, [])) = err message
bucket_and_object (some (b ∷ p, o ∷ q)) = ok (b ∷ p, o ∷ q)

-- The bucket and the object of an address.
unfoldable pub parse_address : Bytes → Result (Bytes × Bytes)
parse_address address = do
  (scheme, rest) ← cut_scheme address
  refuse_if (not (eqb scheme (codes "gs://")))
  bucket_and_object (split_at_slash rest)
