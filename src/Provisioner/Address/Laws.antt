-- ===== src/Provisioner/Address/Laws.antt =====
-- Which addresses of build contexts are accepted (pkg/provisioner/state.go).
use cos_tools.Base.{
  not, ℕ, ◌<◌, false, Option, none, some, [], ◌∷◌, ◌++◌, length, ◌≡◌, ◌≢◌, refl, ap, subst, sym,
  ◌∙◌, ◌↔◌, ◌==◌, Bool-cases, inl, inr, arith,
}
use mathlib.Core.Option.{some-injective}
use cos_tools.Base.Errors.{Result, ok, err, panic, message, refuse_if, ◌>>◌}
use cos_tools.Text.{Bytes, codes, eqb, Lacks}
use cos_tools.Text.Equal.{eqb-eq-true}
use cos_tools.Provisioner.Address.{
  cut_scheme, onto_first_part, split_at_slash, bucket_and_object, parse_address,
}

split_at_slash-append :
    (p q : Bytes) → Lacks b'/' p → split_at_slash (p ++ (b'/' ∷ q)) ≡ some (p, q)
unfolding split_at_slash
split_at_slash-append [] q h = refl
split_at_slash-append (c ∷ p) q (ne, h) =
    let other : (c == b'/') ≡ false = ground arith in rw (other, split_at_slash-append p q h)

onto_first_part-eq-some :
    (c : ℕ) (o : Option (Bytes × Bytes)) (p q : Bytes)
    → onto_first_part c o ≡ some (p, q)
    → (p' : Bytes) × (o ≡ some (p', q)) × (p ≡ c ∷ p')
onto_first_part-eq-some c none p q e = cc
onto_first_part-eq-some c (some (x, y)) p q e =
    let same : (c ∷ x, y) ≡ (p, q) = some-injective _ _ e in
    (x, ap (λ z. some (x, z)) (ap (λ r. r.1) same), sym (ap (λ r. r.0) same))

split_at_slash-eq-some :
    (s p q : Bytes) → split_at_slash s ≡ some (p, q) → (s ≡ p ++ (b'/' ∷ q)) × Lacks b'/' p
unfolding split_at_slash
split_at_slash-eq-some [] p q e = cc
split_at_slash-eq-some (c ∷ s) p q e = elim (Bool-cases (c == b'/')) [
  | inl here ↦
      let at_slash : c ≡ b'/' = ground arith in
      let same = some-injective _ _ (rw here at e) in
      let first : [] ≡ p = ap (λ r. r.0) same in
      let second : s ≡ q = ap (λ r. r.1) same in
      (rw (at_slash, second) (ap (λ t. t ++ (b'/' ∷ q)) first), subst (Lacks b'/') first tt)
  | inr there ↦
      let (p', rest, eq) = onto_first_part-eq-some c (split_at_slash s) p q (rw there at e) in
      let (joined, lacks) = split_at_slash-eq-some s p' q rest in
      let distinct : c ≢ b'/' = ground arith in
      (
        ap (λ t. c ∷ t) joined ∙ ap (λ t. t ++ (b'/' ∷ q)) (sym eq),
        subst (Lacks b'/') (sym eq) (distinct, lacks),
      )
]

bucket_and_object-eq-ok :
    (o : Option (Bytes × Bytes)) (b q : Bytes)
    → bucket_and_object o ≡ ok (b, q)
    → (o ≡ some (b, q)) × (b ≢ []) × (q ≢ [])
unfolding bucket_and_object
bucket_and_object-eq-ok none b q e = cc
bucket_and_object-eq-ok (some ([], y)) b q e = cc
bucket_and_object-eq-ok (some (c ∷ x, [])) b q e = cc
bucket_and_object-eq-ok (some (c ∷ x, d ∷ y)) b q e = (ground arith, (λ h. cc), (λ h. cc))

bucket_and_object-ok : (b o : Bytes) → b ≢ [] → o ≢ [] → bucket_and_object (some (b, o)) ≡ ok (b, o)
unfolding bucket_and_object
bucket_and_object-ok [] o hb ho = absurd (hb refl)
bucket_and_object-ok (x ∷ b) [] hb ho = absurd (ho refl)
bucket_and_object-ok (x ∷ b) (y ∷ o) hb ho = refl

-- What is read behind the first five bytes.
abbrev read_rest : Bytes → Bytes → Result (Bytes × Bytes)
read_rest scheme rest =
    refuse_if (not (eqb scheme (codes "gs://"))) >> bucket_and_object (split_at_slash rest)

read_rest-eq-ok :
    (scheme rest bucket object : Bytes)
    → read_rest scheme rest ≡ ok (bucket, object)
    → (scheme ≡ codes "gs://")
      × (rest ≡ bucket ++ (b'/' ∷ object))
      × Lacks b'/' bucket
      × (bucket ≢ [])
      × (object ≢ [])
read_rest-eq-ok scheme rest bucket object e = elim (Bool-cases (eqb scheme (codes "gs://"))) [
  | inl same ↦
      let (found, hb, ho) = bucket_and_object-eq-ok _ bucket object (rw same at e) in
      let (joined, lacks) = split_at_slash-eq-some rest bucket object found in
      (eqb-eq-true _ _ same, joined, lacks, hb, ho)
  | inr other ↦
      let refused : Path (Result (Bytes × Bytes)) (err message) (ok (bucket, object)) =
        rw other at e in
      cc
]

accepted :
    (address bucket object : Bytes)
    → parse_address address ≡ ok (bucket, object)
    → (address ≡ codes "gs://" ++ (bucket ++ (b'/' ∷ object)))
      × Lacks b'/' bucket
      × (bucket ≢ [])
      × (object ≢ [])
unfolding parse_address cut_scheme
accepted [] b o e = cc
accepted (v ∷ []) b o e = cc
accepted (v ∷ w ∷ []) b o e = cc
accepted (v ∷ w ∷ x ∷ []) b o e = cc
accepted (v ∷ w ∷ x ∷ y ∷ []) b o e = cc
accepted (v ∷ w ∷ x ∷ y ∷ z ∷ rest) b o e =
    let (scheme, joined, lacks, hb, ho) = read_rest-eq-ok (v ∷ w ∷ x ∷ y ∷ z ∷ []) rest b o e in
    (ap (λ s. s ++ rest) scheme ∙ ap (λ r. codes "gs://" ++ r) joined, lacks, hb, ho)

-- An address is accepted with a bucket and an object exactly if it is made of them: neither is
-- empty, and no slash stands in the bucket.
pub parse_address-eq-ok :
    (address bucket object : Bytes)
    → (parse_address address ≡ ok (bucket, object)) ↔ (
        (address ≡ codes "gs://" ++ (bucket ++ (b'/' ∷ object)))
        × Lacks b'/' bucket
        × (bucket ≢ [])
        × (object ≢ []))
unfolding parse_address cut_scheme eqb
parse_address-eq-ok address bucket object = (
  accepted address bucket object,
  λ (made, lacks, hb, ho).
      rw (made, split_at_slash-append bucket object lacks)
        (bucket_and_object-ok bucket object hb ho),
)

read_rest-ne-panic : (scheme rest : Bytes) → read_rest scheme rest ≢ panic
unfolding bucket_and_object
read_rest-ne-panic scheme rest = λ e. ground arith

-- An address of fewer than five bytes panics, and no other does.
pub parse_address-eq-panic :
    (address : Bytes) → (parse_address address ≡ panic) ↔ (length address < 5)
unfolding parse_address cut_scheme
parse_address-eq-panic [] = (λ e. omega arith, λ h. refl)
parse_address-eq-panic (v ∷ []) = (λ e. omega arith, λ h. refl)
parse_address-eq-panic (v ∷ w ∷ []) = (λ e. omega arith, λ h. refl)
parse_address-eq-panic (v ∷ w ∷ x ∷ []) = (λ e. omega arith, λ h. refl)
parse_address-eq-panic (v ∷ w ∷ x ∷ y ∷ []) = (λ e. omega arith, λ h. refl)
parse_address-eq-panic (v ∷ w ∷ x ∷ y ∷ z ∷ rest) =
    (λ e. absurd (read_rest-ne-panic (v ∷ w ∷ x ∷ y ∷ z ∷ []) rest e), λ h. ground arith)
