-- ===== src/Text/Split.antt =====
-- `strings.Split` and `strings.Join` undo one another, and what their parts hold.
use cos_tools.Base.{
  ℕ, ◌≡◌, refl, ap, ◌≢◌, inl, inr, List, [], ◌∷◌, ◌++◌, arith, ◌==◌, All, All-append, Bool-cases,
}
use cos_tools.Text.{Bytes, Lacks, onto_first, split, join}

pub split-ne-nil : (s : Bytes) (sep : ℕ) → split s sep ≢ []
unfolding split
split-ne-nil [] sep = λ e. cc
split-ne-nil (c ∷ s) sep = ground (arith, split-ne-nil s sep, onto_first-ne-nil c (split s sep))
  where
    onto_first-ne-nil : (c : ℕ) (ps : List Bytes) → onto_first c ps ≢ []
    onto_first-ne-nil c [] = λ e. cc
    onto_first-ne-nil c (p ∷ ps) = λ e. cc

join-onto_first :
    (c : ℕ) (ps : List Bytes) (sep : ℕ) → ps ≢ [] → join (onto_first c ps) sep ≡ c ∷ join ps sep
unfolding join
join-onto_first c [] sep h = absurd (h refl)
join-onto_first c (p ∷ []) sep h = refl
join-onto_first c (p ∷ q ∷ ps) sep h = refl

join-nil-cons : (ps : List Bytes) (sep : ℕ) → ps ≢ [] → join ([] ∷ ps) sep ≡ sep ∷ join ps sep
unfolding join
join-nil-cons [] sep h = absurd (h refl)
join-nil-cons (p ∷ ps) sep h = refl

pub join-split : (s : Bytes) (sep : ℕ) → join (split s sep) sep ≡ s
unfolding split
join-split [] sep = unfold join in refl
join-split (c ∷ s) sep = elim (Bool-cases (c == sep)) [
  | inl e ↦
      rw (e, join-nil-cons (split s sep) sep (split-ne-nil s sep), join-split s sep) (ground arith)
  | inr e ↦
      rw (e, join-onto_first c (split s sep) sep (split-ne-nil s sep))
        (ap (λ t. c ∷ t) (join-split s sep))
]

-- Behind a part without the separator stands a separator or the end.
split_part : (p : Bytes) (sep : ℕ) → Lacks sep p → split p sep ≡ p ∷ []
unfolding split
split_part [] sep h = refl
split_part (c ∷ p) sep (hc, h) = ground (arith, split_part p sep h)

pub split_at_sep :
    (p s : Bytes) (sep : ℕ) → Lacks sep p → split (p ++ (sep ∷ s)) sep ≡ p ∷ split s sep
unfolding split
split_at_sep [] s sep h = ground arith
split_at_sep (c ∷ p) s sep (hc, h) = ground (arith, split_at_sep p s sep h)

pub split-join :
    (ps : List Bytes) (sep : ℕ) → ps ≢ [] → All (Lacks sep) ps → split (join ps sep) sep ≡ ps
unfolding join
split-join [] sep h _ = absurd (h refl)
split-join (p ∷ []) sep h (hp, _) = split_part p sep hp
split-join (p ∷ q ∷ ps) sep h (hp, hps) =
    rw (split_at_sep p (join (q ∷ ps) sep) sep hp)
      (ap (λ t. p ∷ t) (split-join (q ∷ ps) sep (λ e. cc) hps))

-- No part holds the separator.
onto_first-Lacks :
    (b c : ℕ) (ps : List Bytes) → c ≢ b → All (Lacks b) ps → All (Lacks b) (onto_first c ps)
onto_first-Lacks b c [] h k = ((h, tt), tt)
onto_first-Lacks b c (p ∷ ps) h (k, ks) = ((h, k), ks)

pub split-Lacks_sep : (s : Bytes) (sep : ℕ) → All (Lacks sep) (split s sep)
unfolding split
split-Lacks_sep [] sep = (tt, tt)
split-Lacks_sep (c ∷ s) sep = elim (Bool-cases (c == sep)) [
  | inl e ↦ rw e (tt, split-Lacks_sep s sep)
  | inr e ↦ rw e (onto_first-Lacks sep c (split s sep) (ground arith) (split-Lacks_sep s sep))
]

-- What the text lacks, each part lacks.
pub split-Lacks : (b : ℕ) (s : Bytes) (sep : ℕ) → Lacks b s → All (Lacks b) (split s sep)
unfolding split
split-Lacks b [] sep h = (tt, tt)
split-Lacks b (c ∷ s) sep (hc, h) = elim (Bool-cases (c == sep)) [
  | inl e ↦ rw e (tt, split-Lacks b s sep h)
  | inr e ↦ rw e (onto_first-Lacks b c (split s sep) hc (split-Lacks b s sep h))
]

pub join-Lacks :
    (b : ℕ) (ps : List Bytes) (sep : ℕ) → sep ≢ b → All (Lacks b) ps → Lacks b (join ps sep)
unfolding join
join-Lacks b [] sep h _ = tt
join-Lacks b (p ∷ []) sep h (k, _) = k
join-Lacks b (p ∷ q ∷ ps) sep h (k, ks) =
    All-append (λ c. c ≢ b) p _ k (h, join-Lacks b (q ∷ ps) sep h ks)
