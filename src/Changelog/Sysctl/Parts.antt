-- ===== src/Changelog/Sysctl/Parts.antt =====
-- A line of sysctl_a.txt in its parts: the name and what stands behind the first separator.
use cos_tools.Base.{
  ℕ, zero, suc, false, List, [], ◌∷◌, ◌++◌, ◌≡◌, ◌≢◌, refl, ap, ◌∙◌, Bool-cases, inl, inr, arith,
}
use cos_tools.Text.{Bytes, codes, Lacks, onto_first, split_by, has_prefix}
use cos_tools.Changelog.Sysctl.{separator, join_by, value_of}

split_by-onto :
    (c : ℕ) (s : Bytes)
    → has_prefix separator (c ∷ s) ≡ false
    → split_by separator 0 (c ∷ s) ≡ onto_first c (split_by separator 0 s)
unfolding split_by
split_by-onto c s h = rw h refl

split_by_here : (s : Bytes) → split_by separator 0 (separator ++ s) ≡ [] ∷ split_by separator 0 s
unfolding split_by has_prefix
split_by_here s = refl

no_separator : (c : ℕ) (s : Bytes) → c ≢ b' ' → has_prefix separator (c ∷ s) ≡ false
unfolding has_prefix
no_separator c s h = ground arith

-- A name without a space is the first part.
pub split_by-name :
    (name t : Bytes)
    → Lacks b' ' name
    → split_by separator 0 (name ++ (separator ++ t)) ≡ name ∷ split_by separator 0 t
split_by-name [] t h = split_by_here t
split_by-name (c ∷ name) t (hc, h) =
    split_by-onto c (name ++ (separator ++ t)) (no_separator c _ hc)
    ∙ ap (onto_first c) (split_by-name name t h)

-- And the only one where nothing is behind it.
pub split_by_alone : (name : Bytes) → Lacks b' ' name → split_by separator 0 name ≡ name ∷ []
split_by_alone [] h = unfold split_by in refl
split_by_alone (c ∷ name) (hc, h) =
    split_by-onto c name (no_separator c name hc) ∙ ap (onto_first c) (split_by_alone name h)

join_by-onto_first :
    (c : ℕ) (ps : List Bytes)
    → ps ≢ []
    → join_by separator (onto_first c ps) ≡ c ∷ join_by separator ps
unfolding join_by
join_by-onto_first c [] h = absurd (h refl)
join_by-onto_first c (p ∷ []) h = refl
join_by-onto_first c (p ∷ q ∷ ps) h = refl

join_by-blank :
    (ps : List Bytes) → ps ≢ [] → join_by separator ([] ∷ ps) ≡ separator ++ join_by separator ps
unfolding join_by
join_by-blank [] h = absurd (h refl)
join_by-blank (p ∷ ps) h = refl

onto_first-ne-nil : (c : ℕ) (ps : List Bytes) → onto_first c ps ≢ []
onto_first-ne-nil c [] = λ e. cc
onto_first-ne-nil c (p ∷ ps) = λ e. cc

-- There is a first part.
pub split_by-ne-nil : (skip : ℕ) (s : Bytes) → split_by separator skip s ≢ []
unfolding split_by
split_by-ne-nil skip [] = λ e. cc
split_by-ne-nil zero (c ∷ s) = elim (Bool-cases (has_prefix separator (c ∷ s))) [
  | inl e ↦ rw e (λ k. cc)
  | inr e ↦ rw e (onto_first-ne-nil c (split_by separator 0 s))
]
split_by-ne-nil (suc skip) (c ∷ s) = split_by-ne-nil skip s

join_by-split_by_onto :
    (c : ℕ) (s : Bytes)
    → has_prefix separator (c ∷ s) ≡ false
    → join_by separator (split_by separator 0 s) ≡ s
    → join_by separator (split_by separator 0 (c ∷ s)) ≡ c ∷ s
join_by-split_by_onto c s front e =
    ap (join_by separator) (split_by-onto c s front)
    ∙ join_by-onto_first c (split_by separator 0 s) (split_by-ne-nil 0 s)
    ∙ ap (λ t. c ∷ t) e

-- The parts are the line.
pub join_by-split_by : (s : Bytes) → join_by separator (split_by separator 0 s) ≡ s
join_by-split_by [] = unfold split_by in unfold join_by in refl
join_by-split_by (c ∷ []) =
    join_by-split_by_onto c [] (unfold has_prefix in ground arith) (join_by-split_by [])
join_by-split_by (c ∷ d ∷ []) =
    join_by-split_by_onto c (d ∷ []) (unfold has_prefix in ground arith) (join_by-split_by (d ∷ []))
join_by-split_by (c ∷ d ∷ e ∷ s) = elim (Bool-cases (has_prefix separator (c ∷ d ∷ e ∷ s))) [
  | inr front ↦ join_by-split_by_onto c (d ∷ e ∷ s) front (join_by-split_by (d ∷ e ∷ s))
  | inl at ↦
      let (hc, hd, he) : (c ≡ b' ') × (d ≡ b'=') × (e ≡ b' ') =
        unfold has_prefix in ground (arith, at) in
      rw (hc, hd, he)
        (ap (join_by separator) (split_by_here s)
          ∙ join_by-blank (split_by separator 0 s) (split_by-ne-nil 0 s)
          ∙ ap (λ t. separator ++ t) (join_by-split_by s))
]

-- A value, with three dashes for an empty one.
abbrev pub or_dashes : Bytes → Bytes
or_dashes [] = codes "---"
or_dashes (c ∷ s) = c ∷ s

value_of-join_by : (ps : List Bytes) → ps ≢ [] → value_of ps ≡ or_dashes (join_by separator ps)
unfolding join_by
value_of-join_by [] h = absurd (h refl)
value_of-join_by ([] ∷ []) h = refl
value_of-join_by ((c ∷ p) ∷ []) h = refl
value_of-join_by ([] ∷ q ∷ ps) h = refl
value_of-join_by ((c ∷ p) ∷ q ∷ ps) h = refl

-- What the parts of a text come to.
pub value_of-split_by : (t : Bytes) → value_of (split_by separator 0 t) ≡ or_dashes t
value_of-split_by t =
    value_of-join_by (split_by separator 0 t) (split_by-ne-nil 0 t)
    ∙ ap or_dashes (join_by-split_by t)
