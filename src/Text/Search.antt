-- ===== src/Text/Search.antt =====
-- Prefixes, and where a text holds another.
use cos_tools.Base.{ℕ, ◌≡◌, refl, sym, ap, ◌∙◌, true, [], ◌∷◌, ◌++◌, arith}
use cos_tools.Text.{Bytes, Lacks, has_prefix}

-- A prefix without `b` is decided in front of the first `b`.
pub has_prefix_before :
    (p s t : Bytes) (b : ℕ) → Lacks b p → has_prefix p (s ++ (b ∷ t)) ≡ has_prefix p s
unfolding has_prefix
has_prefix_before [] s t b h = refl
has_prefix_before (x ∷ p) [] t b (hx, h) = ground arith
has_prefix_before (x ∷ p) (c ∷ s) t b (hx, h) = ground (arith, has_prefix_before p s t b h)

-- Two names followed by `b` that both begin one text are one name.
pub has_prefix_unique :
    (p q s : Bytes) (b : ℕ)
    → Lacks b p
    → Lacks b q
    → has_prefix (p ++ (b ∷ [])) s ≡ true
    → has_prefix (q ++ (b ∷ [])) s ≡ true
    → p ≡ q
unfolding has_prefix
has_prefix_unique [] [] s b hp hq e f = refl
has_prefix_unique [] (y ∷ q) [] b hp hq e f = cc
has_prefix_unique [] (y ∷ q) (c ∷ s) b hp (hy, hq) e f = ground arith
has_prefix_unique (x ∷ p) [] [] b hp hq e f = cc
has_prefix_unique (x ∷ p) [] (c ∷ s) b (hx, hp) hq e f = ground arith
has_prefix_unique (x ∷ p) (y ∷ q) [] b hp hq e f = cc
has_prefix_unique (x ∷ p) (y ∷ q) (c ∷ s) b (hx, hp) (hy, hq) e f =
    ground (arith, has_prefix_unique p q s b hp hq)

pub has_prefix_self : (p t : Bytes) → has_prefix p (p ++ t) ≡ true
unfolding has_prefix
has_prefix_self [] t = refl
has_prefix_self (x ∷ p) t = ground (arith, has_prefix_self p t)

-- Behind a prefix stands the rest.
pub has_prefix-rest : (p s : Bytes) → has_prefix p s ≡ true → (post : Bytes) × (s ≡ p ++ post)
unfolding has_prefix
has_prefix-rest [] s h = (s, refl)
has_prefix-rest (x ∷ p) [] h = cc
has_prefix-rest (x ∷ p) (c ∷ s) h =
    let (post, e) = has_prefix-rest p s (ground (arith, h)) in
    let same : x ≡ c = ground (arith, h) in
    (post, ap (λ t. c ∷ t) e ∙ ap (λ y. y ∷ (p ++ post)) (sym same))
