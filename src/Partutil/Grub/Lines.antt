-- ===== src/Partutil/Grub/Lines.antt =====
-- What adding a command does to the lines of grub.cfg.
use cos_tools.Base.{
  ℕ, suc, zero, ◌+◌, true, false, Option, none, some, List, [], ◌∷◌, ◌++◌, ◌≡◌, ◌≢◌, refl, ap,
  subst, append-nil, ◌⊎◌, sym, get_elem?, take, drop, All, All-append, Bool-cases, inl, inr, arith,
}
use mathlib.Core.Option.{some-injective}
use cos_tools.Text.{Bytes, Lacks, split, join, has_prefix, index, contains}
use cos_tools.Text.Search.{has_prefix_self}
use cos_tools.Text.Split.{join-split}
use cos_tools.Partutil.Grub.{append_point, insert_at, add_cmd_to_line, add_cmd_to_lines, add_cmd}

pub has_prefix-append : (p s t : Bytes) → has_prefix p s ≡ true → has_prefix p (s ++ t) ≡ true
unfolding has_prefix
has_prefix-append [] s t h = refl
has_prefix-append (x ∷ p) [] t h = cc
has_prefix-append (x ∷ p) (c ∷ s) t h = ground (arith, has_prefix-append p s t)

contains-prefix : (p s : Bytes) → has_prefix p s ≡ true → contains p s ≡ true
unfolding contains index
contains-prefix p [] h = ground arith
contains-prefix p (c ∷ s) h = ground arith

contains-cons : (p : Bytes) (c : ℕ) (s : Bytes) → contains p s ≡ true → contains p (c ∷ s) ≡ true
unfolding contains index
contains-cons p c s h = ground arith

pub contains-append_right : (p s t : Bytes) → contains p t ≡ true → contains p (s ++ t) ≡ true
contains-append_right p [] t h = h
contains-append_right p (c ∷ s) t h = contains-cons p c (s ++ t) (contains-append_right p s t h)

contains-nil : (p : Bytes) → contains p [] ≡ true → p ≡ []
unfolding contains index has_prefix
contains-nil [] h = refl
contains-nil (x ∷ p) h = cc

contains_behind :
    (p : Bytes) (c : ℕ) (s : Bytes)
    → has_prefix p (c ∷ s) ≡ false
    → contains p (c ∷ s) ≡ true
    → contains p s ≡ true
unfolding contains index
contains_behind p c s e h = ground arith

pub contains-either :
    (p : Bytes) (c : ℕ) (s : Bytes)
    → contains p (c ∷ s) ≡ true
    → (has_prefix p (c ∷ s) ≡ true) ⊎ (contains p s ≡ true)
contains-either p c s h = elim (Bool-cases (has_prefix p (c ∷ s))) [
  | inl e ↦ inl e
  | inr e ↦ inr (contains_behind p c s e h)
]

-- A text that is found is found in front of more text.
pub contains-append_left : (p s t : Bytes) → contains p s ≡ true → contains p (s ++ t) ≡ true
contains-append_left p [] t h =
    subst (λ q. contains q t ≡ true) (sym (contains-nil p h))
      (contains-prefix [] t (unfold has_prefix in refl))
contains-append_left p (c ∷ s) t h = elim (contains-either p c s h) [
  | inl e ↦ contains-prefix p (c ∷ (s ++ t)) (has_prefix-append p (c ∷ s) t e)
  | inr e ↦ contains-cons p c (s ++ t) (contains-append_left p s t e)
]

-- A part is found in the whole.
contains-join :
    (p : Bytes) (ps : List Bytes) (sep i : ℕ) (part : Bytes)
    → get_elem? ps i ≡ some part
    → contains p part ≡ true
    → contains p (join ps sep) ≡ true
unfolding join
contains-join p [] sep i part e h = cc
contains-join p (q ∷ []) sep zero part e h =
    subst (λ z. contains p z ≡ true) (sym (some-injective _ _ e)) h
contains-join p (q ∷ []) sep (suc i) part e h = cc
contains-join p (q ∷ r ∷ ps) sep zero part e h =
    contains-append_left p q _ (subst (λ z. contains p z ≡ true) (sym (some-injective _ _ e)) h)
contains-join p (q ∷ r ∷ ps) sep (suc i) part e h =
    contains-append_right p q _ (contains-cons p sep _ (contains-join p (r ∷ ps) sep i part e h))

get_elem?-add_cmd :
    (cmd : Bytes) (lines : List Bytes) (i : ℕ) (line : Bytes)
    → get_elem? lines i ≡ some line
    → get_elem? (add_cmd_to_lines cmd lines) i ≡ some (add_cmd_to_line cmd line)
unfolding add_cmd_to_lines
get_elem?-add_cmd cmd [] i line e = cc
get_elem?-add_cmd cmd (l ∷ ls) zero line e =
    ap (λ z. some (add_cmd_to_line cmd z)) (some-injective _ _ e)
get_elem?-add_cmd cmd (l ∷ ls) (suc i) line e = get_elem?-add_cmd cmd ls i line e

contains-insert_at : (cmd line : Bytes) (n : ℕ) → contains cmd (insert_at cmd line n) ≡ true
contains-insert_at cmd line n =
    contains-append_right cmd (take n line) _
      (contains-cons cmd b' ' _ (contains-append_left cmd cmd _ (contains_self cmd)))
  where
    contains_self : (p : Bytes) → contains p p ≡ true
    contains_self p =
        contains-prefix p p
          (subst (λ z. has_prefix p z ≡ true) (append-nil p) (has_prefix_self p []))

contains-add_cmd_to_line :
    (cmd line : Bytes)
    → contains append_point line ≡ true
    → contains cmd (add_cmd_to_line cmd line) ≡ true
unfolding add_cmd_to_line
contains-add_cmd_to_line cmd line h = by_index (index append_point line) (unfold contains in h)
  where
    by_index :
        (o : Option ℕ)
        → (elim o [ none ↦ false | some i ↦ true ]) ≡ true
        → contains cmd (elim o [ none ↦ line | some i ↦ insert_at cmd line (i + 8) ]) ≡ true
    by_index none e = cc
    by_index (some i) e = contains-insert_at cmd line (i + 8)

-- A command that is added behind a `cros_efi` is in the file.
pub contains-add_cmd :
    (cmd content : Bytes) (i : ℕ) (line : Bytes)
    → get_elem? (split content b'\n') i ≡ some line
    → contains append_point line ≡ true
    → contains cmd (add_cmd cmd content) ≡ true
unfolding add_cmd
contains-add_cmd cmd content i line e h =
    contains-join cmd (add_cmd_to_lines cmd (split content b'\n')) b'\n' i
      (add_cmd_to_line cmd line) (get_elem?-add_cmd cmd (split content b'\n') i line e)
      (contains-add_cmd_to_line cmd line h)

abbrev pub HasNoPoint : Bytes → Type 0
HasNoPoint line = contains append_point line ≡ false

pub add_cmd_to_line_same : (cmd line : Bytes) → HasNoPoint line → add_cmd_to_line cmd line ≡ line
unfolding add_cmd_to_line contains
add_cmd_to_line_same cmd line h = ground arith

add_cmd_to_lines_same :
    (cmd : Bytes) (lines : List Bytes) → All HasNoPoint lines → add_cmd_to_lines cmd lines ≡ lines
unfolding add_cmd_to_lines
add_cmd_to_lines_same cmd [] h = refl
add_cmd_to_lines_same cmd (l ∷ ls) (h, hs) =
    rw (add_cmd_to_line_same cmd l h, add_cmd_to_lines_same cmd ls hs)

-- Where no line has a `cros_efi`, nothing is added.
pub add_cmd_same :
    (cmd content : Bytes) → All HasNoPoint (split content b'\n') → add_cmd cmd content ≡ content
unfolding add_cmd
add_cmd_same cmd content h =
    rw (add_cmd_to_lines_same cmd (split content b'\n') h) (join-split content b'\n')

take-Lacks : (b n : ℕ) (s : Bytes) → Lacks b s → Lacks b (take n s)
take-Lacks b zero s h = tt
take-Lacks b (suc n) [] h = tt
take-Lacks b (suc n) (c ∷ s) (k, h) = (k, take-Lacks b n s h)

drop-Lacks : (b n : ℕ) (s : Bytes) → Lacks b s → Lacks b (drop n s)
drop-Lacks b zero s h = h
drop-Lacks b (suc n) [] h = tt
drop-Lacks b (suc n) (c ∷ s) (k, h) = drop-Lacks b n s h

insert_at-Lacks :
    (cmd line : Bytes) (n : ℕ)
    → Lacks b'\n' cmd
    → Lacks b'\n' line
    → Lacks b'\n' (insert_at cmd line n)
insert_at-Lacks cmd line n hc hl =
    let space : b' ' ≢ b'\n' = ground arith in
    let behind = All-append (λ c. c ≢ b'\n') cmd _ hc (space, drop-Lacks b'\n' n line hl) in
    All-append (λ c. c ≢ b'\n') (take n line) _ (take-Lacks b'\n' n line hl) (space, behind)

add_cmd_to_line-Lacks :
    (cmd line : Bytes) → Lacks b'\n' cmd → Lacks b'\n' line → Lacks b'\n' (add_cmd_to_line cmd line)
unfolding add_cmd_to_line
add_cmd_to_line-Lacks cmd line hc hl = by_index (index append_point line)
  where
    by_index :
        (o : Option ℕ) → Lacks b'\n' (elim o [ none ↦ line | some i ↦ insert_at cmd line (i + 8) ])
    by_index none = hl
    by_index (some i) = insert_at-Lacks cmd line (i + 8) hc hl

pub add_cmd_to_lines-Lacks :
    (cmd : Bytes) (lines : List Bytes)
    → Lacks b'\n' cmd
    → All (Lacks b'\n') lines
    → All (Lacks b'\n') (add_cmd_to_lines cmd lines)
unfolding add_cmd_to_lines
add_cmd_to_lines-Lacks cmd [] hc h = tt
add_cmd_to_lines-Lacks cmd (l ∷ ls) hc (h, hs) =
    (add_cmd_to_line-Lacks cmd l hc h, add_cmd_to_lines-Lacks cmd ls hc hs)

pub add_cmd_to_lines-ne-nil :
    (cmd : Bytes) (lines : List Bytes) → lines ≢ [] → add_cmd_to_lines cmd lines ≢ []
unfolding add_cmd_to_lines
add_cmd_to_lines-ne-nil cmd [] h = absurd (h refl)
add_cmd_to_lines-ne-nil cmd (l ∷ ls) h = λ e. cc
