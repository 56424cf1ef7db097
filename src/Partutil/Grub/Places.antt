-- ===== src/Partutil/Grub/Places.antt =====
-- Where a command is put in the lines of grub.cfg.
use cos_tools.Base.{
  ℕ, suc, ◌+◌, true, false, none, some, List, [], ◌∷◌, ◌++◌, ◌≡◌, refl, ap, subst, append_assoc,
  ◌⊎◌, sym, ◌∙◌, Option-cases, length, length-append, Bool-cases, inl, inr, arith,
}
use mathlib.Core.Option.{some-injective}
use cos_tools.Base.Parts.{take-length, drop-length}
use cos_tools.Text.{Bytes, codes, Lacks, split, has_prefix, index, contains}
use cos_tools.Text.Search.{has_prefix-rest}
use cos_tools.Text.Split.{split-ne-nil, split-join, split-Lacks_sep}
use cos_tools.Partutil.Grub.{append_point, insert_at, add_cmd_to_line, add_cmd_to_lines, add_cmd}
use cos_tools.Partutil.Grub.Lines.{
  HasNoPoint, has_prefix-append, contains-either, add_cmd_to_line_same, add_cmd_to_lines-Lacks,
  add_cmd_to_lines-ne-nil,
}

-- A place where the text `p` stands for the first time: in front of it is no `p`.
abbrev pub FirstAt : Bytes → Bytes → Bytes → Bytes → Type 0
FirstAt p line pre post = (line ≡ pre ++ (p ++ post)) × (contains p pre ≡ false)

contains-cons_front :
    (p : Bytes) (c : ℕ) (pre s : Bytes)
    → has_prefix p (c ∷ (pre ++ s)) ≡ false
    → contains p pre ≡ false
    → contains p (c ∷ pre) ≡ false
contains-cons_front p c pre s front h = elim (Bool-cases (contains p (c ∷ pre))) [
  | inr e ↦ e
  | inl e ↦ elim (contains-either p c pre e) [
    | inl at ↦ absurd (ground (arith, front, has_prefix-append p (c ∷ pre) s at))
    | inr behind ↦ absurd (ground (arith, h, behind))
  ]
]

nil-lacks : (x : ℕ) (p : Bytes) → contains (x ∷ p) [] ≡ false
unfolding contains index has_prefix
nil-lacks x p = refl

index_here :
    (p : Bytes) (c : ℕ) (s : Bytes) → has_prefix p (c ∷ s) ≡ true → index p (c ∷ s) ≡ some 0
unfolding index
index_here p c s h = rw h refl

index_there :
    (p : Bytes) (c : ℕ) (s : Bytes) {j : ℕ}
    → has_prefix p (c ∷ s) ≡ false
    → index p s ≡ some j
    → index p (c ∷ s) ≡ some (suc j)
unfolding index
index_there p c s h found = rw (h, found) refl

index_nowhere :
    (p : Bytes) (c : ℕ) (s : Bytes)
    → has_prefix p (c ∷ s) ≡ false
    → index p s ≡ none
    → index p (c ∷ s) ≡ none
unfolding index
index_nowhere p c s h gone = rw (h, gone) refl

nil-index : (x : ℕ) (p : Bytes) → index (x ∷ p) [] ≡ none
unfolding index has_prefix
nil-index x p = refl

index-FirstAt :
    (x : ℕ) (p line : Bytes) {i : ℕ}
    → index (x ∷ p) line ≡ some i
    → (pre post : Bytes) × FirstAt (x ∷ p) line pre post × (length pre ≡ i)
index-FirstAt x p [] h = let none_there = nil-index x p in cc
index-FirstAt x p (c ∷ line) {i} h = elim (Bool-cases (has_prefix (x ∷ p) (c ∷ line))) [
  | inl at ↦
      let (post, e) = has_prefix-rest (x ∷ p) (c ∷ line) at in
      ([], post, (e, nil-lacks x p), some-injective _ _ (sym (index_here (x ∷ p) c line at) ∙ h))
  | inr front ↦ elim (Option-cases (index (x ∷ p) line)) [
    | inl gone ↦ let none_there = index_nowhere (x ∷ p) c line front gone in cc
    | inr (j, found) ↦
        let (pre, post, (e, lacks), len) = index-FirstAt x p line found in
        let same = subst (λ t. has_prefix (x ∷ p) (c ∷ t) ≡ false) e front in
        (
          c ∷ pre,
          post,
          (ap (λ t. c ∷ t) e, contains-cons_front (x ∷ p) c pre ((x ∷ p) ++ post) same lacks),
          ap suc len ∙ some-injective _ _ (sym (index_there (x ∷ p) c line front found) ∙ h),
        )
  ]
]

insert_at-append :
    (cmd s t : Bytes) {n : ℕ}
    → n ≡ length s
    → insert_at cmd (s ++ t) n ≡ s ++ (b' ' ∷ (cmd ++ (b' ' ∷ t)))
insert_at-append cmd s t e = rw (e, take-length s t, drop-length s t) refl

-- What becomes of a line: the command, between two spaces, is put behind the first `cros_efi`, and
-- a line without one stays.
abbrev pub IsLineWith : Bytes → Bytes → Bytes → Type 0
IsLineWith cmd line new_line =
    (HasNoPoint line × (new_line ≡ line))
    ⊎ ((pre post : Bytes) × FirstAt (codes "cros_efi") line pre post
        × (new_line ≡ pre ++ (codes "cros_efi" ++ (b' ' ∷ (cmd ++ (b' ' ∷ post))))))

-- The lines of two files, one by one.
abbrev pub AreLinesWith : Bytes → List Bytes → List Bytes → Type 0
AreLinesWith cmd [] [] = Unit
AreLinesWith cmd (line ∷ lines) (new_line ∷ new_lines) =
    IsLineWith cmd line new_line × AreLinesWith cmd lines new_lines
AreLinesWith cmd _ _ = ⊥

insert_at_point :
    (cmd line pre post : Bytes) {i : ℕ}
    → line ≡ pre ++ (append_point ++ post)
    → length pre ≡ i
    → insert_at cmd line (i + 8) ≡ pre ++ (append_point ++ (b' ' ∷ (cmd ++ (b' ' ∷ post))))
insert_at_point cmd line pre post {i} e len =
    let eight : length append_point ≡ 8 = refl in
    ap (λ l. insert_at cmd l (i + 8)) (e ∙ sym (append_assoc pre append_point post))
    ∙ insert_at-append cmd (pre ++ append_point) post
        (omega (arith, length-append pre append_point, len, eight))
    ∙ append_assoc pre append_point (b' ' ∷ (cmd ++ (b' ' ∷ post)))

index-contains : (p s : Bytes) → index p s ≡ none → contains p s ≡ false
unfolding contains
index-contains p s h = ap (λ o. elim o [ none ↦ false | some i ↦ true ]) h

add_cmd_to_line_at :
    (cmd line : Bytes) {i : ℕ}
    → index append_point line ≡ some i
    → add_cmd_to_line cmd line ≡ insert_at cmd line (i + 8)
unfolding add_cmd_to_line
add_cmd_to_line_at cmd line h =
    ap (λ o. elim o [ none ↦ line | some j ↦ insert_at cmd line (j + 8) ]) h

add_cmd_to_line-IsLineWith : (cmd line : Bytes) → IsLineWith cmd line (add_cmd_to_line cmd line)
add_cmd_to_line-IsLineWith cmd line = elim (Option-cases (index append_point line)) [
  | inl gone ↦
      let lacks = index-contains append_point line gone in
      inl (lacks, add_cmd_to_line_same cmd line lacks)
  | inr (i, found) ↦
      let (pre, post, first, len) = index-FirstAt b'c' (codes "ros_efi") line found in
      inr (
        pre,
        post,
        first,
        add_cmd_to_line_at cmd line found ∙ insert_at_point cmd line pre post first.0 len,
      )
]

add_cmd_to_lines-AreLinesWith :
    (cmd : Bytes) (lines : List Bytes) → AreLinesWith cmd lines (add_cmd_to_lines cmd lines)
unfolding add_cmd_to_lines
add_cmd_to_lines-AreLinesWith cmd [] = tt
add_cmd_to_lines-AreLinesWith cmd (line ∷ lines) =
    (add_cmd_to_line-IsLineWith cmd line, add_cmd_to_lines-AreLinesWith cmd lines)

-- Where the command has no newline, the lines of the file with the command added are the lines of
-- the old file in their order, each with the command, between two spaces, behind its first
-- cros_efi, and unchanged if it has no cros_efi.
pub split-add_cmd :
    (cmd content : Bytes)
    → Lacks b'\n' cmd
    → AreLinesWith cmd (split content b'\n') (split (add_cmd cmd content) b'\n')
unfolding add_cmd
split-add_cmd cmd content h =
    let lines = split content b'\n' in
    let new_lines = add_cmd_to_lines cmd lines in
    rw
      (split-join new_lines b'\n' (add_cmd_to_lines-ne-nil cmd lines (split-ne-nil content b'\n'))
        (add_cmd_to_lines-Lacks cmd lines h (split-Lacks_sep content b'\n')))
      (add_cmd_to_lines-AreLinesWith cmd lines)
