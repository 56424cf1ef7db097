-- ===== src/Changelog/Sysctl/Recorded.antt =====
-- The values that a file sysctl_a.txt records, told from its lines.

use cos_tools.Base.{
  true, false, Option, none, some, List, [], ◌∷◌, ◌++◌, append_assoc, length, drop, ◌≡◌, ◌≢◌, refl,
  sym, subst, ap, ◌∙◌, Bool-cases, inl, inr, arith, if◌then◌else◌,
}
use cos_tools.Base.Parts.{drop-length}
use cos_tools.Text.{Bytes, codes, Lacks, eqb, split, split_by, has_prefix}
use cos_tools.Text.Equal.{eqb-eq-true, eqb_refl}
use cos_tools.Text.Search.{has_prefix_self, has_prefix-rest}
use cos_tools.Maps.{Table, lookup, lookup-store_self, lookup-store_other}
use cos_tools.Changelog.Sysctl.{
  separator, is_among, sysctl_filter, join_by, value_of, add_parts, add_lines, read_sysctl, Storage,
  fetch_sysctl_to_map, Build, sysctl_path,
}
use cos_tools.Changelog.Sysctl.Diff.{first_of, first_of-none}
use cos_tools.Changelog.Sysctl.Parts.{
  or_dashes, split_by-name, split_by_alone, split_by-ne-nil, join_by-split_by, value_of-split_by,
}
use cos_tools.Changelog.Sysctl.Report.{values}

lookup-nil : (name : Bytes) → lookup {V = Bytes} name [] ≡ none
unfolding lookup
lookup-nil name = refl

-- The parameters whose values are not significant.
abbrev pub insignificant : List Bytes
insignificant =
    codes "kernel.hostname"
    ∷ codes "kernel.version"
    ∷ codes "fs.dentry-state"
    ∷ codes "fs.file-nr"
    ∷ codes "fs.inode-nr"
    ∷ codes "fs.inode-state"
    ∷ codes "fs.quota.syncs"
    ∷ codes "kernel.ns_last_pid"
    ∷ codes "kernel.pty.nr"
    ∷ codes "kernel.random.boot_id"
    ∷ codes "kernel.random.entropy_avail"
    ∷ codes "kernel.random.uuid"
    ∷ codes "net.netfilter.nf_conntrack_count"
    ∷ codes "kernel.osrelease"
    ∷ codes "net.ipv4.tcp_fastopen_key"
    ∷ []

module _ (name : Bytes) where
  -- The value that a line gives the name: what stands behind the name and " = ".
  abbrev pub value_on : Bytes → Option Bytes
  value_on line =
      if eqb line name
      then some []
      else if has_prefix (name ++ codes " = ") line
      then some (or_dashes (drop (length (name ++ codes " = ")) line))
      else none

  -- The last line with the name counts.
  abbrev pub last_value : List Bytes → Option Bytes
  last_value [] = none
  last_value (line ∷ lines) = first_of (last_value lines) (value_on line)

  -- The value in a file, `none` if the file cannot be read or the name is not significant.
  abbrev pub recorded : Option Bytes → Option Bytes
  recorded none = none
  recorded (some content) =
      if is_among name insignificant then none else last_value (split content b'\n')

  module _ (plain : Lacks b' ' name) where
    -- What the parts of a line do for the name.
    parts_named :
        (t : List Bytes) (line : Bytes) (m : Table Bytes)
        → is_among name sysctl_filter ≡ false
        → split_by separator 0 line ≡ name ∷ t
        → lookup name (add_parts (split_by separator 0 line) m) ≡ some (value_of t)
    unfolding add_parts
    parts_named t line m significant e = rw (e, significant) (lookup-store_self name (value_of t) m)

    value_on-alone :
        (line : Bytes) (m : Table Bytes)
        → is_among name sysctl_filter ≡ false
        → eqb line name ≡ true
        → lookup name (add_parts (split_by separator 0 line) m) ≡ some []
    unfolding join_by
    value_on-alone line m significant e =
        parts_named [] line m significant
          (ap (split_by separator 0) (eqb-eq-true line name e) ∙ split_by_alone name plain)

    value_on-prefix :
        (line : Bytes) (m : Table Bytes)
        → is_among name sysctl_filter ≡ false
        → has_prefix (name ++ separator) line ≡ true
        → lookup name (add_parts (split_by separator 0 line) m)
          ≡ some (or_dashes (drop (length (name ++ separator)) line))
    value_on-prefix line m significant e =
        let (t, whole) = has_prefix-rest (name ++ separator) line e in
        parts_named (split_by separator 0 t) line m significant (
          ap (split_by separator 0) (whole ∙ append_assoc name separator t)
          ∙ split_by-name name t plain)
        ∙ ap some (value_of-split_by t)
        ∙ ap (λ s. some (or_dashes s))
            (sym (ap (drop (length (name ++ separator))) whole ∙ drop-length (name ++ separator) t))

    -- A line that is not the name and does not begin with it has another first part.
    first-other :
        (line first : Bytes) (t : List Bytes)
        → split_by separator 0 line ≡ first ∷ t
        → eqb line name ≡ false
        → has_prefix (name ++ separator) line ≡ false
        → eqb first name ≡ false
    unfolding join_by
    first-other line first t e alone front = elim (Bool-cases (eqb first name)) [
      | inr other ↦ other
      | inl same ↦
          let whole : line ≡ join_by separator (name ∷ t) =
            sym (join_by-split_by line)
            ∙ ap (join_by separator) (e ∙ ap (λ p. p ∷ t) (eqb-eq-true first name same)) in
          absurd (by_parts t whole)
    ]
      where
        by_parts : (t : List Bytes) → line ≡ join_by separator (name ∷ t) → ⊥
        by_parts [] whole =
            let equal = subst (λ l. eqb l name ≡ true) (sym whole) (eqb_refl name) in
            ground (arith, equal, alone)
        by_parts (q ∷ qs) whole =
            let equal =
              subst (λ l. has_prefix (name ++ separator) l ≡ true)
                (append_assoc name separator (join_by separator (q ∷ qs)) ∙ sym whole)
                (has_prefix_self (name ++ separator) (join_by separator (q ∷ qs))) in
            ground (arith, equal, front)

    lookup-add_other :
        (first : Bytes) (t : List Bytes) (m : Table Bytes)
        → eqb first name ≡ false
        → lookup name (add_parts (first ∷ t) m) ≡ lookup name m
    unfolding add_parts
    lookup-add_other first t m h = elim (Bool-cases (is_among first sysctl_filter)) [
      | inl e ↦ rw e refl
      | inr e ↦ rw e (lookup-store_other first name (value_of t) m h)
    ]

    value_on-absent :
        (line : Bytes) (m : Table Bytes)
        → eqb line name ≡ false
        → has_prefix (name ++ separator) line ≡ false
        → lookup name (add_parts (split_by separator 0 line) m) ≡ lookup name m
    value_on-absent line m alone front =
        by_parts (split_by separator 0 line) refl (split_by-ne-nil 0 line)
      where
        by_parts :
            (parts : List Bytes)
            → split_by separator 0 line ≡ parts
            → parts ≢ []
            → lookup name (add_parts (split_by separator 0 line) m) ≡ lookup name m
        by_parts [] e ne = absurd (ne refl)
        by_parts (first ∷ t) e ne =
            ap (λ ps. lookup name (add_parts ps m)) e
            ∙ lookup-add_other first t m (first-other line first t e alone front)

    -- What a line does for the name.
    add_parts-value_on :
        (line : Bytes) (m : Table Bytes)
        → is_among name sysctl_filter ≡ false
        → lookup name (add_parts (split_by separator 0 line) m)
          ≡ first_of (value_on line) (lookup name m)
    add_parts-value_on line m significant = elim (Bool-cases (eqb line name)) [
      | inl e ↦ rw (e, value_on-alone line m significant e) refl
      | inr alone ↦ elim (Bool-cases (has_prefix (name ++ separator) line)) [
        | inl e ↦ rw (alone, e, value_on-prefix line m significant e) refl
        | inr front ↦ rw (alone, front, value_on-absent line m alone front) refl
      ]
    ]

    first_of_assoc : (o p q : Option Bytes) → first_of o (first_of p q) ≡ first_of (first_of o p) q
    first_of_assoc none p q = refl
    first_of_assoc (some v) p q = refl

    add_lines-last_value :
        (lines : List Bytes) (m : Table Bytes)
        → is_among name sysctl_filter ≡ false
        → lookup name (add_lines lines m) ≡ first_of (last_value lines) (lookup name m)
    unfolding add_lines
    add_lines-last_value [] m significant = refl
    add_lines-last_value (line ∷ lines) m significant =
        add_lines-last_value lines (add_parts (split_by separator 0 line) m) significant
        ∙ ap (first_of (last_value lines)) (add_parts-value_on line m significant)
        ∙ first_of_assoc (last_value lines) (value_on line) (lookup name m)

    -- A name that is filtered out gets no value.
    add_parts-filtered :
        (parts : List Bytes) (m : Table Bytes)
        → is_among name sysctl_filter ≡ true
        → lookup name (add_parts parts m) ≡ lookup name m
    unfolding add_parts
    add_parts-filtered [] m h = refl
    add_parts-filtered (first ∷ t) m h = elim (Bool-cases (is_among first sysctl_filter)) [
      | inl e ↦ rw e refl
      | inr e ↦ rw e (lookup-store_other first name (value_of t) m (other e))
    ]
      where
        other : is_among first sysctl_filter ≡ false → eqb first name ≡ false
        other e = elim (Bool-cases (eqb first name)) [
          | inr k ↦ k
          | inl k ↦
              let same =
                subst (λ n. is_among n sysctl_filter ≡ false) (eqb-eq-true first name k) e in
              absurd (ground (arith, same, h))
        ]

    add_lines-filtered :
        (lines : List Bytes) (m : Table Bytes)
        → is_among name sysctl_filter ≡ true
        → lookup name (add_lines lines m) ≡ lookup name m
    unfolding add_lines
    add_lines-filtered [] m h = refl
    add_lines-filtered (line ∷ lines) m h =
        add_lines-filtered lines (add_parts (split_by separator 0 line) m) h
        ∙ add_parts-filtered (split_by separator 0 line) m h

    read_sysctl-recorded :
        (content : Option Bytes) → lookup name (read_sysctl content) ≡ recorded content
    read_sysctl-recorded none = lookup-nil name
    read_sysctl-recorded (some content) = elim (Bool-cases (is_among name sysctl_filter)) [
      | inl e ↦ rw e (add_lines-filtered (split content b'\n') [] e ∙ lookup-nil name)
      | inr e ↦ rw e (
          add_lines-last_value (split content b'\n') [] e
          ∙ ap (first_of (last_value (split content b'\n'))) (lookup-nil name)
          ∙ first_of-none (last_value (split content b'\n')))
    ]

    -- The values of a build are those that its file records.
    pub values-recorded :
        (storage : Storage) (bucket : Bytes) (b : Build)
        → lookup name (values storage bucket b) ≡ recorded (storage (sysctl_path bucket b))
    unfolding fetch_sysctl_to_map
    values-recorded storage bucket b = read_sysctl-recorded (storage (sysctl_path bucket b))
