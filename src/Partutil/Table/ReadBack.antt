-- ===== src/Partutil/Table/ReadBack.antt =====
-- What a reader finds in a table after `HandlePartitionTable` has changed it.
use cos_tools.Base.{
  ◌≡◌, sym, ◌∙◌, ap, ◌≢◌, true, false, List, inl, inr, Bool-cases, [], ◌∷◌, ◌++◌, All,
}
use cos_tools.Base.Errors.{ok}
use cos_tools.Text.{Bytes, Lacks, split, has_prefix}
use cos_tools.Text.Split.{split-join, split-Lacks_sep}
use cos_tools.Text.Search.{has_prefix_unique}
use cos_tools.Partutil.Table.{
  PartContent, cut_line, handle_line, is_line_of, handle_lines, handle_partition_table, read_part,
}
use cos_tools.Partutil.Table.Line.{cut_line-Cuts}
use cos_tools.Partutil.Table.Rebuild.{cut_line-rebuild_line}
use cos_tools.Partutil.Table.Lines.{
  Fits, IsName, handle_line-eq-ok, is_line_of-rebuild_line, rebuild_line-Lacks, read_lines, Changed,
  read_lines_miss, read_lines_hit, read_lines_cons, before-eq-ok, behind-eq-ok, handle_lines_here,
  handle_lines_miss, read_part-lines, handle_partition_table-eq-ok,
}

is_line_of_other :
    (name other line : Bytes)
    → IsName name
    → IsName other
    → other ≢ name
    → is_line_of name line ≡ true
    → is_line_of other line ≡ false
unfolding is_line_of
is_line_of_other name other line (_, hn) (_, ho) ne h =
    elim (Bool-cases (has_prefix (other ++ (b' ' ∷ [])) line)) [
      | inl e ↦ absurd (ne (has_prefix_unique other name line b' ' ho hn e h))
      | inr e ↦ e
    ]

module _ {name : Bytes} (named : IsName name) (f : PartContent → PartContent) where
  -- The change at the line of the partition.
  handle_line-Changed :
      (line line' : Bytes) (lines : List Bytes) (p : PartContent)
      → is_line_of name line ≡ true
      → handle_line true f line ≡ ok (line', p)
      → All (Lacks b'\n') (line ∷ lines)
      → Fits (f p)
      → Changed name p (f p) (line ∷ lines) (line' ∷ lines)
  handle_line-Changed line line' lines p here h (clean, cleans) (fs, fz) =
      let (k, cut, e, same) = handle_line-eq-ok f line line' p h in
      let c = cut_line-Cuts k line cut in
      let still : (other : Bytes) → IsName other → is_line_of other line' ≡ is_line_of other line =
        λ other o. ap (is_line_of other) e ∙ is_line_of-rebuild_line c (f p) other o.0 in
      record {
        not_nil = λ q. cc;
        newlines = (rw e (rebuild_line-Lacks c (f p) clean), cleans);
        was = rw same (read_lines_hit name line lines k here cut);
        changed =
            read_lines_hit name line' lines _ (still name named ∙ here)
              (ap cut_line e ∙ cut_line-rebuild_line c (f p) fs fz);
        others = λ other o ne.
            let miss = is_line_of_other name other line named o ne here in
            read_lines_miss other line' lines (still other o ∙ miss)
            ∙ sym (read_lines_miss other line lines miss);
      }

  miss-Changed :
      (line : Bytes) (lines lines' : List Bytes) (p q : PartContent)
      → is_line_of name line ≡ false
      → Lacks b'\n' line
      → Changed name p q lines lines'
      → Changed name p q (line ∷ lines) (line ∷ lines')
  miss-Changed line lines lines' p q miss clean ch = record {
    not_nil = λ e. cc;
    newlines = (clean, ch.newlines);
    was = read_lines_miss name line lines miss ∙ ch.was;
    changed = read_lines_miss name line lines' miss ∙ ch.changed;
    others = λ other o ne. read_lines_cons other line lines lines' (ch.others other o ne);
  }

  -- The change at the first line of the partition, wherever it stands.
  handle_lines-Changed :
      (lines lines' : List Bytes) (p : PartContent)
      → handle_lines name true f lines ≡ ok (lines', p)
      → All (Lacks b'\n') lines
      → Fits (f p)
      → Changed name p (f p) lines lines'
  handle_lines-Changed [] lines' p h clean fits = unfold handle_lines in cc
  handle_lines-Changed (line ∷ lines) lines' p h clean fits =
      elim (Bool-cases (is_line_of name line)) [
        | inl here ↦
            let (line', e, same) =
              before-eq-ok lines lines' p _ (sym (handle_lines_here name f line lines here) ∙ h) in
            rw same (handle_line-Changed line line' lines p here e clean fits)
        | inr miss ↦
            let (rest, e, same) =
              behind-eq-ok line lines' p _ (sym (handle_lines_miss name f line lines miss) ∙ h) in
            rw same (
              miss-Changed line lines rest p (f p) miss clean.0
                (handle_lines-Changed lines rest p e clean.1 fits))
      ]

  -- A change at a partition's line hands the callback what a reader finds. In the new table a
  -- reader finds what the callback left there, and every other partition as it was.
  pub handle_partition_table_changes :
      (table table' : Bytes) (p : PartContent)
      → handle_partition_table table name true f ≡ ok (table', p)
      → Fits (f p)
      → (read_part table name ≡ ok p)
        × (read_part table' name ≡ ok (f p))
        × ((other : Bytes)
            → IsName other
            → other ≢ name
            → read_part table' other ≡ read_part table other)
  handle_partition_table_changes table table' p h fits =
      let (lines', e, same) = handle_partition_table-eq-ok name f table table' p h in
      let ch =
        handle_lines-Changed (split table b'\n') lines' p e (split-Lacks_sep table b'\n') fits in
      let lines_eq : split table' b'\n' ≡ lines' =
        ap (λ t. split t b'\n') same ∙ split-join lines' b'\n' ch.not_nil ch.newlines in
      let read_new : (other : Bytes) → read_part table' other ≡ read_lines other lines' =
        λ other. read_part-lines table' other ∙ ap (read_lines other) lines_eq in
      (
        read_part-lines table name ∙ ch.was,
        read_new name ∙ ch.changed,
        λ other o ne. read_new other ∙ ch.others other o ne ∙ sym (read_part-lines table other),
      )
