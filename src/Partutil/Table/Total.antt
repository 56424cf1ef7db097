-- ===== src/Partutil/Table/Total.antt =====
-- A table in which a reader finds a partition can be changed at that partition.
use cos_tools.Base.{
  ◌≡◌, sym, subst, ◌∙◌, ap, true, false, List, inl, inr, Bool-cases, [], ◌∷◌, arith,
}
use cos_tools.Base.Errors.{Result, ok, err, panic, ◌>>=◌, ok_of_bind}
use cos_tools.Text.{Bytes, split, join}
use cos_tools.Text.Decimal.{parse_uint-lt}
use cos_tools.Partutil.Table.{
  PartContent, cut_line, rebuild_line, handle_line, is_line_of, handle_lines,
  handle_partition_table, keep, read_part,
}
use cos_tools.Partutil.Table.Line.{cut_line-Cuts}
use cos_tools.Partutil.Table.Lines.{
  Fits, read_lines, read_lines_miss, handle_lines_here, handle_lines_miss, read_part-lines,
}

pub handle_partition_table_reads :
    (table name : Bytes) (p : PartContent)
    → read_part table name ≡ ok p
    → handle_partition_table table name false keep ≡ ok (table, p)
unfolding read_part handle_partition_table
handle_partition_table_reads table name p h =
    of_lines (handle_lines name false keep (split table b'\n')) h
  where
    of_lines :
        (r : Result (List Bytes × PartContent))
        → (◌>>=◌ {B = PartContent}
            (◌>>=◌ {B = Bytes × PartContent} r (λ x. ok (table, x.1)))
            (λ x. ok x.1))
          ≡ ok p
        → (◌>>=◌ {B = Bytes × PartContent} r (λ x. ok (table, x.1))) ≡ ok (table, p)
    of_lines (ok x) e = ground arith
    of_lines (err _) e = cc
    of_lines panic e = cc

handle_line_total :
    (f : PartContent → PartContent) (line : Bytes) (p : PartContent)
    → (do k ← cut_line line; ok k.part) ≡ ok p
    → (line' : Bytes) × (handle_line true f line ≡ ok (line', p))
unfolding handle_line
handle_line_total f line p h =
    let (k, e, same) = ok_of_bind (λ k. ok k.part) (cut_line line) h in
    (
      rebuild_line k (f k.part),
      ap (λ r. do k ← r; ok (rebuild_line k (f k.part), k.part)) e ∙ ground arith,
    )

read_lines-cut_line :
    (name line : Bytes) (lines : List Bytes)
    → is_line_of name line ≡ true
    → read_lines name (line ∷ lines) ≡ (do k ← cut_line line; ok k.part)
unfolding read_lines handle_lines handle_line
read_lines-cut_line name line lines h = rw h (ground arith)

handle_lines_total :
    (name : Bytes) (f : PartContent → PartContent) (lines : List Bytes) (p : PartContent)
    → read_lines name lines ≡ ok p
    → (lines' : List Bytes) × (handle_lines name true f lines ≡ ok (lines', p))
handle_lines_total name f [] p h = unfold read_lines handle_lines in cc
handle_lines_total name f (line ∷ lines) p h = elim (Bool-cases (is_line_of name line)) [
  | inl here ↦
      let (line', e) =
        handle_line_total f line p (sym (read_lines-cut_line name line lines here) ∙ h) in
      (line' ∷ lines, handle_lines_here name f line lines here ∙ rw e)
  | inr miss ↦
      let (rest, e) =
        handle_lines_total name f lines p (sym (read_lines_miss name line lines miss) ∙ h) in
      (line ∷ rest, handle_lines_miss name f line lines miss ∙ rw e)
]

-- So `HandlePartitionTable` succeeds there, and the callback is handed what a reader finds.
pub handle_partition_table_total :
    (name : Bytes) (f : PartContent → PartContent) (table : Bytes) (p : PartContent)
    → read_part table name ≡ ok p
    → (table' : Bytes) × (handle_partition_table table name true f ≡ ok (table', p))
unfolding handle_partition_table
handle_partition_table_total name f table p h =
    let (lines', e) =
      handle_lines_total name f (split table b'\n') p (sym (read_part-lines table name) ∙ h) in
    (join lines' b'\n', rw e)

read_lines-Fits :
    (name : Bytes) (lines : List Bytes) (p : PartContent) → read_lines name lines ≡ ok p → Fits p
read_lines-Fits name [] p h = unfold read_lines handle_lines in cc
read_lines-Fits name (line ∷ lines) p h = elim (Bool-cases (is_line_of name line)) [
  | inl here ↦
      let (k, e, same) =
        ok_of_bind (λ k. ok k.part) (cut_line line)
          (sym (read_lines-cut_line name line lines here) ∙ h) in
      let c = cut_line-Cuts k line e in
      let fits : Fits k.part = (parse_uint-lt _ _ c.start_read, parse_uint-lt _ _ c.size_read) in
      subst Fits (ok-injective same) fits
  | inr miss ↦ read_lines-Fits name lines p (sym (read_lines_miss name line lines miss) ∙ h)
]
  where
    ok-injective : {p q : PartContent} → ok p ≡ ok q → p ≡ q
    ok-injective e = cc

-- What is read are uint64 numbers.
pub read_part-Fits : (table name : Bytes) (p : PartContent) → read_part table name ≡ ok p → Fits p
read_part-Fits table name p h =
    read_lines-Fits name (split table b'\n') p (sym (read_part-lines table name) ∙ h)
