-- ===== src/Partutil/Table/Lines.antt =====
-- The lines of a table, one by one: what a reader finds there, and the line that is changed.
use cos_tools.Base.{
  ◌≡◌, refl, sym, ◌∙◌, ap, ◌≢◌, ◌<◌, true, false, some, List, inl, inr, Bool-cases, [], ◌∷◌, ◌++◌,
  arith, get_elem?, set, All,
}
use cos_tools.Base.Errors.{Result, ok, err, panic, ◌>>=◌, ok_of_bind}
use cos_tools.Text.{Bytes, Lacks, u64_mod, split, join, is_digit, has_prefix}
use cos_tools.Text.Split.{join-split, split-Lacks, join-Lacks}
use cos_tools.Text.Search.{has_prefix_before}
use cos_tools.Partutil.Table.{
  PartContent, LineParts, cut_line, rebuild_line, handle_line, is_line_of, before, behind,
  handle_lines, handle_partition_table, keep, read_part,
}
use cos_tools.Partutil.Table.Line.{Cuts}
use cos_tools.Partutil.Table.Rebuild.{rebuilt_content, rebuilt_content-Lacks}

-- A uint64 for each field.
abbrev pub Fits : PartContent → Type 0
Fits p = (p.start < u64_mod) × (p.size < u64_mod)

-- A partition's name: neither a colon nor a space stands in it.
abbrev pub IsName : Bytes → Type 0
IsName name = Lacks b':' name × Lacks b' ' name

pub handle_line-eq-ok :
    (f : PartContent → PartContent) (line line' : Bytes) (p : PartContent)
    → handle_line true f line ≡ ok (line', p)
    → (k : LineParts) × (cut_line line ≡ ok k) × (line' ≡ rebuild_line k (f p)) × (p ≡ k.part)
unfolding handle_line
handle_line-eq-ok f line line' p h =
    let (k, e, h') = ok_of_bind _ (cut_line line) h in (k, e, ground arith, ground arith)

-- What stands in front of the first colon is kept, and a name is looked for there.
has_prefix-set :
    (q : Bytes) (content : List Bytes) (v : Bytes) {x : Bytes}
    → Lacks b':' q
    → get_elem? content 1 ≡ some x
    → has_prefix q (join (set content 1 v) b':') ≡ has_prefix q (join content b':')
unfolding join
has_prefix-set q [] v h e = refl
has_prefix-set q (c ∷ []) v h e = refl
has_prefix-set q (c ∷ d ∷ []) v h e =
    has_prefix_before q c v b':' h ∙ sym (has_prefix_before q c d b':' h)
has_prefix-set q (c ∷ d ∷ d' ∷ cs) v h e =
    has_prefix_before q c _ b':' h ∙ sym (has_prefix_before q c _ b':' h)

name-Lacks : (name : Bytes) → Lacks b':' name → Lacks b':' (name ++ (b' ' ∷ []))
name-Lacks [] h = (omega arith, tt)
name-Lacks (c ∷ name) (hc, h) = (hc, name-Lacks name h)

module _ {line : Bytes} {k : LineParts} (c : Cuts line k) (p : PartContent) where
  pub is_line_of-rebuild_line :
      (name : Bytes) → Lacks b':' name → is_line_of name (rebuild_line k p) ≡ is_line_of name line
  unfolding is_line_of rebuild_line
  is_line_of-rebuild_line name h =
      has_prefix-set _ k.content _ (name-Lacks name h) c.info_at
      ∙ ap (λ t. has_prefix (name ++ (b' ' ∷ [])) t)
          (ap (λ t. join t b':') (sym c.content_eq) ∙ join-split line b':')

  pub rebuild_line-Lacks : Lacks b'\n' line → Lacks b'\n' (rebuild_line k p)
  unfolding rebuild_line is_digit
  rebuild_line-Lacks h = join-Lacks b'\n' (rebuilt_content k p) b':' (omega arith) (
      rebuilt_content-Lacks c p b'\n' refl (omega arith) (omega arith)
        (rw (← c.content_eq) (split-Lacks b'\n' line b':' h)))

-- What a reader finds in the lines.
unfoldable pub read_lines : Bytes → List Bytes → Result PartContent
read_lines name lines = do (lines', p) ← handle_lines name false keep lines; ok p

-- What holds of the lines after a change at the partition `name` from `p` to `q`.
pub record Changed (name : Bytes) (p q : PartContent) (lines lines' : List Bytes) : Type 0 where
  pub not_nil : lines' ≢ []
  pub newlines : All (Lacks b'\n') lines'
  pub was : read_lines name lines ≡ ok p
  pub changed : read_lines name lines' ≡ ok q
  pub others :
      (other : Bytes)
      → IsName other
      → other ≢ name
      → read_lines other lines' ≡ read_lines other lines

pub read_lines_miss :
    (name line : Bytes) (lines : List Bytes)
    → is_line_of name line ≡ false
    → read_lines name (line ∷ lines) ≡ read_lines name lines
unfolding read_lines handle_lines
read_lines_miss name line lines h = ground arith

pub read_lines_hit :
    (name line : Bytes) (lines : List Bytes) (k : LineParts)
    → is_line_of name line ≡ true
    → cut_line line ≡ ok k
    → read_lines name (line ∷ lines) ≡ ok k.part
unfolding read_lines handle_lines handle_line
read_lines_hit name line lines k h e = rw (h, e)

pub read_lines_cons :
    (other line : Bytes) (lines lines' : List Bytes)
    → read_lines other lines' ≡ read_lines other lines
    → read_lines other (line ∷ lines') ≡ read_lines other (line ∷ lines)
read_lines_cons other line lines lines' e = elim (Bool-cases (is_line_of other line)) [
  | inl h ↦ unfold read_lines handle_lines in rw h (ground arith)
  | inr h ↦ read_lines_miss other line lines' h ∙ e ∙ sym (read_lines_miss other line lines h)
]

pub before-eq-ok :
    (lines lines' : List Bytes) (p : PartContent) (r : Result (Bytes × PartContent))
    → before lines r ≡ ok (lines', p)
    → (line : Bytes) × (r ≡ ok (line, p)) × (lines' ≡ line ∷ lines)
before-eq-ok lines lines' p (ok (line, p')) h = (line, ground arith, ground arith)
before-eq-ok lines lines' p (err e) h = cc
before-eq-ok lines lines' p panic h = cc

pub behind-eq-ok :
    (line : Bytes) (lines' : List Bytes) (p : PartContent) (r : Result (List Bytes × PartContent))
    → behind line r ≡ ok (lines', p)
    → (lines : List Bytes) × (r ≡ ok (lines, p)) × (lines' ≡ line ∷ lines)
behind-eq-ok line lines' p (ok (lines, p')) h = (lines, ground arith, ground arith)
behind-eq-ok line lines' p (err e) h = cc
behind-eq-ok line lines' p panic h = cc

pub handle_lines_here :
    (name : Bytes) (f : PartContent → PartContent) (line : Bytes) (lines : List Bytes)
    → is_line_of name line ≡ true
    → handle_lines name true f (line ∷ lines) ≡ before lines (handle_line true f line)
unfolding handle_lines
handle_lines_here name f line lines h = rw h

pub handle_lines_miss :
    (name : Bytes) (f : PartContent → PartContent) (line : Bytes) (lines : List Bytes)
    → is_line_of name line ≡ false
    → handle_lines name true f (line ∷ lines) ≡ behind line (handle_lines name true f lines)
unfolding handle_lines
handle_lines_miss name f line lines h = rw h

pub read_part-lines :
    (table name : Bytes) → read_part table name ≡ read_lines name (split table b'\n')
unfolding read_part handle_partition_table read_lines
read_part-lines table name = ground arith

joined-eq-ok :
    (table' : Bytes) (p : PartContent) (r : Result (List Bytes × PartContent))
    → (◌>>=◌ {B = Bytes × PartContent} r (λ x. ok (join x.0 b'\n', x.1))) ≡ ok (table', p)
    → (lines' : List Bytes) × (r ≡ ok (lines', p)) × (table' ≡ join lines' b'\n')
joined-eq-ok table' p (ok (lines', p')) e = (lines', ground arith, ground arith)
joined-eq-ok table' p (err _) e = cc
joined-eq-ok table' p panic e = cc

pub handle_partition_table-eq-ok :
    (name : Bytes) (f : PartContent → PartContent) (table table' : Bytes) (p : PartContent)
    → handle_partition_table table name true f ≡ ok (table', p)
    → (lines' : List Bytes) × (handle_lines name true f (split table b'\n') ≡ ok (lines', p))
      × (table' ≡ join lines' b'\n')
unfolding handle_partition_table
handle_partition_table-eq-ok name f table table' p h =
    joined-eq-ok table' p (handle_lines name true f (split table b'\n')) h
