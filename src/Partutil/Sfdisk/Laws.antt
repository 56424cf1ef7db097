-- ===== src/Partutil/Sfdisk/Laws.antt =====
-- Each disk function as one equation, where the commands do what they document.
use cos_tools.Base.{
  ℕ, ◌+◌, ◌-◌, ◌%◌, ◌<◌, ◌≤◌, ◌≡◌, refl, ◌∙◌, ap, ◌≢◌, Bool, true, false, not, ◌||◌, [], ◌∷◌, arith,
  ltb, leb, ◌==◌,
}
use cos_tools.Base.Errors.{ok, err, message, refuse_if}
use cos_tools.Text.{Bytes, u64_mod, format_uint}
use cos_tools.Text.Decimal.{format_uint-ne-nil}
use cos_tools.Os.{Os}
use cos_tools.Partutil.Table.{PartContent, handle_partition_table, read_part}
use cos_tools.Partutil.Table.Lines.{IsName, Fits}
use cos_tools.Partutil.Table.ReadBack.{handle_partition_table_changes}
use cos_tools.Partutil.Table.Total.{handle_partition_table_reads, handle_partition_table_total}
use cos_tools.Partutil.Commands.{
  min_partition_size_sectors, is_empty, part_name_of, read_partition_table, read_partition,
  read_partition_size, read_partition_start, is_partition_minimal, minimize_partition, size_up_to,
  extend_partition, move_partition,
}
use cos_tools.Partutil.Sfdisk.{IsPart, Sfdisk}

is_empty-disk :
    (disk : Bytes) (n : ℕ) (part_name : Bytes)
    → part_name_of disk n ≡ ok part_name
    → is_empty disk ≡ false
unfolding part_name_of
is_empty-disk [] n part_name h = cc
is_empty-disk (c ∷ disk) n part_name h = refl

pub accepted :
    {disk : Bytes} {n : ℕ} {part_name : Bytes}
    → IsPart disk n part_name
    → refuse_if (is_empty disk || n == 0) ≡ ok tt
accepted {disk} {n} {part_name} v =
    rw (is_empty-disk disk n part_name v.named) (let h = v.positive in ground arith)

pub accepted_with :
    {disk : Bytes} {n : ℕ} {part_name : Bytes} (bad : Bool)
    → IsPart disk n part_name
    → bad ≡ false
    → refuse_if (is_empty disk || n == 0 || bad) ≡ ok tt
accepted_with {disk} {n} {part_name} bad v good =
    rw (is_empty-disk disk n part_name v.named, good) (let h = v.positive in ground arith)

is_empty-format_uint : (d : ℕ) → is_empty (format_uint d) ≡ false
is_empty-format_uint d = of_ne (format_uint d) (format_uint-ne-nil d)
  where
    of_ne : (t : Bytes) → t ≢ [] → is_empty t ≡ false
    of_ne [] h = absurd (h refl)
    of_ne (c ∷ t) h = refl

module _ {W : Type 0} {os : Os W} {disk : Bytes} (s : Sfdisk os disk) where
  pub read_partition_table_lem : (w : W) → read_partition_table os disk w ≡ (ok (s.table w), w)
  unfolding read_partition_table
  read_partition_table_lem w = rw s.dump_lem

  module _ {n : ℕ} {part_name : Bytes} (v : IsPart disk n part_name) where
    pub read_partition_lem :
        (w : W) (p : PartContent)
        → read_part (s.table w) part_name ≡ ok p
        → read_partition os disk n w ≡ (ok p, w)
    unfolding read_partition
    read_partition_lem w p h = rw (
      accepted v,
      v.named,
      read_partition_table_lem w,
      handle_partition_table_reads (s.table w) part_name p h,
    )

    pub read_partition_size_lem :
        (w : W) (p : PartContent)
        → read_part (s.table w) part_name ≡ ok p
        → read_partition_size os disk n w ≡ (ok p.size, w)
    unfolding read_partition_size
    read_partition_size_lem w p h = rw (read_partition_lem w p h)

    pub read_partition_start_lem :
        (w : W) (p : PartContent)
        → read_part (s.table w) part_name ≡ ok p
        → read_partition_start os disk n w ≡ (ok p.start, w)
    unfolding read_partition_start
    read_partition_start_lem w p h = rw (read_partition_lem w p h)

    pub is_partition_minimal_lem :
        (w : W) (p : PartContent)
        → read_part (s.table w) part_name ≡ ok p
        → is_partition_minimal os disk n w ≡ (ok (not (ltb min_partition_size_sectors p.size)), w)
    unfolding is_partition_minimal
    is_partition_minimal_lem w p h = rw (read_partition_size_lem w p h)

    -- What holds of the tables before and after an edit of this partition.
    pub record Edited (w w' : W) (q : PartContent) : Type 0 where
      pub edited : read_part (s.table w') part_name ≡ ok q
      pub others :
          (other : Bytes)
          → IsName other
          → other ≢ part_name
          → read_part (s.table w') other ≡ read_part (s.table w) other

    Edited-table :
        (w w' w'' : W) (q : PartContent) → Edited w w' q → s.table w'' ≡ s.table w' → Edited w w'' q
    Edited-table w w' w'' q ed e = record {
      edited = ap (λ t. read_part t part_name) e ∙ ed.edited;
      others = λ other o ne. ap (λ t. read_part t other) e ∙ ed.others other o ne;
    }

    Edited-eq : (w w' : W) {q q' : PartContent} → q ≡ q' → Edited w w' q → Edited w w' q'
    Edited-eq w w' e ed = record { edited = ed.edited ∙ ap ok e; others = ed.others }

    -- A table changed by `HandlePartitionTable` and written back.
    pub write_back :
        (f : PartContent → PartContent) (w : W) (p : PartContent)
        → read_part (s.table w) part_name ≡ ok p
        → Fits (f p)
        → (t : Bytes) × (handle_partition_table (s.table w) part_name true f ≡ ok (t, p))
          × Edited w (s.written t w) (f p)
    write_back f w p h fits =
        let (t, e) = handle_partition_table_total part_name f (s.table w) p h in
        let (_, now, same) = handle_partition_table_changes v.is_name f (s.table w) t p e fits in
        (
          t,
          e,
          record {
            edited = s.read_part-written t w part_name ∙ now;
            others = λ other o ne. s.read_part-written t w other ∙ same other o ne;
          },
        )

    pub minimize_partition_large :
        (w : W) (p : PartContent)
        → read_part (s.table w) part_name ≡ ok p
        → p.start < u64_mod
        → min_partition_size_sectors < p.size
        → (w' : W) × (minimize_partition os disk n w
            ≡ (ok ((p.start + min_partition_size_sectors) % u64_mod), w'))
          × Edited w w' (record p { size = min_partition_size_sectors })
    unfolding minimize_partition
    minimize_partition_large w p h fits large =
        let (t, e, ed) =
          write_back (λ p. record p { size = min_partition_size_sectors }) w p h
            (fits, omega arith) in
        let test : leb p.size min_partition_size_sectors ≡ false = ground arith in
        (
          s.written t w,
          rw (accepted v, v.named, read_partition_table_lem w, e, test, s.write_lem t w),
          ed,
        )

    pub minimize_partition_small :
        (w : W) (p : PartContent)
        → read_part (s.table w) part_name ≡ ok p
        → p.size ≤ min_partition_size_sectors
        → minimize_partition os disk n w
          ≡ (ok ((p.start + min_partition_size_sectors) % u64_mod), w)
    unfolding minimize_partition
    minimize_partition_small w p h small =
        let (t, e) =
          handle_partition_table_total part_name
            (λ p. record p { size = min_partition_size_sectors }) (s.table w) p h in
        let test : leb p.size min_partition_size_sectors ≡ true = ground arith in
        rw (accepted v, v.named, read_partition_table_lem w, e, test)

    pub move_partition_lem :
        (d : ℕ) (w : W)
        → d < u64_mod
        → move_partition os disk n (format_uint d) w ≡ (ok tt, s.moved n d w)
    unfolding move_partition
    move_partition_lem d w fits = rw (
      accepted_with (is_empty (format_uint d)) v (is_empty-format_uint d),
      s.move_lem n d w v.bounded fits,
    )

    -- A partition is extended if it grows, and else only read.
    pub extend_partition_grows :
        (end : ℕ) (w : W) (p : PartContent)
        → read_part (s.table w) part_name ≡ ok p
        → 0 < p.start
        → p.start ≤ end
        → end < u64_mod
        → p.start + p.size ≤ end
        → (w' : W) × (extend_partition os disk n end w ≡ (ok tt, w'))
          × Edited w w' (record p { size = end - p.start + 1 })
    unfolding extend_partition
    extend_partition_grows end w p h first low high grows =
        let size_eq : size_up_to end p ≡ end - p.start + 1 = omega arith in
        let (t, e, ed) =
          write_back (λ p. record p { size = size_up_to end p }) w p h (omega arith, omega arith) in
        let test : leb (size_up_to end p) p.size ≡ false = rw size_eq (ground arith) in
        let nonzero : (end == 0) ≡ false = ground arith in
        let w' = s.resized part_name (s.checked part_name (s.written t w)) in
        (
          w',
          rw (
            accepted_with (end == 0) v nonzero,
            v.named,
            read_partition_table_lem w,
            e,
            test,
            s.write_lem t w,
            s.check_lem part_name (s.written t w),
            s.resize_lem part_name (s.checked part_name (s.written t w)),
          ),
          Edited-table w (s.written t w) w' _
              (Edited-eq w (s.written t w) (λ i. record p { size = size_eq i }) ed)
              (s.table-resized part_name _ ∙ s.table-checked part_name _),
        )

    pub extend_partition_refuses :
        (end : ℕ) (w : W) (p : PartContent)
        → read_part (s.table w) part_name ≡ ok p
        → 0 < p.start
        → p.start ≤ end
        → end < u64_mod
        → end < p.start + p.size
        → extend_partition os disk n end w ≡ (err message, w)
    unfolding extend_partition
    extend_partition_refuses end w p h first low high short =
        let size_eq : size_up_to end p ≡ end - p.start + 1 = omega arith in
        let (t, e) =
          handle_partition_table_total part_name (λ p. record p { size = size_up_to end p })
            (s.table w) p h in
        let test : leb (size_up_to end p) p.size ≡ true = rw size_eq (ground arith) in
        let nonzero : (end == 0) ≡ false = ground arith in
        rw (accepted_with (end == 0) v nonzero, v.named, read_partition_table_lem w, e, test)
