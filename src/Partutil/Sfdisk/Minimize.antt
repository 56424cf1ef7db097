-- ===== src/Partutil/Sfdisk/Minimize.antt =====
-- `MinimizePartition` and `IsPartitionMinimal` together.
use Prim.Native.Nat.{min}
use cos_tools.Base.{ℕ, ◌+◌, ◌%◌, ◌≡◌, ◌≢◌, refl, ◌∙◌, ap, true, inl, inr, Bool-cases, ltb, arith}
use cos_tools.Base.Errors.{ok}
use cos_tools.Text.{Bytes, u64_mod}
use cos_tools.Os.{Os}
use cos_tools.Partutil.Table.{PartContent, read_part}
use cos_tools.Partutil.Table.Lines.{IsName}
use cos_tools.Partutil.Table.Total.{read_part-Fits}
use cos_tools.Partutil.Commands.{is_partition_minimal, minimize_partition}
use cos_tools.Partutil.Sfdisk.{IsPart, Sfdisk}
use cos_tools.Partutil.Sfdisk.Laws.{
  is_partition_minimal_lem, minimize_partition_large, minimize_partition_small,
}

module _ {W : Type 0} {os : Os W} {disk : Bytes} (s : Sfdisk os disk) {n : ℕ} {part_name : Bytes}
    (v : IsPart disk n part_name) where
  -- After minimizing a partition that the table has, it is minimal: it starts where it started, has
  -- at most 8 sectors, and the sector behind 8 sectors is returned. Other partitions are as they were.
  pub minimize_partition_minimizes :
      (w : W) (p : PartContent)
      → read_part (s.table w) part_name ≡ ok p
      → (w' : W) × (minimize_partition os disk n w ≡ (ok ((p.start + 8) % u64_mod), w'))
        × (is_partition_minimal os disk n w' ≡ (ok true, w'))
        × (read_part (s.table w') part_name ≡ ok (record p { size = min p.size 8 }))
        × ((other : Bytes)
            → IsName other
            → other ≢ part_name
            → read_part (s.table w') other ≡ read_part (s.table w) other)
  minimize_partition_minimizes w p h = elim (Bool-cases (ltb 8 p.size)) [
    | inl large ↦
        let (w', e, ed) =
          minimize_partition_large s v w p h (read_part-Fits (s.table w) part_name p h).0
            (ground arith) in
        let size_eq : 8 ≡ min p.size 8 = ground arith in
        (
          w',
          e,
          is_partition_minimal_lem s v w' _ ed.edited,
          ed.edited ∙ ap (λ z. ok (record p { size = z })) size_eq,
          ed.others,
        )
    | inr small ↦
        let size_eq : p.size ≡ min p.size 8 = ground arith in
        (
          w,
          minimize_partition_small s v w p h (ground arith),
          is_partition_minimal_lem s v w p h ∙ rw small,
          h ∙ ap (λ z. ok (record p { size = z })) size_eq,
          λ other o ne. refl,
        )
  ]
