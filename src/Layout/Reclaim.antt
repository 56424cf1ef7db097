-- ===== src/Layout/Reclaim.antt =====
-- `HandleDiskLayout` where sda3 is reclaimed: a first run shrinks sda3, a second one, after the
-- reboot, moves the partitions to the room behind it.
use cos_tools.Base.{
  ℕ, ◌+◌, ◌-◌, ◌*◌, ◌/◌, ◌%◌, ◌<◌, ◌≤◌, ◌≡◌, refl, sym, ◌∙◌, true, false, ltb, arith,
}
use cos_tools.Base.Errors.{ok}
use cos_tools.Text.{Bytes, codes, u64_mod, format_uint}
use cos_tools.Os.{Os}
use cos_tools.Partutil.Table.{PartContent, read_part}
use cos_tools.Partutil.Size.{convert_size_to_bytes}
use cos_tools.Partutil.Commands.{part_name_of}
use cos_tools.Partutil.Sfdisk.{IsPart, Sfdisk}
use cos_tools.Partutil.Sfdisk.Laws.{read_partition_start_lem, is_partition_minimal_lem}
use cos_tools.Layout.{sda, sda3_margin, check_and_reclaim_sda3, handle_disk_layout}
use cos_tools.Layout.Moves.{IsDisk, Layout, new_state_start, relocate_grows}
use cos_tools.Layout.Whole.{handle_grows, handle_keeps}

abbrev pub sda3 : Bytes
sda3 = codes "/dev/sda3"

pub sda3-IsPart : IsPart sda 3 sda3
unfolding part_name_of format_uint
sda3-IsPart = record {
  positive = omega arith;
  bounded = omega arith;
  named = refl;
  is_name = omega arith;
}

module _ {W : Type 0} {os : Os W} (s : Sfdisk os sda) {w : W} {root state oem : PartContent}
    {state_num oem_num : ℕ} {state_name oem_name : Bytes}
    (d : IsDisk s w state oem state_num oem_num state_name oem_name)
    (root_at : read_part (s.table w) sda3 ≡ ok root)
    (root_fits : root.start + sda3_margin < u64_mod) where
  start_behind_sda3 :
      root.size ≤ 8
      → check_and_reclaim_sda3 os sda state_num true w ≡ (ok (root.start + sda3_margin, false), w)
  unfolding check_and_reclaim_sda3
  start_behind_sda3 small =
      let test : ltb 8 root.size ≡ false = ground arith in
      let no_wrap : (root.start + 4096) % u64_mod ≡ root.start + 4096 = omega arith in
      rw (
        is_partition_minimal_lem s sda3-IsPart w root root_at,
        test,
        read_partition_start_lem s sda3-IsPart w root root_at,
        no_wrap,
      )

  module _ (oem_size : Bytes) {new_bytes : ℕ}
      (asked : convert_size_to_bytes oem_size ≡ ok new_bytes)
      (old_fits : oem.size * 512 < u64_mod) where
    -- A later run moves the stateful partition behind sda3 and its margin, where the OEM partition is not to grow.
    pub handle_disk_layout_reclaims :
        root.size ≤ 8
        → new_bytes ≤ oem.size * 512
        → (w' : W) × (handle_disk_layout os sda state_num oem_num oem_size true w ≡ (ok tt, w'))
          × Layout s d w' (record state { start = root.start + sda3_margin }) oem
    handle_disk_layout_reclaims small less =
        let start = root.start + sda3_margin in
        (
          s.moved state_num start w,
          handle_keeps s d oem_size asked old_fits true start (start_behind_sda3 small) root_fits
              less,
          record {
            state_now =
                s.read_part-moved state_num start w state_name state d.state_part root_fits
                  d.state_at;
            oem_now =
                s.read_part-moved_other state_num start w state_name state oem_name d.state_part
                  root_fits d.state_at d.oem_part.is_name (λ e. d.different (sym e))
                ∙ d.oem_at;
            others_kept = λ other o ns no.
                s.read_part-moved_other state_num start w state_name state other d.state_part
                  root_fits d.state_at o ns;
          },
        )

    -- On a disk where the commands succeed, with reclaiming, an sda3 of at most 8 sectors and
    -- sectors and sizes within a uint64: if the OEM size asked for is larger, and the sector
    -- behind the start of sda3 and its margin with that size added, rounded down to 4K, lies
    -- behind the same sector with the old OEM size added, then HandleDiskLayout succeeds, puts
    -- the OEM partition behind the start of sda3 and its margin, up to that rounded sector, and
    -- the stateful partition there; other partitions are kept.
    pub handle_disk_layout_reclaims_grows :
        root.start + sda3_margin + new_bytes / 512 < u64_mod
        → root.size ≤ 8
        → oem.size * 512 < new_bytes
        → root.start + sda3_margin + oem.size < new_state_start (root.start + sda3_margin) new_bytes
        → (w' : W) × (handle_disk_layout os sda state_num oem_num oem_size true w ≡ (ok tt, w'))
          × Layout s d w'
              (record state { start = new_state_start (root.start + sda3_margin) new_bytes })
              (record {
                start = root.start + sda3_margin;
                size =
                    new_state_start (root.start + sda3_margin) new_bytes
                    - (root.start + sda3_margin);
              })
    handle_disk_layout_reclaims_grows fits small more grows =
        let start = root.start + sda3_margin in
        let (w', e, l) = relocate_grows s d new_bytes start fits (omega arith) grows in
        (
          w',
          handle_grows s d oem_size asked old_fits true start (start_behind_sda3 small) more ∙ e,
          l,
        )
