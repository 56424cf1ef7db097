-- ===== src/Layout/Whole.antt =====
-- `HandleDiskLayout` on each of its ways through.
use cos_tools.Base.{
  [], ◌∷◌, ℕ, ◌+◌, ◌-◌, ◌*◌, ◌/◌, ◌%◌, ◌<◌, ◌≤◌, ◌≡◌, refl, subst, ◌∙◌, Bool, true, false, ◌||◌,
  leb, ◌==◌, if◌then◌else◌, arith,
}
use cos_tools.Base.Errors.{ok, err, message, wrapped, refuse_if}
use cos_tools.Text.{Bytes, u64_mod}
use cos_tools.Os.{Os}
use cos_tools.Partutil.Table.{PartContent}
use cos_tools.Partutil.Size.{convert_size_to_bytes, find_last_4k_sector}
use cos_tools.Partutil.Commands.{is_empty}
use cos_tools.Partutil.Sfdisk.{Sfdisk}
use cos_tools.Partutil.Sfdisk.Laws.{
  accepted_with, read_partition_table_lem, read_partition_size_lem, read_partition_start_lem,
  move_partition_lem,
}
use cos_tools.Layout.{
  relocate, check_and_reclaim_sda3, check_new_oem_size_smaller, handle_disk_layout,
}
use cos_tools.Layout.Moves.{IsDisk, Layout, new_state_start, relocate_grows, relocate_refuses}

pub is_empty_size : (t : Bytes) {n : ℕ} → convert_size_to_bytes t ≡ ok n → is_empty t ≡ false
unfolding convert_size_to_bytes
is_empty_size [] h = cc
is_empty_size (c ∷ t) h = refl

pub new_start_aligned :
    (start size new_bytes : ℕ)
    → size * 512 < new_bytes
    → new_bytes / 512 < size + 8
    → (start + size) % 8 ≡ 0
    → new_state_start start new_bytes ≡ start + size
unfolding find_last_4k_sector
new_start_aligned start size new_bytes more little aligned = omega arith

module _ {W : Type 0} {os : Os W} {disk : Bytes} (s : Sfdisk os disk) {w : W}
    {state oem : PartContent} {state_num oem_num : ℕ} {state_name oem_name : Bytes}
    (d : IsDisk s w state oem state_num oem_num state_name oem_name) (oem_size : Bytes)
    {new_bytes : ℕ} (asked : convert_size_to_bytes oem_size ≡ ok new_bytes)
    (old_fits : oem.size * 512 < u64_mod) where
  old_bytes : oem.size * 512 % u64_mod ≡ oem.size * 512
  old_bytes = omega arith

  accepted_both : refuse_if (is_empty disk || state_num == 0 || oem_num == 0) ≡ ok tt
  accepted_both =
      accepted_with (oem_num == 0) d.state_part (let h = d.oem_part.positive in ground arith)

  -- From the start point on, where the OEM partition is to grow.
  pub handle_grows :
      (reclaim : Bool) (start : ℕ)
      → check_and_reclaim_sda3 os disk state_num reclaim w ≡ (ok (start, false), w)
      → oem.size * 512 < new_bytes
      → handle_disk_layout os disk state_num oem_num oem_size reclaim w
        ≡ relocate os disk state_num oem_num new_bytes start w
  unfolding handle_disk_layout check_new_oem_size_smaller
  handle_grows reclaim start e more =
      let test : leb new_bytes (oem.size * 512) ≡ false = ground arith in
      rw (
        accepted_both,
        read_partition_table_lem s w,
        is_empty_size oem_size asked,
        asked,
        read_partition_size_lem s d.oem_part w oem d.oem_at,
        old_bytes,
        e,
        test,
      )

  -- Where it is not to grow: nothing is done, or the stateful partition is moved.
  pub handle_keeps :
      (reclaim : Bool) (start : ℕ)
      → check_and_reclaim_sda3 os disk state_num reclaim w ≡ (ok (start, false), w)
      → start < u64_mod
      → new_bytes ≤ oem.size * 512
      → handle_disk_layout os disk state_num oem_num oem_size reclaim w
        ≡ (ok tt, if reclaim then s.moved state_num start w else w)
  unfolding handle_disk_layout check_new_oem_size_smaller
  handle_keeps true start e fits less =
      let test : leb new_bytes (oem.size * 512) ≡ true = ground arith in
      rw (
        accepted_both,
        read_partition_table_lem s w,
        is_empty_size oem_size asked,
        asked,
        read_partition_size_lem s d.oem_part w oem d.oem_at,
        old_bytes,
        e,
        test,
        move_partition_lem s d.state_part start w fits,
        read_partition_table_lem s (s.moved state_num start w),
      )
  handle_keeps false start e fits less =
      let test : leb new_bytes (oem.size * 512) ≡ true = ground arith in
      rw (
        accepted_both,
        read_partition_table_lem s w,
        is_empty_size oem_size asked,
        asked,
        read_partition_size_lem s d.oem_part w oem d.oem_at,
        old_bytes,
        e,
        test,
      )

  start_of_state : check_and_reclaim_sda3 os disk state_num false w ≡ (ok (state.start, false), w)
  unfolding check_and_reclaim_sda3
  start_of_state = rw (read_partition_start_lem s d.state_part w state d.state_at)

  -- Without reclaiming sda3, a size that is not larger changes nothing.
  pub handle_disk_layout_keeps :
      state.start < u64_mod
      → new_bytes ≤ oem.size * 512
      → handle_disk_layout os disk state_num oem_num oem_size false w ≡ (ok tt, w)
  handle_disk_layout_keeps fits less = handle_keeps false state.start start_of_state fits less

  module _ (fits : state.start + new_bytes / 512 < u64_mod) (positive : 0 < state.start) where
    -- On a disk where the commands succeed, without reclaiming, with a stateful partition that
    -- does not start at sector 0 and with sectors and sizes within a uint64: if the OEM size
    -- asked for is larger, and the start of the stateful partition with that size added, rounded
    -- down to 4K, lies behind the start of the stateful partition with the old OEM size added,
    -- then HandleDiskLayout succeeds, puts the OEM partition at the old start of the stateful
    -- partition, up to that rounded sector, and the stateful partition there; other partitions
    -- are kept.
    pub handle_disk_layout_grows :
        oem.size * 512 < new_bytes
        → state.start + oem.size < new_state_start state.start new_bytes
        → (w' : W) × (handle_disk_layout os disk state_num oem_num oem_size false w ≡ (ok tt, w'))
          × Layout s d w'
              (record state { start = new_state_start state.start new_bytes })
              (record {
                start = state.start;
                size = new_state_start state.start new_bytes - state.start;
              })
    handle_disk_layout_grows more grows =
        let (w', e, l) = relocate_grows s d new_bytes state.start fits positive grows in
        (w', handle_grows false state.start start_of_state more ∙ e, l)

    -- On a disk where the commands succeed, without reclaiming, with a stateful partition that
    -- does not start at sector 0 and sectors and sizes within a uint64: an OEM size that is
    -- larger by less than 8 sectors, where the OEM partition has at least 8 sectors and the start
    -- of the stateful partition with the old OEM size added is aligned to 4K, moves both
    -- partitions and then returns an error.
    pub handle_disk_layout_refuses :
        oem.size * 512 < new_bytes
        → new_bytes / 512 < oem.size + 8
        → (state.start + oem.size) % 8 ≡ 0
        → 8 ≤ oem.size
        → (w' : W) × (handle_disk_layout os disk state_num oem_num oem_size false w
            ≡ (err (wrapped message), w'))
          × Layout s d w'
              (record state { start = state.start + oem.size })
              (record oem { start = state.start })
    handle_disk_layout_refuses more little aligned large =
        let t_eq = new_start_aligned state.start oem.size new_bytes more little aligned in
        let (w', e, l) =
          relocate_refuses s d new_bytes state.start fits positive (rw t_eq (omega arith))
            (rw t_eq (omega arith)) in
        (
          w',
          handle_grows false state.start start_of_state more ∙ e,
          subst
              (λ t. Layout s d w' (record state { start = t }) (record oem { start = state.start }))
              t_eq l,
        )
