-- ===== src/Provisioner/Disk/Settle.antt =====
-- What relocatePartitions (pkg/provisioner/disk_layout.go) finds on the boot behind a run of
-- HandleDiskLayout (pkg/tools/handle_disk_layout.go).
use cos_tools.Base.{ℕ, ◌+◌, ◌-◌, ◌*◌, ◌/◌, ◌%◌, ◌<◌, ◌≤◌, ◌≡◌, ◌∙◌, true, false, ltb, arith}
use cos_tools.Base.Errors.{ok}
use cos_tools.Text.{codes, u64_mod}
use cos_tools.Os.{Os}
use cos_tools.Partutil.Table.{PartContent, read_part}
use cos_tools.Partutil.Size.{convert_size_to_bytes}
use cos_tools.Partutil.Commands.{is_empty}
use cos_tools.Partutil.Sfdisk.{Sfdisk}
use cos_tools.Partutil.Sfdisk.Laws.{read_partition_start_lem, read_partition_size_lem}
use cos_tools.Layout.{sda, sda3_margin, handle_disk_layout}
use cos_tools.Layout.Moves.{IsDisk, new_state_start}
use cos_tools.Layout.Reclaim.{
  sda3, sda3-IsPart, handle_disk_layout_reclaims, handle_disk_layout_reclaims_grows,
}
use cos_tools.Provisioner.Types.{Deps, StateData}
use cos_tools.Provisioner.Disk.{
  in_root, calc_sda3_end, relocated, nothing_to_relocate, relocate_partitions,
}

abbrev pub CosDisk :
    {W : Type 0} {os : Os W} → Sfdisk os sda → W → PartContent → PartContent → Type 0
CosDisk s w state oem = IsDisk s w state oem 1 8 (codes "/dev/sda1") (codes "/dev/sda8")

module _ {W : Type 0} {os : Os W} (s : Sfdisk os sda) where
  calc_sda3_end_lem :
      (w : W) (root : PartContent)
      → read_part (s.table w) sda3 ≡ ok root
      → 0 < root.start
      → root.start + root.size < u64_mod
      → calc_sda3_end os sda w ≡ (ok (root.start + root.size - 1), w)
  unfolding calc_sda3_end
  calc_sda3_end_lem w root at positive fits =
      let no_wrap : (root.start + root.size + u64_mod - 1) % u64_mod ≡ root.start + root.size - 1 =
        omega arith in
      rw (
        read_partition_start_lem s sda3-IsPart w root at,
        read_partition_size_lem s sda3-IsPart w root at,
        no_wrap,
      )

  module _ {Args : Type 0} (kept : StateData Args)
      (sized : is_empty kept.config.boot_disk.oem_size ≡ false) where
    relocated_lem :
        (deps : Deps) {w w' : W} {state oem : PartContent} (d : CosDisk s w state oem)
        (root oem' : PartContent)
        → read_part (s.table w') sda3 ≡ ok root
        → read_part (s.table w') (codes "/dev/sda8") ≡ ok oem'
        → 0 < root.start
        → root.start + root.size < u64_mod
        → relocated os deps kept sda w' ≡ (ok (ltb (root.start + root.size - 1) oem'.start), w')
    unfolding relocated
    relocated_lem deps {w} {w'} d root oem' root_at oem_at positive fits = rw (
      sized,
      read_partition_start_lem s d.oem_part w' oem' oem_at,
      calc_sda3_end_lem w' root root_at positive fits,
    )

    module _ (deps : Deps) {w : W} {root state oem : PartContent} (d : CosDisk s w state oem)
        (root_at : read_part (s.table w) sda3 ≡ ok root) (positive : 0 < root.start)
        (root_fits : root.start + sda3_margin < u64_mod) (small : root.size ≤ 8) {new_bytes : ℕ}
        (reclaims : kept.config.boot_disk.reclaim_sda3 ≡ true)
        (asked : convert_size_to_bytes kept.config.boot_disk.oem_size ≡ ok new_bytes)
        (old_fits : oem.size * 512 < u64_mod) where
      -- On a disk where the commands succeed and that is /dev/sda, with reclaiming, an sda3 of at
      -- most 8 sectors that does not start at sector 0, and sectors and sizes within a uint64: if
      -- the OEM size asked for is larger, and the sector behind the start of sda3 and its margin
      -- with that size added, rounded down to 4K, lies behind the same sector with the old OEM
      -- size added, then HandleDiskLayout succeeds, and on the disk that it leaves
      -- relocatePartitions returns without asking for a reboot.
      pub relocate_partitions_settles :
          in_root deps (codes "dev/sda") ≡ sda
          → root.start + sda3_margin + new_bytes / 512 < u64_mod
          → oem.size * 512 < new_bytes
          → root.start + sda3_margin + oem.size
            < new_state_start (root.start + sda3_margin) new_bytes
          → (w' : W) × (handle_disk_layout os sda 1 8 kept.config.boot_disk.oem_size
                kept.config.boot_disk.reclaim_sda3 w
              ≡ (ok tt, w'))
            × (relocate_partitions os deps kept w' ≡ (ok tt, w'))
      unfolding relocate_partitions
      relocate_partitions_settles at_root fits more grows =
          let (w', done, l) =
            handle_disk_layout_reclaims_grows s d root_at root_fits kept.config.boot_disk.oem_size
              asked old_fits fits small more grows in
          let root_kept =
            l.others_kept sda3 sda3-IsPart.is_name (λ e. ground arith) (λ e. ground arith)
            ∙ root_at in
          let behind : ltb (root.start + root.size - 1) (root.start + sda3_margin) ≡ true =
            ground arith in
          let needed : nothing_to_relocate os deps kept ≡ false = ground (arith, reclaims, sized) in
          (
            w',
            rw reclaims done,
            rw (
              needed,
              at_root,
              relocated_lem deps d root _ root_kept l.oem_now positive (omega arith),
              behind,
            ),
          )

      -- On such a disk, where the OEM partition is not to grow and lies in front of the end of sda3, a
      -- run reclaims sda3 and leaves the OEM partition there: the next boot finds the partitions not
      -- relocated.
      pub relocated_unsettled :
          new_bytes ≤ oem.size * 512
          → oem.start < root.start + root.size
          → (w' : W) × (handle_disk_layout os sda 1 8 kept.config.boot_disk.oem_size
                kept.config.boot_disk.reclaim_sda3 w
              ≡ (ok tt, w'))
            × (relocated os deps kept sda w' ≡ (ok false, w'))
      relocated_unsettled less front =
          let (w', done, l) =
            handle_disk_layout_reclaims s d root_at root_fits kept.config.boot_disk.oem_size asked
              old_fits small less in
          let root_kept =
            l.others_kept sda3 sda3-IsPart.is_name (λ e. ground arith) (λ e. ground arith)
            ∙ root_at in
          let before : ltb (root.start + root.size - 1) oem.start ≡ false = ground arith in
          (
            w',
            rw reclaims done,
            relocated_lem deps d root oem root_kept l.oem_now positive (omega arith) ∙ rw before,
          )
