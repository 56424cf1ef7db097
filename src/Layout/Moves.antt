-- ===== src/Layout/Moves.antt =====
-- What becomes of the stateful and the OEM partition.
use cos_tools.Base.{ℕ, ◌+◌, ◌-◌, ◌/◌, ◌%◌, ◌<◌, ◌≤◌, ◌≡◌, ◌≢◌, sym, ◌∙◌, ap, arith}
use cos_tools.Base.Errors.{Result, ok, err, message, wrapped}
use cos_tools.Text.{Bytes, u64_mod}
use cos_tools.Os.{Os}
use cos_tools.Os.Action.{◌>>=◌, and_then, wrap_first, wrap_action, pure}
use cos_tools.Partutil.Table.{PartContent, read_part}
use cos_tools.Partutil.Table.Lines.{IsName}
use cos_tools.Partutil.Size.{find_last_4k_sector}
use cos_tools.Partutil.Commands.{read_partition_table, extend_partition}
use cos_tools.Partutil.Sfdisk.{IsPart, Sfdisk}
use cos_tools.Partutil.Sfdisk.Laws.{
  read_partition_table_lem, move_partition_lem, extend_partition_grows, extend_partition_refuses,
}
use cos_tools.Layout.{relocate}

-- A disk with a stateful and an OEM partition, as a dump shows it.
pub record IsDisk {W : Type 0} {os : Os W} {disk : Bytes} (s : Sfdisk os disk) (w : W)
    (state oem : PartContent) (state_num oem_num : ℕ) (state_name oem_name : Bytes) : Type 0 where
  pub state_part : IsPart disk state_num state_name
  pub oem_part : IsPart disk oem_num oem_name
  pub different : state_name ≢ oem_name
  pub state_at : read_part (s.table w) state_name ≡ ok state
  pub oem_at : read_part (s.table w) oem_name ≡ ok oem

-- The aligned sector in front of which an OEM partition from `start` ends.
abbrev pub new_state_start : ℕ → ℕ → ℕ
new_state_start start new_bytes = find_last_4k_sector (start + new_bytes / 512)

module _ {W : Type 0} {os : Os W} {disk : Bytes} (s : Sfdisk os disk) {w : W}
    {state oem : PartContent} {state_num oem_num : ℕ} {state_name oem_name : Bytes}
    (d : IsDisk s w state oem state_num oem_num state_name oem_name) where
  -- The layout of the disk in `w'`; partitions other than the two are as they were.
  pub record Layout (w' : W) (state' oem' : PartContent) : Type 0 where
    pub state_now : read_part (s.table w') state_name ≡ ok state'
    pub oem_now : read_part (s.table w') oem_name ≡ ok oem'
    pub others_kept :
        (other : Bytes)
        → IsName other
        → other ≢ state_name
        → other ≢ oem_name
        → read_part (s.table w') other ≡ read_part (s.table w) other

  module _ (t start : ℕ) (t_fits : t < u64_mod) (start_fits : start < u64_mod) where
    state_moved : W
    state_moved = s.moved state_num t w

    both_moved : W
    unfolding state_moved
    both_moved = s.moved oem_num start state_moved

    oem_behind_state : read_part (s.table state_moved) oem_name ≡ ok oem
    unfolding state_moved
    oem_behind_state =
        s.read_part-moved_other state_num t w state_name state oem_name d.state_part t_fits
          d.state_at d.oem_part.is_name (λ e. d.different (sym e))
        ∙ d.oem_at

    -- After both moves.
    both_moved-Layout :
        Layout both_moved (record state { start = t }) (record oem { start = start })
    unfolding both_moved
    both_moved-Layout = record {
      state_now =
          s.read_part-moved_other oem_num start state_moved oem_name oem state_name d.oem_part
            start_fits oem_behind_state d.state_part.is_name d.different
          ∙ s.read_part-moved state_num t w state_name state d.state_part t_fits d.state_at;
      oem_now =
          s.read_part-moved oem_num start state_moved oem_name oem d.oem_part start_fits
            oem_behind_state;
      others_kept = λ other o ns no.
          s.read_part-moved_other oem_num start state_moved oem_name oem other d.oem_part start_fits
            oem_behind_state o no
          ∙ s.read_part-moved_other state_num t w state_name state other d.state_part t_fits
              d.state_at o ns;
    }

  new_state_start-le :
      (start new_bytes : ℕ) → new_state_start start new_bytes ≤ start + new_bytes / 512
  unfolding find_last_4k_sector
  new_state_start-le start new_bytes = omega arith

  module _ (new_bytes start : ℕ) (fits : start + new_bytes / 512 < u64_mod)
      (positive : 0 < start) where
    t_fits : new_state_start start new_bytes < u64_mod
    t_fits = let h = new_state_start-le start new_bytes in omega arith

    start_fits : start < u64_mod
    start_fits = omega arith

    no_wrap : (start + new_bytes / 512) % u64_mod ≡ start + new_bytes / 512
    no_wrap = omega arith

    end_eq :
        start < new_state_start start new_bytes
        → (new_state_start start new_bytes + u64_mod - 1) % u64_mod
          ≡ new_state_start start new_bytes - 1
    end_eq h = let h' = t_fits in omega arith

    -- `relocate` comes down to the extension of the moved OEM partition.
    relocate_runs :
        start < new_state_start start new_bytes
        → (r : Result (Unit {0}) × W)
        → extend_partition os disk oem_num
            (new_state_start start new_bytes - 1)
            (both_moved (new_state_start start new_bytes) start t_fits start_fits)
          ≡ r
        → relocate os disk state_num oem_num new_bytes start w
          ≡ and_then
              (wrap_first r)
              (λ _. wrap_action (read_partition_table os disk) >>= λ _. pure tt)
    unfolding relocate both_moved state_moved
    relocate_runs low r e = rw (
      no_wrap,
      move_partition_lem s d.state_part (new_state_start start new_bytes) w t_fits,
      move_partition_lem s d.oem_part start (s.moved state_num (new_state_start start new_bytes) w)
          start_fits,
      end_eq low,
      e,
    )

    -- The OEM partition grows to the sector in front of the moved stateful partition.
    pub relocate_grows :
        start + oem.size < new_state_start start new_bytes
        → (w' : W) × (relocate os disk state_num oem_num new_bytes start w ≡ (ok tt, w'))
          × Layout w'
              (record state { start = new_state_start start new_bytes })
              (record { start = start; size = new_state_start start new_bytes - start })
    relocate_grows grows =
        let t = new_state_start start new_bytes in
        let l = both_moved-Layout t start t_fits start_fits in
        let (w', e, ed) =
          extend_partition_grows s d.oem_part (t - 1) (both_moved t start t_fits start_fits)
            (record oem { start = start }) l.oem_now positive (omega arith)
            (let h = t_fits in omega arith) (omega arith) in
        let size_eq : t - 1 - start + 1 ≡ t - start = omega arith in
        (
          w',
          relocate_runs (omega arith) (ok tt, w') e ∙ rw (read_partition_table_lem s w'),
          record {
            state_now = ed.others state_name d.state_part.is_name d.different ∙ l.state_now;
            oem_now = ed.edited ∙ ap (λ z. ok (record { start = start; size = z })) size_eq;
            others_kept = λ other o ns no. ed.others other o no ∙ l.others_kept other o ns no;
          },
        )

    -- If the new end does not enlarge it, both partitions are moved before that is refused.
    pub relocate_refuses :
        start < new_state_start start new_bytes
        → new_state_start start new_bytes ≤ start + oem.size
        → (w' : W) × (relocate os disk state_num oem_num new_bytes start w
            ≡ (err (wrapped message), w'))
          × Layout w'
              (record state { start = new_state_start start new_bytes })
              (record oem { start = start })
    relocate_refuses low short =
        let t = new_state_start start new_bytes in
        let l = both_moved-Layout t start t_fits start_fits in
        let e =
          extend_partition_refuses s d.oem_part (t - 1) (both_moved t start t_fits start_fits)
            (record oem { start = start }) l.oem_now positive (omega arith)
            (let h = t_fits in omega arith) (omega arith) in
        (both_moved t start t_fits start_fits, relocate_runs low _ e, l)
