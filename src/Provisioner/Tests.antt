-- ===== src/Provisioner/Tests.antt =====
-- The provisioner on a small machine: one file, a clock, and commands that succeed.
use cos_tools.Base.{
  Bool, ℕ, ◌+◌, ◌<◌, ◌↔◌, ◌≢◌, true, false, Option, some, none, [], ◌∷◌, ◌++◌, length, drop, ◌≡◌,
  refl, arith,
}
use cos_tools.Base.Errors.{Result, ok, err, panic, reboot_required}
use cos_tools.Text.{Bytes, codes, Lacks, eqb, trim_left, trim_right, trim_space}
use cos_tools.Os.{Os, read_file, write_file, sleep}
use cos_tools.Os.Action.{Action, for_each}
use cos_tools.Os.Files.{Files}
use cos_tools.Provisioner.Types.{join_path, StepConfig, Config, StateData, Deps}
use cos_tools.Provisioner.Systemd.{run_command}
use cos_tools.Provisioner.State.{StateJson, data_path, load_state}
use cos_tools.Provisioner.Address.{parse_address}
use cos_tools.Provisioner.Address.Laws.{parse_address-eq-ok, parse_address-eq-panic}
use cos_tools.Provisioner.Disk.{switch_root, repartition_boot_disk, wait_for_disk_resize}
use cos_tools.Provisioner.Disk.Wait.{Clock, wait_for_disk_resize_ends}
use cos_tools.Provisioner.Steps.{execute_step, execute_steps}
use cos_tools.Provisioner.Steps.Skip.{Counted, execute_steps_skips, execute_steps_counts}
use cos_tools.Provisioner.Steps.Resume.{at_step, execute_steps_resumes}
use cos_tools.Provisioner.Run.{run_state, resume_command_exit}
use cos_tools.Provisioner.Run.Reboot.{run_state_reboots, resume_command_exit_reboots}

abbrev Machine : Type 0
Machine = Option Bytes × ℕ

abbrev machine_os : Os Machine
machine_os (read_file path) (content, clock) = (content, (content, clock))
machine_os (write_file path text) (content, clock) = (some [], (some text, clock))
machine_os sleep (content, clock) = (some [], (content, clock + 1000000000))
machine_os c w = (some [], w)

abbrev clock_of : Machine → ℕ
clock_of (content, clock) = clock

machine_os-Clock : Clock machine_os clock_of
machine_os-Clock = record {
  sleeps = λ (content, clock). omega arith;
  reads = λ path (content, clock). omega arith;
}

abbrev two_steps : Config (Unit {0})
two_steps = record {
  build_contexts = [];
  boot_disk = record {
    oem_size = [];
    oem_fs_size_4k = 0;
    reclaim_sda3 = true;
    wait_for_disk_resize = true;
  };
  steps =
      record { step_type = codes "RunScript"; args = tt }
      ∷ record { step_type = codes "SealOEM"; args = tt }
      ∷ [];
}

abbrev fresh_state : StateData (Unit {0})
fresh_state = record { config = two_steps; current_step = 0; disk_resize_complete = false }

-- Only the count of the steps is written.
abbrev count_json : StateJson (Unit {0})
count_json = record {
  marshal = λ d. some (d.current_step ∷ []);
  unmarshal = λ t. elim t [ [] ↦ none | n ∷ ns ↦ some (at_step fresh_state n) ];
}

abbrev sample_deps : Deps
sample_deps = record {
  tar_cmd = codes "tar";
  systemctl_cmd = codes "systemctl";
  rootdev_cmd = codes "rootdev";
  cgpt_cmd = codes "cgpt";
  resize2fs_cmd = codes "resize2fs";
  e2fsck_cmd = codes "e2fsck";
  root_dir = codes "/";
  docker_credential_gcr = codes "/gcr";
  verity_setup_image = codes "/verity";
  handle_disk_layout_bin = codes "/layout";
}

abbrev state_dir : Bytes
state_dir = codes "/var/lib/.cos-customizer"

-- Every step parses to its type, and the second one fails.
abbrev parse_type : StepConfig (Unit {0}) → Result Bytes
parse_type c = ok c.step_type

abbrev fails_if : Bool → Action Machine (Unit {0})
fails_if true w = (panic, w)
fails_if false w = (ok tt, w)

abbrev run_type : Bytes → StateData (Unit {0}) → Action Machine (Unit {0})
run_type t d w = fails_if (eqb t (codes "SealOEM")) w

parse_address-eq-ok_example : (parse_address (codes "gs://b/o/p") ≡ ok (codes "b", codes "o/p")) ↔ (
    (codes "gs://b/o/p" ≡ codes "gs://" ++ (codes "b" ++ (b'/' ∷ codes "o/p")))
    × Lacks b'/' (codes "b")
    × (codes "b" ≢ [])
    × (codes "o/p" ≢ []))
parse_address-eq-ok_example = parse_address-eq-ok (codes "gs://b/o/p") (codes "b") (codes "o/p")

parse_address-eq-panic_example :
    (parse_address (codes "gs:/") ≡ panic) ↔ (length (codes "gs:/") < 5)
parse_address-eq-panic_example = parse_address-eq-panic (codes "gs:/")

execute_steps_skips_example :
    execute_steps count_json machine_os state_dir parse_type run_type
      (at_step fresh_state 1, (none, 0))
    ≡ for_each
        (execute_step count_json machine_os state_dir parse_type run_type)
        (drop 1 two_steps.steps)
        (at_step fresh_state 1, (none, 0))
execute_steps_skips_example =
    execute_steps_skips count_json machine_os state_dir parse_type run_type (at_step fresh_state 1)
      (none, 0)

execute_steps_counts_example :
    (n : ℕ) × Counted fresh_state
      (execute_steps count_json machine_os state_dir parse_type run_type (fresh_state, (none, 0)))
      (drop 0 two_steps.steps)
      n
execute_steps_counts_example =
    execute_steps_counts count_json machine_os state_dir parse_type run_type fresh_state (none, 0)

abbrev machine_files : Files machine_os (data_path state_dir)
machine_files = record {
  content = λ (content, clock). content;
  reads = λ (content, clock). refl;
  writes = λ text (content, clock). ((some text, clock), [], refl, refl);
}

wait_for_disk_resize_ends_example :
    (wait_for_disk_resize machine_os sample_deps count_json state_dir clock_of
      (fresh_state, (some (codes "20480"), 7))).0
    ≢ panic
wait_for_disk_resize_ends_example =
    wait_for_disk_resize_ends machine_os-Clock sample_deps count_json state_dir fresh_state
      (some (codes "20480"), 7)

run_state_reboots_example :
    run_state count_json machine_os sample_deps clock_of parse_type run_type state_dir
      (fresh_state, (some (0 ∷ []), 7))
    ≡ repartition_boot_disk machine_os sample_deps count_json state_dir clock_of
        (fresh_state, (some (0 ∷ []), 7))
unfolding run_state repartition_boot_disk switch_root trim_space trim_left trim_right eqb join_path
    run_command
run_state_reboots_example =
    run_state_reboots count_json machine_os sample_deps clock_of parse_type run_type state_dir
      fresh_state (some (0 ∷ []), 7) refl

resume_command_exit_reboots_example :
    (resume_command_exit count_json machine_os sample_deps clock_of parse_type run_type state_dir
        (some (0 ∷ []), 7)
      ≡ (3, (some (0 ∷ []), 7)))
    ↔ ((d d' : StateData (Unit {0})) × (v : Machine) × (load_state count_json machine_os state_dir
            (some (0 ∷ []), 7)
          ≡ (ok d, v))
        × (repartition_boot_disk machine_os sample_deps count_json state_dir clock_of (d, v)
            ≡ (err reboot_required, (d', (some (0 ∷ []), 7)))))
resume_command_exit_reboots_example =
    resume_command_exit_reboots count_json machine_os sample_deps clock_of parse_type run_type
      state_dir (some (0 ∷ []), 7) (some (0 ∷ []), 7)

run_type-Keeps :
    (t : Bytes) (n : ℕ) (w : Machine) → (run_type t (at_step fresh_state n) w).1.0 ≡ w.0
run_type-Keeps t n w = by_case (eqb t (codes "SealOEM"))
  where
    by_case : (b : Bool) → (fails_if b w).1.0 ≡ w.0
    by_case true = refl
    by_case false = refl

execute_steps_resumes_example :
    (m : ℕ) × (w' : Machine) × ((execute_steps count_json machine_os state_dir parse_type run_type
        (fresh_state, (some (0 ∷ []), 7))).1
      ≡ (at_step fresh_state m, w'))
    × (load_state count_json machine_os state_dir w' ≡ (ok (at_step fresh_state m), w'))
    × (execute_steps count_json machine_os state_dir parse_type run_type (at_step fresh_state m, w')
        ≡ for_each
            (execute_step count_json machine_os state_dir parse_type run_type)
            (drop m two_steps.steps)
            (at_step fresh_state m, w'))
execute_steps_resumes_example =
    execute_steps_resumes count_json state_dir machine_files parse_type run_type fresh_state
      (λ n bound. (n ∷ [], refl, refl)) run_type-Keeps 0 (some (0 ∷ []), 7) (omega arith)
      (0 ∷ [], refl, refl)
