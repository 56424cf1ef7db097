-- ===== src/Lib.antt =====
-- Tools for Container-Optimized OS (COS): a model of the Go code that provisions a COS machine and
-- repartitions its disk, finds builds and images, and compares builds.
--
-- The provisioner runs inside the machine whose image is made. It lays the boot disk out over
-- several boots, runs the steps of a configuration and cleans up; between two boots its state lies
-- in a file. Moving partitions needs the stateful partition unmounted, so the provisioner installs
-- a unit that calls HandleDiskLayout at shutdown. HandleDiskLayout works by rewriting the text that
-- `sfdisk --dump` prints, and by `sfdisk --move-data`.
--
-- The other part are the tools that read Git on Borg and Gerrit: the build finder answers which build
-- is the first with a change, from the commits of the manifest repository in a range of time that
-- grows, the manifests of the builds in it, and the commits of the changed repository. The change log
-- lists the commits and the kernel parameters in which two builds differ. The node profiler reads what
-- commands print.
--
-- The files, and the code that each models:
--   Base, Base/Lists, Base/Tests: lists, tests and library names that all modules use.
--   Base/Errors: results of Go functions. An error keeps what callers can tell apart: the two
--     sentinels, a failed call, a message, and an error wrapped with `%v`, which `errors.Is` does
--     not look through. A panic is a result of its own.
--   Text, Text/Split, Text/Decimal, Text/Search: the functions of `strings` and `strconv` that are
--     used, on lists of bytes.
--   Os, Os/Action: calls into the system and functions with effects, as state passing. The system is
--     a parameter; the deferred calls, the wrapping of errors and loops over a list are combinators.
--     `copy_file` is CopyFile of src/pkg/utils/utils.go.
--   Os/Files, Os/Reboot: a file that is written and read again; functions that ask for no reboot.
--   Partutil/Table and below: HandlePartitionTable of src/pkg/tools/partutil/handle_partition_table.go.
--   Partutil/Size: src/pkg/tools/partutil/helpers.go.
--   Partutil/Commands: ReadPartitionTable, ReadPartitionSize, ReadPartitionStart, IsPartitionMinimal,
--     MinimizePartition, ExtendPartition and MovePartition of src/pkg/tools/partutil.
--   Partutil/Sfdisk and below: what sfdisk, e2fsck and resize2fs are relied on for, as a record, a
--     system that has it, and what the commands do on such a system.
--   Partutil/Grub and below: src/pkg/tools/partutil/grub_utils.go and DisableSystemdService of
--     src/pkg/tools/disable_systemd_service.go.
--   Seal and below: appendDMEntryToGRUB of src/pkg/tools/seal_oem_partition.go, on ASCII text.
--   Layout and below: HandleDiskLayout of src/pkg/tools/handle_disk_layout.go.
--   Provisioner/Types, Systemd, Address, State: the types, systemd.go and state.go of
--     src/pkg/provisioner.
--   Provisioner/Disk and below: src/pkg/provisioner/disk_layout.go.
--   Provisioner/Steps and below: executeSteps of src/pkg/provisioner/provisioner.go.
--   Provisioner/MountOptions, Setup, Cleanup, Run and below: the rest of that file, and the commands
--     run and resume of src/cmd/provisioner.
--   Base/Outcome, Base/Yields, Base/Parts, Maps: results with an error type of their own, what holds of
--     them, parts of lists, and Go maps as association lists.
--   Gob/Errors: src/pkg/utils/changelogerror.go. Gob/Commits, Gob/Urls: src/pkg/utils/gobutils.go;
--     Gob/Commits/Pages says what a server promises that hands commits out in pages, Gob/Sample is one.
--   Gob/Manifest: the remotes of a manifest, as src/pkg/findbuild and src/pkg/changelog read them.
--   Findbuild and below: src/pkg/findbuild/findbuild.go. Query is getCLData, Range is
--     candidateManifestCommits, Builds is candidateBuildNums, Project is manifestData, Repo is
--     getRepoData, First is firstBuild, Search is findBuildInRange, findBuildExponential and FindBuild.
--   Changelog and below: src/pkg/changelog. Names is resolveImageName, Messages is gitcommit.go, Repos is
--     repoMap, mappedManifest and createGitilesClients, Sysctl is GetSysctlDiff, Additions is commits and
--     additions, Run is Changelog. A list of commits in a response is never nil.
--   Profiler and below: src/pkg/nodeprofiler/utils/parsing.go; Columns is ParseColumns, Rows is ParseRows,
--     Grid is ParseRowsAndColumns, Fields what they cut lines with.
--   Gce and below: ResolveMilestone of src/pkg/gce/gce.go; Gce/Order has the order of images, and
--     Gce/Resolved says which images are of a milestone.
--   The Tests modules hold concrete systems and the properties at concrete inputs.
--
-- Numbers: a uint64 is a natural number with its wrap-around written out (`% u64_mod`). A partition
-- number is a natural number, 0 standing for every number that is not positive.
--
-- Fuel: a uint64 is printed with a fuel of 20 digits, which 2 ^ 64 does not exceed. The loop that
-- waits for the disk has a fuel of 181 rounds; each sleeps a second and three minutes end it.
--
-- Retrieving commits has a fuel for its pages, and the search one for its attempts. The two binary
-- searches have the length of the list of commits as fuel.
--
-- Times of commits are in nanoseconds since the start of the year 1, and grow without a bound. The
-- goroutines that read the manifests and the commits are modelled as running one after the other, in
-- an order that is a parameter. The entries of a Go map are gone through in the order of the list
-- that stands for it. The servers do not change while they are read.
--
-- Parameters: the system with its commands and files, `encoding/json`, the clock, cloud storage (as
-- calls of the system, or as the contents of its objects), what parses and runs a step of a
-- configuration, the servers of Git on Borg and Gerrit, the list of the images of a project, and the
-- packages regexp and etree.
--
-- Not modelled: logging and error texts, but for those of the build finder and the change log; lines
-- of /proc/self/mountinfo longer than the buffer of a scanner; spaces outside ASCII; the steps of the
-- provisioner, the rest of the tools for dm-verity, the programs for images and GPU drivers, the
-- metrics of the node profiler, and the other calls of Compute Engine; the search for a released build
-- in a database; interleavings of the goroutines inside the reading of one manifest or one list.
pub mod Base
pub mod Text
pub mod Maps
pub mod Os
pub mod Partutil
pub mod Gob
pub mod Findbuild
pub mod Changelog
pub mod Profiler
pub mod Gce
pub mod Layout
pub mod Seal
pub mod Provisioner
