-- ===== src/Findbuild/Types.antt =====
-- The types of pkg/findbuild/findbuild.go.
use cos_tools.Base.{ℕ, ◌*◌}
use cos_tools.Text.{Bytes}

-- Times are in nanoseconds since the start of the year 1, so every time the source handles is a
-- number.
abbrev pub second : ℕ
second = 1000000000

abbrev pub day : ℕ
day = 86400 * second

-- In days.
abbrev pub default_search_range : ℕ
default_search_range = 5

abbrev pub search_range_multiplier : ℕ
search_range_multiplier = 5

abbrev pub no_source_changelog_size : ℕ
no_source_changelog_size = 10000

abbrev pub full_sha_length : ℕ
full_sha_length = 40

pub record BuildRequest : Type 0 where
  pub gerrit_host : Bytes
  pub gitiles_host : Bytes
  pub manifest_repo : Bytes
  pub cl : Bytes

pub record BuildResponse : Type 0 where
  pub build_num : Bytes
  pub cl_num : Bytes

pub record ClData : Type 0 where
  pub cl_num : Bytes
  pub instance_url : Bytes
  pub project : Bytes
  pub release : Bytes
  pub branch : Bytes
  pub revision : Bytes
  pub search_start_range : ℕ
  pub search_end_range : ℕ
