-- ===== src/Config/Domain.antt =====
-- src/config_domain.go. A synchronization mode is a string in the source, and here.
use gosync.Base.{
  ℕ, String, Bool, ◌&&◌, ◌||◌, not, Option, none, some, ◌==◌, string_Eq, nat_Eq, if◌then◌else◌,
  Error, text, text_of, ℤ, is_int, is_below, is_above,
}

abbrev pub legacy_schema_version : ℕ
legacy_schema_version = 1

abbrev pub schema_version_supported : ℕ
schema_version_supported = 2

abbrev pub minimum_interval_seconds : ℕ
minimum_interval_seconds = 1

abbrev pub maximum_interval_seconds : ℕ
maximum_interval_seconds = 86400

abbrev pub minimum_retention_count : ℕ
minimum_retention_count = 1

abbrev pub maximum_retention_count : ℕ
maximum_retention_count = 100

abbrev pub bidirectional : String
bidirectional = "bidirectional"

abbrev pub unidirectional : String
unidirectional = "unidirectional"

abbrev pub backup : String
backup = "backup"

pub record ConfigurationSnapshot : Type 0 where
  pub schema_version : ℤ
  pub interval_seconds : ℤ
  pub mode : String
  pub retention_count : ℤ

pub record ConfigurationDraft : Type 0 where
  pub interval_seconds : ℤ
  pub mode : String
  pub retention_count : ℤ

abbrev pub out_of_range : ℤ → ℕ → ℕ → Bool
out_of_range z low high = is_below z low || is_above z high

unfoldable pub validate_legacy : ConfigurationSnapshot → Option Error
validate_legacy c =
    if not (is_int c.retention_count 0)
    then some (text "legacy configuration cannot define backup retention")
    else if not (c.mode == bidirectional) && not (c.mode == unidirectional)
    then some (text_of "unsupported synchronization mode %q" c.mode)
    else none

-- The switch on the mode.
unfoldable pub validate_mode : ConfigurationSnapshot → Option Error
validate_mode c =
    if c.mode == bidirectional || c.mode == unidirectional
    then if not (is_int c.retention_count 0)
      then some (text "backup retention is only valid for BACKUP mode")
      else none
    else if c.mode == backup
    then if out_of_range c.retention_count minimum_retention_count maximum_retention_count
      then some (text "backup retention must be between %d and %d versions")
      else none
    else some (text_of "unsupported synchronization mode %q" c.mode)

unfoldable pub validate_configuration_snapshot : ConfigurationSnapshot → Option Error
unfolding validate_legacy validate_mode
validate_configuration_snapshot c =
    if not (is_int c.schema_version legacy_schema_version)
      && not (is_int c.schema_version schema_version_supported)
    then some (text "unsupported configuration schema version %d")
    else if out_of_range c.interval_seconds minimum_interval_seconds maximum_interval_seconds
    then some (text "synchronization interval must be between %d and %d seconds")
    else if is_int c.schema_version legacy_schema_version
    then validate_legacy c
    else validate_mode c
