-- ===== src/Config/Ownership.antt =====
-- src/config_ownership.go: the lock file beside the configuration; src/config_inspector.go: its load.
-- `decode` is `decodeConfiguration`.
use gosync.Base.{
  String, Bool, true, false, not, Option, none, some, if◌then◌else◌, Error, text, text_of, wrap,
  Result, ok, err, ◌<>◌,
}
use gosync.Os.{Os, FileInfo, FileType, regular_type, directory_type, symlink_type, special_type}
use gosync.Os.Monad.{Io, ◌>>=◌, ◌>>◌, return, throw, within, caught, attempt, raise}
use gosync.Config.Domain.{ConfigurationSnapshot}

abbrev pub configuration_in_use : Error
configuration_in_use = text "configuration is already being changed"

-- The status of a load with the error or the configuration that comes with it.
pub data ConfigurationLoadResult : Type 0 where
  missing : ConfigurationLoadResult
  valid : ConfigurationSnapshot → ConfigurationLoadResult
  invalid unsupported io_failure : Error → ConfigurationLoadResult

abbrev pub is_regular : FileType → Bool
is_regular regular_type = true
is_regular directory_type = false
is_regular symlink_type = false
is_regular special_type = false

module _ (os : Os) where
  -- An ownership is its lock path and the open lock file.
  pub record ConfigurationOwnership : Type 0 where
    pub lock_path : String
    pub lock_file : os.Handle

  unfoldable pub opened_lock : String → Result os.Handle → Io os.World ConfigurationOwnership
  opened_lock path (ok handle) = return (record { lock_path = path; lock_file = handle })
  opened_lock path (err e) =
      if os.is_exist e
      then throw configuration_in_use
      else throw (wrap "acquire configuration ownership" e)

  unfoldable pub acquire_configuration_ownership : String → Io os.World ConfigurationOwnership
  unfolding opened_lock
  acquire_configuration_ownership configuration_path = do
    within "create configuration ownership directory" (os.mkdir_all (os.dir configuration_path) 448)
    handle ← caught (os.open_exclusive (configuration_path <> ".lock") 384)
    opened_lock (configuration_path <> ".lock") handle

  -- The error of the close, or of a removal that was of a file.
  unfoldable pub release_fault : Option Error → Option Error → Option Error
  release_fault (some e) removal = some (wrap "close configuration ownership" e)
  release_fault none none = none
  release_fault none (some e) =
      if os.is_not_exist e then none else some (wrap "release configuration ownership" e)

  unfoldable pub release_ownership : ConfigurationOwnership → Io os.World (Unit {0})
  unfolding release_fault
  release_ownership o = do
    closed ← attempt (os.close o.lock_file)
    removal ← attempt (os.remove o.lock_path)
    raise (release_fault closed removal)

  module _ (decode : String → Result ConfigurationSnapshot) where
    unfoldable pub decoded_load : Result String → ConfigurationLoadResult
    decoded_load (err e) = ConfigurationLoadResult.io_failure (wrap "read configuration file" e)
    decoded_load (ok encoded) = elim (decode encoded) [
      | err e ↦ ConfigurationLoadResult.invalid (wrap "decode configuration file" e)
      | ok c ↦ ConfigurationLoadResult.valid c
    ]

    -- Behind the look at the file.
    unfoldable pub load_entry : String → Result FileInfo → Io os.World ConfigurationLoadResult
    unfolding decoded_load
    load_entry path (err e) =
        if os.is_not_exist e
        then return ConfigurationLoadResult.missing
        else return (ConfigurationLoadResult.io_failure (wrap "inspect configuration file" e))
    load_entry path (ok information) =
        if not (is_regular information.type_of)
        then return (
            ConfigurationLoadResult.unsupported
              (text_of "unsupported configuration filesystem entry" path))
        else (do encoded ← caught (os.read_file path); return (decoded_load encoded))

    unfoldable pub load_configuration : String → Io os.World ConfigurationLoadResult
    unfolding load_entry
    load_configuration path = do entry ← caught (os.lstat path); load_entry path entry
