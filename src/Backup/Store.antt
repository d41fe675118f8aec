-- ===== src/Backup/Store.antt =====
-- The store of src/backup_set_state.go: the active state is replaced by a candidate beside it.
-- `encode` is `encodeBackupSetState`, `decode` is `decodeBackupSetState`.
use gosync.Base.{
  String, Bool, true, false, ◌==◌, string_Eq, if◌then◌else◌, Error, text, text_of, wrap, Result, ok,
  err,
}
use gosync.Os.{Os, FileInfo, FileType}
use gosync.Os.Monad.{Io, ◌>>=◌, return, caught}
use gosync.Os.Candidate.{Messages, write_document, replace_document, save_document}
use gosync.Backup.SetState.{BackupSetState}

pub record BackupSetStore : Type 0 where
  pub application_data_directory : String
  pub destination_path : String
  pub state_path : String

abbrev pub messages : Messages
messages = record {
  encode = "encode backup set state candidate";
  create_directory = "create backup state directory";
  create_candidate = "create backup state candidate";
  set_permissions = "set backup state candidate permissions";
  write = "write backup state candidate";
  close = "close backup state candidate";
  not_beside = "backup state candidate must be beside active state";
  replace = "replace backup set state";
  replace_existing = "replace existing backup set state";
  replace_removed = "replace backup set state after removing previous state";
}

-- A load's status, with the error or the state that comes with it.
pub data BackupSetLoadResult : Type 0 where
  io_failure : Error → BackupSetLoadResult
  missing : BackupSetLoadResult
  unsupported : Error → BackupSetLoadResult
  invalid : Error → BackupSetLoadResult
  valid : BackupSetState → BackupSetLoadResult

abbrev pub is_directory : FileType → Bool
is_directory FileType.directory_type = true
is_directory t = false

abbrev pub is_regular : FileType → Bool
is_regular FileType.regular_type = true
is_regular t = false

module _ (os : Os) (encode : BackupSetState → Result String)
    (decode : String → Result BackupSetState) where
  -- The state path does not exist: its parent must not be there, or be a directory.
  unfoldable pub missing_state : Error → Result FileInfo → BackupSetLoadResult
  missing_state e (ok parent) =
      if is_directory parent.type_of
      then BackupSetLoadResult.missing
      else BackupSetLoadResult.io_failure (wrap "backup set state parent is not a directory" e)
  missing_state e (err e') = BackupSetLoadResult.missing

  unfoldable pub decoded_state : BackupSetStore → Result String → BackupSetLoadResult
  decoded_state store (err e) = BackupSetLoadResult.io_failure (wrap "read backup set state" e)
  decoded_state store (ok encoded) = elim (decode encoded) [
    | err e ↦ BackupSetLoadResult.invalid (wrap "decode backup set state" e)
    | ok state ↦
        if state.destination_path == store.destination_path
        then BackupSetLoadResult.valid state
        else BackupSetLoadResult.invalid
            (text "backup set state destination does not match requested destination")
  ]

  unfoldable pub load : BackupSetStore → Io os.World BackupSetLoadResult
  unfolding missing_state decoded_state
  load store = do
    entry ← caught (os.lstat store.state_path)
    (elim entry [
      | err e ↦
          if os.is_not_exist e
          then caught (os.lstat (os.dir store.state_path))
            >>= (λ parent. return (missing_state e parent))
          else return (BackupSetLoadResult.io_failure (wrap "inspect backup set state" e))
      | ok information ↦
          if is_regular information.type_of
          then caught (os.read_file store.state_path)
            >>= (λ encoded. return (decoded_state store encoded))
          else return (
              BackupSetLoadResult.unsupported
                (text_of "backup set state %q must be a regular file" store.state_path))
    ])

  unfoldable pub write_candidate : BackupSetStore → BackupSetState → Io os.World String
  unfolding write_document
  write_candidate store s =
      write_document os messages store.application_data_directory ".backup-set-*" (encode s)

  unfoldable pub replace_candidate : BackupSetStore → String → Io os.World (Unit {0})
  unfolding replace_document
  replace_candidate store candidate_path =
      replace_document os messages store.state_path candidate_path

  unfoldable pub save : BackupSetStore → BackupSetState → Io os.World (Unit {0})
  unfolding save_document
  save store s =
      save_document os messages store.application_data_directory ".backup-set-*" store.state_path
        (encode s)
