-- ===== src/Backup/SetState/Valid/Check.antt =====
-- The check of src/backup_set_state.go and the validity of a state.
use gosync.Base.{none, ◌≡◌, ◌↔◌}
use gosync.Backup.SetState.{BackupSetState, validate_backup_set_state}
use gosync.Backup.SetState.Valid.{IsValid}
use gosync.Backup.SetState.Valid.Sound.{validate-IsValid}
use gosync.Backup.SetState.Valid.Complete.{IsValid-validate}

-- The check returns nil exactly for the states that are valid: schema version 1, paths that are not
-- blank, well-formed records in strictly growing order with distinct identifiers and file names, a
-- next order above all of them, and either no pending record or the single one that the pending
-- removal names.
pub validate_iff_IsValid : (s : BackupSetState) → (validate_backup_set_state s ≡ none) ↔ IsValid s
validate_iff_IsValid s = (validate-IsValid s, IsValid-validate s)
