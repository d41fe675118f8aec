-- ===== src/Backup/Confirm.antt =====
-- Of src/backup_recovery_retention.go: the source of a backup set, and the confirmation of an archive.
pub mod Valid
pub mod Outcome
use gosync.Base.{
  ℕ, ◌+◌, ◌%◌, ◌^◌, String, Bool, true, false, ◌&&◌, ◌||◌, not, Option, none, some, List, [], ◌∷◌,
  ◌++◌, ◌==◌, string_Eq, nat_Eq, any, if◌then◌else◌, Error, text, text_of, wrap, Result, ok, err,
}
use gosync.Os.{Os}
use gosync.Os.Monad.{Io, after, within_result, ◌>>=◌, ◌>>◌, return, throw, within, raise}
use gosync.Backup.SetState.{
  BackupArchiveRecord, BackupSetState, confirmed, is_backup_sha256_digest,
  validate_backup_set_state,
}
use gosync.Backup.Identity.{BackupArchiveIdentity}

unfoldable pub source_mismatch : BackupSetState → String → Option Error
source_mismatch s source =
    if s.source_path == ""
    then some (text "backup set source is not bound")
    else if not (s.source_path == source)
    then some (text_of "backup set source %q does not match %q" source)
    else none

-- A state bound to a canonical source, unless it is bound to another one.
unfoldable pub bound_state : BackupSetState → String → Result BackupSetState
bound_state s source =
    if not (s.source_path == "") && not (s.source_path == source)
    then err (text_of "backup set source %q does not match %q" source)
    else elim (validate_backup_set_state (record s { source_path = source })) [
      | some e ↦ err e
      | none ↦ ok (record s { source_path = source })
    ]

abbrev pub is_confirmed_already : String → String → BackupArchiveRecord → Bool
is_confirmed_already id name r = r.archive_id == id || r.file_name == name

abbrev pub record_of : BackupArchiveIdentity → String → String → BackupArchiveRecord
record_of i name digest = record {
  archive_id = i.archive_id;
  file_name = name;
  confirmation_order = i.confirmation_order;
  created_at = i.created_at;
  whole_archive_digest = digest;
  inventory_digest = i.inventory_digest;
  lifecycle = confirmed;
}

-- The state with the record; the next order is a uint64.
abbrev pub with_record : BackupSetState → BackupArchiveRecord → BackupSetState
with_record s r = record s {
  archives = s.archives ++ r ∷ [];
  next_confirmation_order = (s.next_confirmation_order + 1) % 2 ^ 64;
}

unfoldable pub appended_state :
    BackupSetState → BackupArchiveIdentity → String → String → Result BackupSetState
appended_state s i name digest =
    if any (is_confirmed_already i.archive_id name) s.archives
    then err (text "backup archive is already confirmed")
    else ok (with_record s (record_of i name digest))

module _ (os : Os) (canonicalize : String → Io os.World String) where
  unfoldable pub validate_backup_set_source_binding :
      BackupSetState → String → Io os.World (Unit {0})
  unfolding source_mismatch
  validate_backup_set_source_binding s source_root = do
    source ← canonicalize source_root
    raise (source_mismatch s source)

  unfoldable pub bind_backup_set_source : BackupSetState → String → Io os.World BackupSetState
  unfolding bound_state
  bind_backup_set_source s source_root = do
    source ← canonicalize source_root
    λ w. (w, bound_state s source)

module _ (os : Os) (canonicalize : String → Io os.World String)
    (save : BackupSetState → Io os.World (Unit {0})) where
  -- Behind the tests of the identity, the digest and the path.
  unfoldable pub commit_confirmation :
      BackupSetState → BackupArchiveIdentity → String → String → Io os.World BackupSetState
  unfolding appended_state
  commit_confirmation s i name digest = do
    updated ← λ w. (w, appended_state s i name digest)
    within "commit backup archive confirmation" (save updated)
    return updated

  -- Behind the tests of the identity and of the digest, at the canonical path of the archive.
  -- `destination` is the store's destination path.
  unfoldable pub confirm_canonical :
      String → BackupSetState → BackupArchiveIdentity → String → String → Io os.World BackupSetState
  unfolding bind_backup_set_source commit_confirmation
  confirm_canonical destination s i digest path =
      if not (os.clean (os.dir path) == os.clean destination)
      then throw (text "backup archive confirmation path is outside destination")
      else do
        bound ← bind_backup_set_source os canonicalize s i.source_path
        commit_confirmation bound i (os.base path) digest

  unfoldable pub confirm_formed :
      String → BackupSetState → BackupArchiveIdentity → String → String → Io os.World BackupSetState
  unfolding confirm_canonical
  confirm_formed destination s i archive_path digest =
      if not (is_backup_sha256_digest digest)
      then throw (text "backup archive confirmation digest is invalid")
      else do
        path ← within "canonicalize backup archive confirmation path" (canonicalize archive_path)
        confirm_canonical destination s i digest path

  unfoldable pub confirm_backup_archive :
      String → BackupSetState → BackupArchiveIdentity → String → String → Io os.World BackupSetState
  unfolding confirm_formed
  confirm_backup_archive destination s i archive_path digest =
      if not (i.destination_path == destination)
        || not (i.confirmation_order == s.next_confirmation_order)
      then throw (text "backup archive confirmation identity does not match state")
      else confirm_formed destination s i archive_path digest
