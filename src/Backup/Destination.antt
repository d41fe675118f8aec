-- ===== src/Backup/Destination.antt =====
-- The inspection of a destination in src/backup_recovery_retention.go, and the recovery of the
-- candidates that an earlier cycle has left in it.
pub mod Entries
pub mod Recovery
use gosync.Base.{
  ℕ, String, Bool, true, false, not, ◌||◌, Option, none, some, List, [], ◌∷◌, ◌++◌, map, ◌==◌,
  string_Eq, contains, any, if◌then◌else◌, str_ltb, Error, text, text_of, wrap, wrap_of, Result, ok,
  err,
}
use gosync.Os.{Os, FileInfo}
use gosync.Os.Monad.{
  Io, after, within_result, caught_result, attempt_result, ◌>>=◌, ◌>>◌, return, throw, within,
  caught, attempt, lift, raise,
}
use gosync.Backup.SetState.{BackupArchiveRecord, BackupSetState, BackupArchiveLifecycle, is_pending}
use gosync.Backup.Store.{BackupSetStore, BackupSetLoadResult, is_regular}
use gosync.Backup.Identity.{BackupArchiveIdentity, validate_backup_archive_identity}
use gosync.Backup.Archives.{
  Archives, deferring, then_closed, copied_and_closed, verify_backup_archive_digest,
}
use gosync.Backup.Policy.{BackupDestinationStatus, missing_destination, directory_destination}
use gosync.Backup.Confirm.{validate_backup_set_source_binding}

pub data InspectionStatus : Type 0 where
  missing empty_unbound bound foreign damaged : InspectionStatus

pub data DestinationEntryKind : Type 0 where
  confirmed_entry pending_removal_entry owned_candidate foreign_entry : DestinationEntryKind

pub record DestinationEntry : Type 0 where
  pub name : String
  pub kind : DestinationEntryKind

-- An inspection and the error that comes with it.
pub record Inspection : Type 0 where
  pub status : InspectionStatus
  pub entries : List DestinationEntry
  pub fault : Option Error

abbrev pub is_candidate : DestinationEntryKind → Bool
is_candidate owned_candidate = true
is_candidate k = false

abbrev pub is_foreign : DestinationEntryKind → Bool
is_foreign foreign_entry = true
is_foreign k = false

-- `sort.Slice` by the name.
unfoldable pub insert_by_name : DestinationEntry → List DestinationEntry → List DestinationEntry
insert_by_name e [] = e ∷ []
insert_by_name e (x ∷ xs) =
    let rest = insert_by_name e xs in if str_ltb e.name x.name then e ∷ x ∷ xs else x ∷ rest

unfoldable pub sort_by_name : List DestinationEntry → List DestinationEntry
unfolding insert_by_name
sort_by_name [] = []
sort_by_name (e ∷ es) = insert_by_name e (sort_by_name es)

-- What the tests at the end of an inspection say: damage first, then foreign entries.
unfoldable pub concluded : Option Error → List DestinationEntry → Inspection
unfolding sort_by_name
concluded (some e) es = record { status = damaged; entries = sort_by_name es; fault = some e }
concluded none es =
    if any (λ e. is_foreign e.kind) es
    then record {
      status = foreign;
      entries = sort_by_name es;
      fault = some (text "backup destination contains foreign entries");
    }
    else record { status = bound; entries = sort_by_name es; fault = none }

abbrev pub entry_of_record : BackupArchiveRecord → DestinationEntry
entry_of_record r = record {
  name = r.file_name;
  kind = if is_pending r.lifecycle then pending_removal_entry else confirmed_entry;
}

unfoldable pub first_error : Option Error → Option Error → Option Error
first_error (some e) later = some e
first_error none later = later

-- A damaged archive has no entry.
unfoldable pub with_entry :
    Option Error → BackupArchiveRecord → List DestinationEntry → List DestinationEntry
with_entry none r es = entry_of_record r ∷ es
with_entry (some e) r es = es

module _ (os : Os) (archives : Archives os) where
  -- The loop that reads the files of an archive to their ends.
  unfoldable pub read_files : archives.Reader → List String → Io os.World (Unit {0})
  unfolding copied_and_closed
  read_files reader [] = return tt
  read_files reader (name ∷ names) = do
    stream ← within "open confirmed backup archive entry %q" (archives.open_file reader name)
    copied ← caught (archives.discard stream)
    closed ← attempt (archives.close_file stream)
    copied_and_closed "read confirmed backup archive entry %q"
        "close confirmed backup archive entry %q" copied closed
    read_files reader names

  -- The identity in the comment of an open archive against the record, and the files.
  unfoldable pub check_archive :
      archives.Reader → BackupArchiveRecord → String → String → Io os.World (Unit {0})
  unfolding read_files
  check_archive reader r source destination = do
    identity ←
        within "decode confirmed backup archive %q"
          (lift (archives.decode_identity (archives.comment reader)))
    within "validate confirmed backup archive %q identity" (
        raise (
          validate_backup_archive_identity identity source destination r.confirmation_order
            r.inventory_digest))
    (if not (identity.archive_id == r.archive_id)
        then throw
            (text_of "confirmed backup archive %q identifier does not match state" r.file_name)
        else read_files reader (archives.files reader))

  unfoldable pub validate_backup_archive_record :
      String → BackupArchiveRecord → String → String → Io os.World (Unit {0})
  unfolding verify_backup_archive_digest check_archive then_closed
  validate_backup_archive_record path r source destination = do
    within "validate confirmed backup archive %q"
        (verify_backup_archive_digest os archives path r.whole_archive_digest)
    reader ← within "open confirmed backup archive %q" (archives.open_archive path)
    deferring (archives.close_archive reader) (check_archive reader r source destination)

  -- An identity that decodes and validates, with no order and no digest expected.
  unfoldable pub is_owned_identity : Result BackupArchiveIdentity → String → String → Bool
  is_owned_identity (err e) source destination = false
  is_owned_identity (ok identity) source destination =
      elim (validate_backup_archive_identity identity source destination 0 "") [
        | none ↦ true
        | some e ↦ false
      ]

  -- Behind the attempt to open the archive.
  unfoldable pub owned_archive : Result archives.Reader → String → String → Io os.World Bool
  unfolding is_owned_identity then_closed
  owned_archive (err e) source destination = return false
  owned_archive (ok reader) source destination = deferring (archives.close_archive reader) (
      return
        (is_owned_identity (archives.decode_identity (archives.comment reader)) source destination))

  unfoldable pub is_owned_backup_candidate : String → String → String → Io os.World Bool
  unfolding owned_archive
  is_owned_backup_candidate path source destination = do
    information ← os.lstat path
    (if not (is_regular information.type_of) || not (os.extension path == ".zip")
        then return false
        else (do
          reader ← caught (archives.open_archive path)
          owned_archive reader source destination))

  -- The loop over the records of the state: the entries that are whole, and the first damage.
  unfoldable pub inspect_records :
      String
      → String
      → List BackupArchiveRecord
      → Io os.World (List DestinationEntry × Option Error)
  unfolding validate_backup_archive_record first_error with_entry
  inspect_records source destination [] = return ([], none)
  inspect_records source destination (r ∷ rs) = do
    damage ←
        attempt (
          validate_backup_archive_record (os.join_path destination r.file_name) r source
            destination)
    rest ← inspect_records source destination rs
    return (with_entry damage r rest.0, first_error damage rest.1)

  -- The kind of a name that the state does not know; the error of the test is not told.
  abbrev pub kind_of : Result Bool → DestinationEntryKind
  kind_of (ok true) = owned_candidate
  kind_of (ok false) = foreign_entry
  kind_of (err e) = foreign_entry

  -- The loop over the names of the destination.
  unfoldable pub inspect_names :
      String → String → List String → List String → Io os.World (List DestinationEntry)
  unfolding is_owned_backup_candidate
  inspect_names source destination known [] = return []
  inspect_names source destination known (name ∷ names) =
      let later = inspect_names source destination known names in
      if contains name known then later else (do
        candidate ←
            caught (is_owned_backup_candidate (os.join_path destination name) source destination)
        rest ← later
        return (record { name = name; kind = kind_of candidate } ∷ rest))

module _ (os : Os) (archives : Archives os) (canonicalize : String → Io os.World String)
    (inspect_destination : String → Io os.World BackupDestinationStatus)
    (load : Io os.World BackupSetLoadResult) where
  -- The two loops, over the records of the state, which have its source, and over the names.
  unfoldable pub inspect_entries :
      String → String → String → List BackupArchiveRecord → List String → Io os.World Inspection
  unfolding inspect_records inspect_names concluded
  inspect_entries bound_source source destination records names = do
    found ← inspect_records os archives bound_source destination records
    others ← inspect_names os archives source destination (map (λ r. r.file_name) records) names
    return (concluded found.1 (found.0 ++ others))

  -- Behind the comparison of the state's source.
  unfoldable pub inspect_bound :
      BackupSetState → String → String → List String → Option Error → Io os.World Inspection
  unfolding inspect_entries
  inspect_bound s source destination names (some e) =
      return (record { status = damaged; entries = []; fault = some e })
  inspect_bound s source destination names none =
      inspect_entries s.source_path source destination s.archives names

  -- Behind the load of the state.
  unfoldable pub inspect_loaded :
      String → String → List String → BackupSetLoadResult → Io os.World Inspection
  unfolding inspect_entries inspect_bound validate_backup_set_source_binding
  inspect_loaded source_root destination names (BackupSetLoadResult.io_failure e) =
      return (record { status = damaged; entries = []; fault = some e })
  inspect_loaded source_root destination names (BackupSetLoadResult.unsupported e) =
      return (record { status = damaged; entries = []; fault = some e })
  inspect_loaded source_root destination names (BackupSetLoadResult.invalid e) =
      return (record { status = damaged; entries = []; fault = some e })
  inspect_loaded source_root destination [] BackupSetLoadResult.missing =
      return (record { status = empty_unbound; entries = []; fault = none })
  inspect_loaded source_root destination (name ∷ names) BackupSetLoadResult.missing = do
    source ← canonicalize source_root
    inspect_entries "" source destination [] (name ∷ names)
  inspect_loaded source_root destination names (BackupSetLoadResult.valid s) = do
    source ← canonicalize source_root
    mismatch ← attempt (validate_backup_set_source_binding os canonicalize s source)
    inspect_bound s source destination names mismatch

  -- Behind the first look at the destination.
  unfoldable pub inspect_present :
      BackupSetStore → String → BackupDestinationStatus → Io os.World Inspection
  unfolding inspect_loaded
  inspect_present store source_root missing_destination =
      return (record { status = missing; entries = []; fault = none })
  inspect_present store source_root directory_destination = do
    names ← within "read backup destination entries" (os.read_dir store.destination_path)
    loaded ← load
    inspect_loaded source_root store.destination_path names loaded

  unfoldable pub inspect_backup_set_destination : BackupSetStore → String → Io os.World Inspection
  unfolding inspect_present
  inspect_backup_set_destination store source_root = do
    status ← inspect_destination store.destination_path
    inspect_present store source_root status

  -- The loop of the recovery over the entries.
  unfoldable pub remove_candidates : String → List DestinationEntry → Io os.World (Unit {0})
  remove_candidates destination [] = return tt
  remove_candidates destination (e ∷ es) =
      let later = remove_candidates destination es in
      if not (is_candidate e.kind) then later else (do
        within "remove owned backup candidate %q" (os.remove (os.join_path destination e.name))
        later)

  unfoldable pub recover_owned_backup_candidates : BackupSetStore → String → Io os.World (Unit {0})
  unfolding inspect_backup_set_destination remove_candidates
  recover_owned_backup_candidates store source_root = do
    inspection ← inspect_backup_set_destination store source_root
    raise inspection.fault
    remove_candidates store.destination_path inspection.entries
