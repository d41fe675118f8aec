-- ===== src/Backup/Retention.antt =====
-- src/backup_recovery_retention.go: the retention of confirmed archives. The store's `Save` and
-- `os.Remove` are operations of an interface, which the store of a backup set implements.
pub mod Valid
pub mod Head
pub mod Plan
pub mod Journal
pub mod Outcome
use gosync.Base.{
  ℕ, ◌-◌, String, Bool, true, false, ◌&&◌, ◌||◌, not, Option, none, some, List, [], ◌∷◌, ◌==◌,
  nat_Eq, string_Eq, leb, ltb, if◌then◌else◌, length, take, filter, any, Error, text, text_of, wrap,
  wrap_of, Result, ok, err,
}
use gosync.Os.Monad.{Io, ◌>>=◌, ◌>>◌, return, throw, within, lift, after}
use gosync.Backup.SetState.{
  BackupArchiveRecord, BackupRemovalState, BackupSetState, is_confirmed, confirmed, pending_removal,
}

abbrev pub minimum_backup_retention_count : ℕ
minimum_backup_retention_count = 1

abbrev pub maximum_backup_retention_count : ℕ
maximum_backup_retention_count = 100

abbrev pub is_retention_count : ℕ → Bool
is_retention_count n = leb minimum_backup_retention_count n && leb n maximum_backup_retention_count

-- The insertion of `sort.Slice` by confirmation order.
unfoldable pub insert_record :
    BackupArchiveRecord → List BackupArchiveRecord → List BackupArchiveRecord
insert_record r [] = r ∷ []
insert_record r (x ∷ xs) =
    let rest = insert_record r xs in
    if leb r.confirmation_order x.confirmation_order then r ∷ x ∷ xs else x ∷ rest

unfoldable pub sort_records : List BackupArchiveRecord → List BackupArchiveRecord
unfolding insert_record
sort_records [] = []
sort_records (r ∷ rs) = insert_record r (sort_records rs)

-- The oldest of the confirmed records, all but the last `n`.
unfoldable pub expired_records : ℕ → List BackupArchiveRecord → List BackupArchiveRecord
unfolding sort_records is_confirmed
expired_records n rs =
    let kept = sort_records (filter (λ r. is_confirmed r.lifecycle) rs) in
    if leb (length kept) n then [] else take (length kept - n) kept

unfoldable pub plan_backup_retention : BackupSetState → ℕ → Result (List BackupArchiveRecord)
unfolding expired_records
plan_backup_retention s n =
    if not (is_retention_count n)
    then err (text "backup retention must be between %d and %d versions")
    else elim s.pending_removal [
      | some p ↦ err (text "backup retention has a pending removal")
      | none ↦ ok (expired_records n s.archives)
    ]

unfoldable pub is_record : BackupArchiveRecord → BackupArchiveRecord → Bool
unfolding is_confirmed
is_record r x =
    x.archive_id == r.archive_id
    && x.file_name == r.file_name
    && x.confirmation_order == r.confirmation_order
    && is_confirmed x.lifecycle

unfoldable pub mark_record : BackupArchiveRecord → BackupArchiveRecord → BackupArchiveRecord
unfolding is_record
mark_record r x = if is_record r x then record x { lifecycle = pending_removal } else x

unfoldable pub mark_records :
    BackupArchiveRecord → List BackupArchiveRecord → List BackupArchiveRecord
unfolding mark_record
mark_records r [] = []
mark_records r (x ∷ xs) = mark_record r x ∷ mark_records r xs

abbrev pub removal_of : BackupArchiveRecord → BackupRemovalState
removal_of r = record {
  archive_id = r.archive_id;
  file_name = r.file_name;
  confirmation_order = r.confirmation_order;
}

-- The state that `markBackupArchivePendingRemoval` saves, or its error.
unfoldable pub marked_state : BackupSetState → BackupArchiveRecord → Result BackupSetState
unfolding mark_records is_record
marked_state s r =
    if any (is_record r) s.archives
    then ok
        (record s { archives = mark_records r s.archives; pending_removal = some (removal_of r) })
    else err (text "backup archive to remove was not confirmed")

-- The loop that drops the record of the removed archive.
unfoldable pub without_archive : String → List BackupArchiveRecord → List BackupArchiveRecord
without_archive id rs = filter (λ r. not (r.archive_id == id)) rs

abbrev pub finished_state : BackupSetState → BackupRemovalState → BackupSetState
finished_state s p = record s {
  archives = without_archive p.archive_id s.archives;
  pending_removal = none;
}

unfoldable pub count_confirmed : List BackupArchiveRecord → ℕ
unfolding is_confirmed
count_confirmed rs = length (filter (λ r. is_confirmed r.lifecycle) rs)

unfoldable pub validate_backup_retention_compliance : BackupSetState → ℕ → Option Error
unfolding count_confirmed
validate_backup_retention_compliance s n =
    if not (is_retention_count n)
    then some (text "backup retention must be between %d and %d versions")
    else elim s.pending_removal [
      | some p ↦ some (text "backup retention has an unfinished removal")
      | none ↦
          if ltb n (count_confirmed s.archives)
          then some
              (text "backup retention limit is not satisfied: %d confirmed versions exceed %d")
          else none
    ]

-- What the retention needs: `store.Save`, and the removal of a file of the destination.
pub record Storage (World : Type 0) : Type 0 where
  pub save : BackupSetState → Io World (Unit {0})
  pub remove_archive : String → Io World (Unit {0})
  pub is_not_exist : Error → Bool

module _ (World : Type 0) (storage : Storage World) where
  unfoldable pub mark_backup_archive_pending_removal :
      BackupSetState → BackupArchiveRecord → Io World BackupSetState
  unfolding marked_state
  mark_backup_archive_pending_removal s r = do
    updated ← lift (marked_state s r)
    within "mark backup archive pending removal" (storage.save updated)
    return updated

  -- A file that is gone already is no error.
  unfoldable pub forgive_missing : String → World × Result (Unit {0}) → World × Result (Unit {0})
  forgive_missing name (w, ok _) = (w, ok tt)
  forgive_missing name (w, err e) =
      if storage.is_not_exist e
      then (w, ok tt)
      else (w, err (wrap_of "remove pending backup archive %q" name e))

  -- Go makes a slice of capacity `len(state.Archives) - 1`, and panics where there is no archive.
  unfoldable pub finish_removal : BackupSetState → BackupRemovalState → Io World BackupSetState
  unfolding without_archive
  finish_removal s p =
      if length s.archives == 0 then throw (text "panic: makeslice: cap out of range") else do
        within "complete pending backup removal" (storage.save (finished_state s p))
        return (finished_state s p)

  unfoldable pub resume_removal :
      BackupSetState → Option BackupRemovalState → Io World BackupSetState
  unfolding forgive_missing finish_removal
  resume_removal s none = return s
  resume_removal s (some p) = do
    λ w. forgive_missing p.file_name (storage.remove_archive p.file_name w)
    finish_removal s p

  unfoldable pub resume_backup_pending_removal : BackupSetState → Io World BackupSetState
  unfolding resume_removal
  resume_backup_pending_removal s = resume_removal s s.pending_removal

  -- The loop over the expired records.
  unfoldable pub remove_expired : List BackupArchiveRecord → BackupSetState → Io World (Unit {0})
  unfolding mark_backup_archive_pending_removal resume_backup_pending_removal
  remove_expired [] s = return tt
  remove_expired (r ∷ rs) s = do
    marked ← mark_backup_archive_pending_removal s r
    finished ← resume_backup_pending_removal marked
    remove_expired rs finished

  unfoldable pub execute_backup_retention : BackupSetState → ℕ → Io World (Unit {0})
  unfolding remove_expired plan_backup_retention
  execute_backup_retention s n = do
    resumed ← resume_backup_pending_removal s
    expired ← lift (plan_backup_retention resumed n)
    remove_expired expired resumed
