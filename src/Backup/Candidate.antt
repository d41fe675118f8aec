-- ===== src/Backup/Candidate.antt =====
-- Of src/backup_recovery_retention.go: the archive of a cycle from its temporary file to its name in
-- the destination, and the rollback of a first cycle.
use gosync.Base.{
  String, not, ◌||◌, Option, none, some, List, [], ◌∷◌, ◌==◌, string_Eq, if◌then◌else◌, Error, text,
  wrap, Result, ok, err, ◌<>◌,
}
use gosync.Os.{Os, FileInfo}
use gosync.Os.Monad.{Io, ◌>>=◌, ◌>>◌, return, throw, within, caught, attempt, ignored, raise}
use gosync.Backup.Identity.{has_separator}

-- `errors.Join` of two errors that may be nil.
abbrev pub joined : Option Error → Option Error → Option Error
joined none later = later
joined (some e) none = some e
joined (some e) (some f) = some (Error.join e f)

module _ (os : Os) where
  -- The file is closed at once; a close that fails removes it.
  unfoldable pub create_backup_archive_candidate : String → String → Io os.World String
  create_backup_archive_candidate directory id =
      if id == "" || has_separator id
      then throw (text "backup archive candidate identifier is invalid")
      else within "create backup archive candidate"
          (os.create_temp directory (".gosync-backup-" <> id <> "-*.tmp"))
        >>= λ file. attempt (os.close file.0) >>= λ closed. (elim closed [
          | none ↦ return file.1
          | some e ↦ ignored (os.remove file.1) >> throw (wrap "close backup archive candidate" e)
        ])

  -- Behind the look at the final path.
  unfoldable pub publish_at : String → String → Result FileInfo → Io os.World (Unit {0})
  publish_at candidate final (ok information) =
      throw (text "backup archive final path already exists")
  publish_at candidate final (err e) =
      if os.is_not_exist e
      then within "publish backup archive" (os.rename candidate final)
      else throw (wrap "inspect backup archive final path" e)

  unfoldable pub publish_backup_archive : String → String → Io os.World (Unit {0})
  unfolding publish_at
  publish_backup_archive candidate final =
      if not (os.clean (os.dir candidate) == os.clean (os.dir final))
      then throw (text "backup archive candidate and final path must share a directory")
      else (do entry ← caught (os.lstat final); publish_at candidate final entry)

  -- An error that is not the absence of a file, with the text before it.
  abbrev pub present_error : String → Option Error → Option Error
  present_error context none = none
  present_error context (some e) = if os.is_not_exist e then none else some (wrap context e)

  unfoldable pub remove_candidate : String → Io os.World (Option Error)
  remove_candidate candidate = if candidate == "" then return none else (do
    removal ← attempt (os.remove candidate)
    return (present_error "remove backup candidate during rollback" removal))

  -- The destination goes if it is empty.
  unfoldable pub remove_empty : String → Result (List String) → Io os.World (Option Error)
  remove_empty destination (err e) =
      return (present_error "inspect backup destination during rollback" (some e))
  remove_empty destination (ok (name ∷ names)) = return none
  remove_empty destination (ok []) =
      attempt (within "remove backup destination during rollback" (os.remove destination))

  unfoldable pub rollback_backup_first_cycle : String → String → Io os.World (Unit {0})
  unfolding remove_candidate remove_empty
  rollback_backup_first_cycle destination candidate = do
    first ← remove_candidate candidate
    names ← caught (os.read_dir destination)
    second ← remove_empty destination names
    raise (joined first second)
