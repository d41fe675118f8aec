-- ===== src/Sync/Executor.antt =====
-- src/synchronization_executor.go: the actions on the file system.
pub mod Handles
use gosync.Base.{
  ℕ, zero, suc, String, Bool, true, false, Option, none, some, List, [], ◌∷◌, Error, text, wrap,
  wrap_of, text_of, Result, ok, err, if◌then◌else◌, not, ◌&&◌, ◌<>◌,
}
use gosync.Os.{Os, FileInfo, FileType, directory_type, regular_type, symlink_type, special_type}
use gosync.Os.Monad.{Io, ◌>>=◌, ◌>>◌, return, throw, within, attempt, raise, when, after}
use gosync.Sync.Domain.{
  SynchronizationAction, SynchronizationActionKind, copy_to_first, copy_to_second,
  delete_from_first, delete_from_second, SynchronizationResult, SynchronizationPlan,
}
use gosync.Logging.Domain.{
  LogEntry, LogSeverity, info, warn, LogEvent, retry_started, retry_completed, warning_raised,
  change_synchronized,
}

-- `RootPaths` of src/root_paths.go.
pub record RootPaths : Type 0 where
  pub first : String
  pub second : String

module _ (os : Os) where
  -- The first of the three errors of the end of a file copy, each with its text.
  unfoldable pub first_failure : Option Error → Option Error → Option Error → Io os.World (Unit {0})
  first_failure (some e) _ _ = throw (wrap "copy file %q to %q" e)
  first_failure none (some e) _ = throw (wrap "close destination file %q" e)
  first_failure none none (some e) = throw (wrap "close source file %q" e)
  first_failure none none none = return tt

  -- Both handles are closed whatever the copy says.
  unfoldable pub transfer : os.Handle → os.Handle → Io os.World (Unit {0})
  unfolding first_failure
  transfer source destination = do
    copy_error ← attempt (os.copy destination source)
    destination_close_error ← attempt (os.close destination)
    source_close_error ← attempt (os.close source)
    first_failure copy_error destination_close_error source_close_error

  -- What follows the attempt to create the destination file.
  unfoldable pub with_destination :
      os.Handle → os.World × Result os.Handle → os.World × Result (Unit {0})
  unfolding transfer
  with_destination source (w, ok destination) = transfer source destination w
  with_destination source (w, err e) =
      (attempt (os.close source) >>= λ _. throw (wrap "create destination file %q" e)) w

  -- The branch of a regular source file.
  unfoldable pub copy_file : String → String → ℕ → Io os.World (Unit {0})
  unfolding with_destination
  copy_file source_path destination_path permissions = do
    within "create destination parent for %q" (os.mkdir_all (os.dir destination_path) 0o755)
    within "replace destination file %q" (os.remove_all destination_path)
    source ← within "open source file %q" (os.open_read source_path)
    λ w. with_destination source (os.open_write destination_path permissions w)

  -- The loop over the entries of a directory; the recursive call is an argument.
  unfoldable pub copy_entries :
      (String → String → Io os.World (Unit {0}))
      → String
      → String
      → List String
      → Io os.World (Unit {0})
  copy_entries copy_path source_path destination_path [] = return tt
  copy_entries copy_path source_path destination_path (name ∷ names) = do
    copy_path (os.join_path source_path name) (os.join_path destination_path name)
    copy_entries copy_path source_path destination_path names

  -- The branch of a source directory.
  unfoldable pub copy_directory :
      (String → String → Io os.World (Unit {0})) → String → String → ℕ → Io os.World (Unit {0})
  unfolding copy_entries
  copy_directory copy_path source_path destination_path permissions = do
    within "replace destination directory %q" (os.remove_all destination_path)
    within "create destination directory %q" (os.mkdir_all destination_path permissions)
    names ← within "read source directory %q" (os.read_dir source_path)
    copy_entries copy_path source_path destination_path names

  unfoldable pub copy_by_type :
      (String → String → Io os.World (Unit {0}))
      → String
      → String
      → FileType
      → ℕ
      → Io os.World (Unit {0})
  unfolding copy_directory copy_file
  copy_by_type copy_path s d directory_type permissions = copy_directory copy_path s d permissions
  copy_by_type copy_path s d regular_type permissions = copy_file s d permissions
  copy_by_type copy_path s d symlink_type permissions =
      throw (text_of "unsupported source filesystem entry %q" s)
  copy_by_type copy_path s d special_type permissions =
      throw (text_of "unsupported source filesystem entry %q" s)

  -- The fuel bounds the depth of the source tree; the Go function recurs without bound.
  unfoldable pub copy_synchronization_path : ℕ → String → String → Io os.World (Unit {0})
  unfolding copy_by_type
  copy_synchronization_path zero s d = throw (text "out of fuel")
  copy_synchronization_path (suc depth) s d = do
    information ← within "inspect source %q" (os.lstat s)
    copy_by_type (copy_synchronization_path depth) s d information.type_of information.permissions

  unfoldable pub remove_synchronization_path : String → Io os.World (Unit {0})
  remove_synchronization_path path = within "remove path %q" (os.remove_all path)

  unfoldable pub execute_kind :
      ℕ → SynchronizationActionKind → String → String → Io os.World (Unit {0})
  unfolding copy_synchronization_path remove_synchronization_path
  execute_kind depth copy_to_first first_path second_path =
      copy_synchronization_path depth second_path first_path
  execute_kind depth copy_to_second first_path second_path =
      copy_synchronization_path depth first_path second_path
  execute_kind depth delete_from_first first_path second_path =
      remove_synchronization_path first_path
  execute_kind depth delete_from_second first_path second_path =
      remove_synchronization_path second_path
  execute_kind depth (SynchronizationActionKind.unknown n) first_path second_path =
      throw (text "unknown synchronization action kind %d")

  unfoldable pub execute_synchronization_action :
      ℕ → RootPaths → SynchronizationAction → Io os.World (Unit {0})
  unfolding execute_kind
  execute_synchronization_action depth roots action =
      execute_kind depth action.kind (os.join_path roots.first action.relative_path)
        (os.join_path roots.second action.relative_path)
