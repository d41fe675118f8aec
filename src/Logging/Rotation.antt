-- ===== src/Logging/Rotation.antt =====
-- src/rotating_file_destination.go: the log file, and its archives. `byte_length` is Go's `len` of a
-- text, and `show` the decimal digits of a number.
pub mod Bounds
use gosync.Base.{
  ℕ, zero, suc, ◌+◌, String, Bool, true, false, not, ◌&&◌, Option, none, some, ◌==◌, nat_Eq, ltb,
  if◌then◌else◌, Error, text, text_of, wrap, Result, ok, err, ◌<>◌,
}
use gosync.Os.{Os, FileInfo, FileType, directory_type}
use gosync.Os.Monad.{
  Io, after, within_result, caught_result, attempt_result, ◌>>=◌, ◌>>◌, return, throw, within,
  caught, attempt, raise, when,
}

abbrev pub log_active_file_name : String
log_active_file_name = "gosync.log"

abbrev pub log_maximum_active_file_size : ℕ
log_maximum_active_file_size = 10000000

abbrev pub log_maximum_archive_count : ℕ
log_maximum_archive_count = 4

-- The error of a write, of a short write, and of the close, in this order.
unfoldable pub append_fault : ℕ → ℕ × Option Error → Option Error → Option Error
append_fault expected (n, some e) closed = some (wrap "append active log file" e)
append_fault expected (n, none) closed =
    if not (n == expected)
    then some (wrap "append active log file" (text "short write"))
    else elim closed [ none ↦ none | some e ↦ some (wrap "close active log file" e) ]

-- The size of the active file by what the look at it gives.
unfoldable pub size_of_entry : (Error → Bool) → Result FileInfo → Result ℕ
size_of_entry is_not_exist (err e) =
    if is_not_exist e then ok 0 else err (wrap "inspect active log file" e)
size_of_entry is_not_exist (ok information) = elim information.type_of [
  | directory_type ↦ err (text "active log path is a directory")
  | other ↦ ok information.size
]

unfoldable pub exceeds : ℕ → ℕ → Bool
exceeds size added = ltb 0 size && ltb log_maximum_active_file_size (size + added)

module _ (os : Os) (byte_length : String → ℕ) (show : ℕ → String) where
  abbrev pub active_file_path : String → String
  active_file_path directory = os.join_path directory log_active_file_name

  abbrev pub archive_log_file_path : String → ℕ → String
  archive_log_file_path active generation = active <> "." <> show generation

  unfoldable pub get_active_log_file_size : String → Io os.World ℕ
  unfolding size_of_entry
  get_active_log_file_size active = do
    entry ← caught (os.stat active)
    λ w. (w, size_of_entry os.is_not_exist entry)

  -- `File.Write` as a call that always gives its two results.
  abbrev pub written : os.Handle → String → Io os.World (ℕ × Option Error)
  written handle s w = let (v, r) = os.write_bytes handle s w in (v, ok r)

  unfoldable pub append_to_active_log_file : String → String → Io os.World (Unit {0})
  unfolding append_fault
  append_to_active_log_file active formatted = do
    handle ← within "open active log file" (os.open_append active 384)
    outcome ← written handle formatted
    closed ← attempt (os.close handle)
    raise (append_fault (byte_length formatted) outcome closed)

  -- An error that is not the absence of the file.
  abbrev pub tolerated : String → Option Error → Io os.World (Unit {0})
  tolerated context none = return tt
  tolerated context (some e) = if os.is_not_exist e then return tt else throw (wrap context e)

  -- The loop from a generation down to the first one.
  unfoldable pub shift_archives : String → ℕ → Io os.World (Unit {0})
  shift_archives active zero = return tt
  shift_archives active (suc n) = do
    failure ← attempt (
        os.rename (archive_log_file_path active (suc n))
          (archive_log_file_path active (suc (suc n))))
    tolerated "shift log archive %d" failure
    shift_archives active n

  unfoldable pub rotate_active_log_file : String → Io os.World (Unit {0})
  unfolding shift_archives
  rotate_active_log_file active = do
    failure ← attempt (os.remove (archive_log_file_path active log_maximum_archive_count))
    tolerated "remove oldest log archive" failure
    shift_archives active 3
    within "archive active log file" (os.rename active (archive_log_file_path active 1))

  -- Behind the size of the active file.
  unfoldable pub write_sized : String → String → ℕ → Io os.World (Unit {0})
  unfolding exceeds rotate_active_log_file append_to_active_log_file
  write_sized active formatted size = do
    when (exceeds size (byte_length formatted)) (rotate_active_log_file active)
    append_to_active_log_file active formatted

  unfoldable pub write_log_file : String → String → Io os.World (Unit {0})
  unfolding get_active_log_file_size write_sized
  write_log_file directory formatted = do
    within "create log directory" (os.mkdir_all directory 448)
    size ← get_active_log_file_size (active_file_path directory)
    write_sized (active_file_path directory) formatted size
