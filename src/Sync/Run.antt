-- ===== src/Sync/Run.antt =====
-- Of src/watch_command.go one bidirectional synchronization from its scan to its commit, with the log
-- around it, src/root_creation.go, and the conflicts of src/synchronization_logging.go. An answer of
-- the user is a value that the run is given; `execute` is a plan's execution that has ended.
pub mod Synchronized
use gosync.Base.{
  ℕ, String, Bool, true, false, not, ◌&&◌, ◌||◌, Option, none, some, List, [], ◌∷◌, ◌++◌, ◌==◌,
  nat_Eq, string_Eq, if◌then◌else◌, sort_strings, filter, map, Error, text, wrap, wrap_of, Result,
  ok, err, ℤ, pos, negsuc,
}
use gosync.Os.{Os}
use gosync.Os.Monad.{
  Io, after, within_result, ◌>>=◌, ◌>>◌, return, throw, within, lift, raise, when, caught,
  caught_result,
}
use gosync.Logging.Domain.{
  LogEntry, LogSeverity, LogEvent, info, warn, conflict_detected, synchronization_started,
  synchronization_completed, operation_failed, warning_raised,
}
use gosync.Sync.Domain.{
  EntryKind, kind_eq, SynchronizationEntry, EntryComparison, SynchronizationPlan,
  SynchronizationResult, SynchronizationSide,
}
use gosync.Sync.Inventory.{DirectoryInventory, compare_directory_inventories}
use gosync.Sync.Plan.{
  Prompts, generate_synchronization_plan, generate_authoritative_synchronization_plan,
}
use gosync.Sync.Executor.{RootPaths}
use gosync.Sync.Commit.{
  ConfirmedSynchronizationState, ConfirmedStateStore, recover_from_missing_confirmed_state, load,
  verify_and_commit_synchronization,
}

-- The map of the confirmed entries, in which a later entry replaces an earlier one.
unfoldable pub confirmed_at : String → List SynchronizationEntry → Option SynchronizationEntry
confirmed_at path [] = none
confirmed_at path (e ∷ es) = elim (confirmed_at path es) [
  | some later ↦ some later
  | none ↦ if e.relative_path == path then some e else none
]

abbrev pub attach_entry : Option SynchronizationEntry → EntryComparison → EntryComparison
attach_entry none c = c
attach_entry (some e) c = record c { confirmed = some e }

unfoldable pub attach_confirmed_entries :
    List EntryComparison → Option ConfirmedSynchronizationState → List EntryComparison
unfolding confirmed_at
attach_confirmed_entries cs none = cs
attach_confirmed_entries cs (some state) =
    map (λ c. attach_entry (confirmed_at c.relative_path state.entries) c) cs

abbrev pub sides_conflict : SynchronizationEntry → SynchronizationEntry → Bool
sides_conflict a b =
    not (kind_eq a.kind b.kind)
    || (kind_eq a.kind EntryKind.file && not (a.content_digest == b.content_digest))

abbrev pub entries_conflict : Option SynchronizationEntry → Option SynchronizationEntry → Bool
entries_conflict (some a) (some b) = sides_conflict a b
entries_conflict (some a) none = false
entries_conflict none o = false

unfoldable pub comparison_has_conflict : EntryComparison → Bool
unfolding kind_eq
comparison_has_conflict c = entries_conflict c.first c.second

-- The choice that a prompt has read, or the error of the read.
unfoldable pub requested_side : Result ℤ → Result SynchronizationSide
requested_side (err e) = err (wrap "read synchronization decision" e)
requested_side (ok (negsuc n)) = err (text "synchronization decision must be 1 or 2")
requested_side (ok (pos n)) =
    if not (n == 1) && not (n == 2)
    then err (text "synchronization decision must be 1 or 2")
    else if n == 1
    then ok SynchronizationSide.first_side
    else ok SynchronizationSide.second_side

abbrev pub is_directory_entry : SynchronizationEntry → Bool
is_directory_entry e = kind_eq e.kind EntryKind.directory

-- The paths of an inventory whose parent is the given directory; `dir` is `filepath.Dir`.
abbrev pub children_of : (String → String) → String → DirectoryInventory → List String
children_of dir path inventory =
    filter (λ child. not (child == path) && dir child == path) (map (λ (p, e). p) inventory)

abbrev pub directory_paths : DirectoryInventory → List String
directory_paths inventory = map (λ (p, e). p) (filter (λ (p, e). is_directory_entry e) inventory)

abbrev pub is_in : String → List String → Bool
is_in path [] = false
is_in path (p ∷ ps) = p == path || is_in path ps

-- What one inventory adds to the contents of a path.
abbrev pub added_contents : (String → String) → String → DirectoryInventory → List String
added_contents dir path inventory =
    if is_in path (directory_paths inventory) then children_of dir path inventory else []

abbrev pub has_contents : String × List String → Bool
has_contents (path, []) = false
has_contents (path, c ∷ cs) = true

unfoldable pub directory_contents_by_path :
    (String → String) → DirectoryInventory → DirectoryInventory → List (String × List String)
unfolding kind_eq sort_strings
directory_contents_by_path dir first second = filter has_contents (
    map
      (λ path.
        (path, sort_strings (added_contents dir path first ++ added_contents dir path second)))
      (directory_paths first ++ directory_paths second))

module _ (World : Type 0) where
  abbrev pub entry_of : LogSeverity → LogEvent → String → Option (List (String × String)) → LogEntry
  entry_of severity event message context = record {
    timestamp = 0;
    severity = severity;
    event = event;
    message = message;
    context = context;
  }

  -- Nothing without a logger.
  abbrev pub log_to : Option (LogEntry → Io World (Unit {0})) → LogEntry → Io World (Unit {0})
  log_to none entry = return tt
  log_to (some logger) entry = logger entry

  unfoldable pub log_synchronization_conflicts :
      Option (LogEntry → Io World (Unit {0})) → List EntryComparison → Io World (Unit {0})
  unfolding comparison_has_conflict
  log_synchronization_conflicts logger [] = return tt
  log_synchronization_conflicts logger (c ∷ cs) = do
    when (comparison_has_conflict c) (
        log_to logger (
          entry_of warn conflict_detected "synchronization conflict detected"
            (some (("path", c.relative_path) ∷ []))))
    log_synchronization_conflicts logger cs

-- What a run is told by its user: the side that prevails, and the answers on conflicts.
pub record Answers : Type 0 where
  pub prevailing : Result SynchronizationSide
  pub prompts : Prompts

module _ (os : Os) (encode : ConfirmedSynchronizationState → Result String)
    (decode : String → Result ConfirmedSynchronizationState) (digest : RootPaths → String)
    (now : os.World → ℕ) (build_inventory : String → Io os.World DirectoryInventory)
    (scan_roots : RootPaths → Io os.World (Unit {0}))
    (execute : SynchronizationPlan → os.World → os.World × SynchronizationResult)
    (error_message : Error → String) (logger : Option (LogEntry → Io os.World (Unit {0})))
    (answers : Answers) where
  unfoldable pub ensure_root_directories : RootPaths → Io os.World (Unit {0})
  ensure_root_directories roots = do
    within "create root directory %q" (os.mkdir_all roots.first 493)
    within "create root directory %q" (os.mkdir_all roots.second 493)

  -- Without a state: a plan for the side that prevails, or the plan of equivalent roots.
  unfoldable pub recovered_plan :
      List EntryComparison → Option SynchronizationSide → Io os.World SynchronizationPlan
  recovered_plan cs none =
      lift (generate_synchronization_plan cs [] (record { file_side = none; item_side = none }))
  recovered_plan cs (some side) = do
    log_to os.World logger (
        entry_of os.World warn warning_raised
          "confirmed synchronization state is unavailable; selected side will prevail" none)
    return (generate_authoritative_synchronization_plan cs side)

  unfoldable pub choose_plan :
      DirectoryInventory
      → DirectoryInventory
      → Option ConfirmedSynchronizationState
      → List EntryComparison
      → Io os.World SynchronizationPlan
  unfolding recovered_plan directory_contents_by_path
  choose_plan first second none cs = do
    side ← lift (recover_from_missing_confirmed_state false first second (some answers.prevailing))
    recovered_plan cs side
  choose_plan first second (some state) cs = lift (
      generate_synchronization_plan cs (directory_contents_by_path os.dir first second)
        answers.prompts)

  -- The failure of an execution, or the commit.
  unfoldable pub conclude :
      RootPaths → ConfirmedStateStore → SynchronizationResult → Io os.World (Unit {0})
  conclude roots store result =
      if not result.completed
      then raise result.failure
      else verify_and_commit_synchronization os encode decode digest now build_inventory roots store
          result

  unfoldable pub carry_out :
      RootPaths → ConfirmedStateStore → SynchronizationPlan → Io os.World (Unit {0})
  unfolding conclude
  carry_out roots store plan w = let (v, result) = execute plan w in conclude roots store result v

  unfoldable pub perform_synchronization : RootPaths → ConfirmedStateStore → Io os.World (Unit {0})
  unfolding ensure_root_directories choose_plan carry_out attach_confirmed_entries
      log_synchronization_conflicts
  perform_synchronization roots store = do
    scan_roots roots
    ensure_root_directories roots
    first ← build_inventory roots.first
    second ← build_inventory roots.second
    state ← load os encode decode digest now store roots
    log_synchronization_conflicts os.World logger
        (attach_confirmed_entries (compare_directory_inventories first second) state)
    plan ←
        choose_plan first second state
          (attach_confirmed_entries (compare_directory_inventories first second) state)
    carry_out roots store plan

  -- Behind the run, whose error is logged twice with a logger.
  unfoldable pub reported : Result (Unit {0}) → Io os.World (Unit {0})
  reported (ok u) = log_to os.World logger (
      entry_of os.World info synchronization_completed "synchronization completed successfully"
        none)
  reported (err e) = do
    log_to os.World logger (
        entry_of os.World LogSeverity.error operation_failed "synchronization operation failed"
          (some (("error", error_message e) ∷ [])))
    log_to os.World logger (
        entry_of os.World LogSeverity.error synchronization_completed
          "synchronization completed with failure" (some (("error", error_message e) ∷ [])))
    throw e

  unfoldable pub synchronize_directories : RootPaths → ConfirmedStateStore → Io os.World (Unit {0})
  unfolding perform_synchronization reported
  synchronize_directories roots store = do
    log_to os.World logger (
        entry_of os.World info synchronization_started "synchronization started"
          (some (("first_root", roots.first) ∷ ("second_root", roots.second) ∷ [])))
    outcome ← caught (perform_synchronization roots store)
    reported outcome
