-- ===== src/Sync/Commit.antt =====
-- src/confirmed_state_store.go, src/synchronization_verification.go, src/missing_state_recovery.go, and of
-- src/unidirectional_sync.go the run of a synchronization. The walk over a directory, the scan for
-- unsupported entries, the check of the roots and the execution of a plan are parameters of that run.
pub mod Verified
use gosync.Base.{
  ℕ, String, Bool, true, false, ◌&&◌, ◌||◌, not, Option, none, some, List, [], ◌∷◌, ◌++◌, map,
  filter, lookup, ◌==◌, string_Eq, str_ltb, sort_strings, if◌then◌else◌, Error, text, text_of, wrap,
  Result, ok, err,
}
use gosync.Os.{Os, FileInfo, FileType}
use gosync.Os.Monad.{
  Io, after, within_result, attempt_result, caught_result, ignored_result, ◌>>=◌, ◌>>◌, return,
  throw, within, attempt, caught, ignored, lift, raise, when,
}
use gosync.Os.Candidate.{is_failure}
use gosync.Sync.Domain.{
  EntryKind, SynchronizationEntry, EntryComparison, SynchronizationResult, SynchronizationSide,
  SynchronizationPlan, kind_eq,
}
use gosync.Sync.Executor.{RootPaths}
use gosync.Sync.Inventory.{
  DirectoryInventory, compare_directory_inventories, inventories_have_equivalent_contents,
}
use gosync.Sync.Plan.{generate_unidirectional_synchronization_plan}

pub record ConfirmedSynchronizationState : Type 0 where
  pub version : ℕ
  pub roots : RootPaths
  pub entries : List SynchronizationEntry
  pub completed_at : ℕ

pub record ConfirmedStateStore : Type 0 where
  pub directory : String

abbrev pub synchronization_incomplete : Error
synchronization_incomplete = text "synchronization is not complete"

abbrev pub is_incomplete : SynchronizationResult → Bool
is_incomplete r = not r.completed || is_failure r.failure

-- `recoverFromMissingConfirmedState`: the side that prevails, where one is required. The request is
-- nil where it is `none`.
unfoldable pub recover_from_missing_confirmed_state :
    Bool
    → DirectoryInventory
    → DirectoryInventory
    → Option (Result SynchronizationSide)
    → Result (Option SynchronizationSide)
recover_from_missing_confirmed_state found first second request =
    if found || inventories_have_equivalent_contents first second then ok none else elim request [
      | none ↦ err (text "authoritative side request is required")
      | some (ok side) ↦ ok (some side)
      | some (err e) ↦ err e
    ]

-- `sort.Slice` by the relative path.
unfoldable pub insert_entry :
    SynchronizationEntry → List SynchronizationEntry → List SynchronizationEntry
insert_entry e [] = e ∷ []
insert_entry e (x ∷ xs) =
    let rest = insert_entry e xs in
    if str_ltb e.relative_path x.relative_path then e ∷ x ∷ xs else x ∷ rest

unfoldable pub sort_entries : List SynchronizationEntry → List SynchronizationEntry
unfolding insert_entry
sort_entries [] = []
sort_entries (e ∷ es) = insert_entry e (sort_entries es)

-- The entries that a state confirms.
abbrev pub confirmed_entries : DirectoryInventory → List SynchronizationEntry
confirmed_entries inventory = sort_entries (map (λ (_, e). e) inventory)

module _ (os : Os) (encode : ConfirmedSynchronizationState → Result String)
    (decode : String → Result ConfirmedSynchronizationState) (digest : RootPaths → String)
    (now : os.World → ℕ) where
  abbrev pub state_file_path : ConfirmedStateStore → RootPaths → String
  state_file_path store roots = os.join_path store.directory (digest roots)

  -- Permissions, content, close, and the rename over the confirmed state.
  unfoldable pub fill_state :
      ConfirmedStateStore → RootPaths → os.Handle → String → String → Io os.World (Unit {0})
  fill_state store roots file path content = do
    chmod_error ← attempt (os.chmod file 0o600)
    when (is_failure chmod_error) (ignored (os.close file))
    within "set temporary state file permissions" (raise chmod_error)
    write_error ← attempt (os.write file content)
    when (is_failure write_error) (ignored (os.close file))
    within "write confirmed state" (raise write_error)
    within "close temporary state file" (os.close file)
    within "replace confirmed state" (os.rename path (state_file_path store roots))

  -- The deferred `os.Remove` of the temporary file follows, whatever the result.
  unfoldable pub save :
      ConfirmedStateStore
      → ConfirmedSynchronizationState
      → SynchronizationResult
      → Io os.World (Unit {0})
  unfolding fill_state
  save store state result = if is_incomplete result then throw synchronization_incomplete else do
    within "create state directory" (os.mkdir_all store.directory 0o700)
    content ← within "encode confirmed state" (lift (encode state))
    (file, path) ←
        within "create temporary state file" (os.create_temp store.directory ".confirmed-state-*")
    filled ← caught (fill_state store state.roots file path content)
    ignored (os.remove path)
    lift filled

  abbrev pub same_roots : RootPaths → RootPaths → Bool
  same_roots a b = a.first == b.first && a.second == b.second

  -- `none` for a state that is not found.
  unfoldable pub checked_state :
      RootPaths → Result String → Result (Option ConfirmedSynchronizationState)
  checked_state roots (err e) =
      if os.is_not_exist e then ok none else err (wrap "read confirmed state" e)
  checked_state roots (ok content) = elim (decode content) [
    | err e ↦ err (wrap "decode confirmed state" e)
    | ok state ↦
        if same_roots state.roots roots
        then ok (some state)
        else err (text "confirmed state roots do not match requested roots")
  ]

  unfoldable pub load :
      ConfirmedStateStore → RootPaths → Io os.World (Option ConfirmedSynchronizationState)
  unfolding checked_state
  load store roots = do
    content ← caught (os.read_file (state_file_path store roots))
    lift (checked_state roots content)

  module _ (build_inventory : String → Io os.World DirectoryInventory) where
    -- Behind the two inventories.
    unfoldable pub commit_inventories :
        RootPaths
        → ConfirmedStateStore
        → SynchronizationResult
        → DirectoryInventory
        → DirectoryInventory
        → Io os.World (Unit {0})
    unfolding sort_entries
    commit_inventories roots store result first second w =
        if not (inventories_have_equivalent_contents first second)
        then (w, err (text "synchronized directories have different contents"))
        else within "commit confirmed synchronization state"
            (save store
              (record {
                version = 1;
                roots = roots;
                entries = confirmed_entries first;
                completed_at = now w;
              })
              result)
            w

    unfoldable pub verify_and_commit_synchronization :
        RootPaths → ConfirmedStateStore → SynchronizationResult → Io os.World (Unit {0})
    unfolding commit_inventories
    verify_and_commit_synchronization roots store result =
        if is_incomplete result then throw synchronization_incomplete else do
          first ← within "verify first directory" (build_inventory roots.first)
          second ← within "verify second directory" (build_inventory roots.second)
          commit_inventories roots store result first second

    module _ (validate_root_paths : RootPaths → Io os.World RootPaths)
        (scan_root : String → Io os.World (Unit {0}))
        (execute : RootPaths
          → SynchronizationPlan
          → os.World
          → os.World × SynchronizationResult) where
      abbrev pub is_directory : FileType → Bool
      is_directory FileType.directory_type = true
      is_directory t = false

      -- What the inspection of the source tells.
      unfoldable pub source_checked : String → Result FileInfo → Option Error
      source_checked source (err e) =
          if os.is_not_exist e
          then some (text_of "unidirectional source directory does not exist: %s" source)
          else some (wrap "inspect unidirectional source directory" e)
      source_checked source (ok information) =
          if is_directory information.type_of
          then none
          else some (text_of "unidirectional source is not a directory: %s" source)

      unfoldable pub validate_unidirectional_roots : RootPaths → Io os.World (Unit {0})
      unfolding source_checked
      validate_unidirectional_roots roots = do
        normalized ← validate_root_paths roots
        information ← caught (os.stat normalized.first)
        raise (source_checked normalized.first information)

      -- A destination that exists is scanned.
      unfoldable pub scan_destination : String → Result FileInfo → Io os.World (Unit {0})
      scan_destination destination (ok information) = scan_root destination
      scan_destination destination (err e) =
          if os.is_not_exist e
          then return tt
          else throw (wrap "inspect unidirectional destination" e)

      -- Behind the execution.
      unfoldable pub finish_synchronization :
          RootPaths
          → ConfirmedStateStore
          → os.World × SynchronizationResult
          → os.World × Result (Unit {0})
      unfolding verify_and_commit_synchronization
      finish_synchronization roots store (w, result) =
          if not result.completed
          then raise result.failure w
          else verify_and_commit_synchronization roots store result w

      unfoldable pub synchronize_unidirectional :
          RootPaths → ConfirmedStateStore → Io os.World (Unit {0})
      unfolding validate_unidirectional_roots scan_destination finish_synchronization
          generate_unidirectional_synchronization_plan compare_directory_inventories
      synchronize_unidirectional roots store = do
        validate_unidirectional_roots roots
        normalized ← validate_root_paths roots
        scan_root normalized.first
        destination ← caught (os.stat normalized.second)
        scan_destination normalized.second destination
        within "create unidirectional destination" (os.mkdir_all normalized.second 0o755)
        source_inventory ← build_inventory normalized.first
        destination_inventory ← build_inventory normalized.second
        plan ← lift (
            generate_unidirectional_synchronization_plan
              (compare_directory_inventories source_inventory destination_inventory))
        (λ w. finish_synchronization normalized store (execute normalized plan w))
