-- ===== src/Backup/Policy.antt =====
-- src/backup_policy.go: the roots of a backup and their inspection, and `rootContains` of
-- src/root_paths.go. `paths` stands for the functions of `path/filepath` used here alone.
pub mod Fuel
pub mod Roots
use gosync.Base.{
  ℕ, zero, suc, ◌≤◌, String, Bool, true, false, not, ◌&&◌, ◌||◌, Option, none, some, List, [], ◌∷◌,
  ◌==◌, string_Eq, if◌then◌else◌, is_blank, Error, text, text_of, wrap, wrap_of, Result, ok, err, ℤ,
  ◌<>◌,
}
use gosync.Os.{Os, FileInfo, FileType, directory_type, symlink_type, regular_type, special_type}
use gosync.Os.Monad.{
  Io, after, within_result, caught_result, attempt_result, ◌>>=◌, ◌>>◌, return, throw, within,
  caught, attempt, lift, raise,
}
use gosync.Config.Domain.{ConfigurationSnapshot, backup, validate_configuration_snapshot}
use gosync.Sync.Executor.{RootPaths}

pub record BackupRootPaths : Type 0 where
  pub source : String
  pub destination : String

pub record BackupPolicySnapshot : Type 0 where
  pub source_root : String
  pub destination_root : String
  pub interval_seconds : ℤ
  pub retention_count : ℤ

pub data BackupDestinationStatus : Type 0 where
  missing_destination directory_destination : BackupDestinationStatus

pub record Paths (os : Os) : Type 1 where
  -- `filepath.Abs`, `filepath.EvalSymlinks`, `filepath.Rel`
  pub absolute : String → Io os.World String
  pub resolve : String → Io os.World String
  pub relative : String → String → Result String
  -- `strings.EqualFold` of the two volume names
  pub same_volume : String → String → Bool
  -- Whether a relative path starts with `..` and a separator.
  pub leads_up : String → Bool
  -- `Readdirnames(-1)` of a directory's handle, and the test for `io.EOF`
  pub read_names : os.Handle → Io os.World (List String)
  pub is_eof : Error → Bool

-- The error of a read that is not the end, before the error of the close. `role` is the text for the
-- root in the errors, `backup source %q` or `backup destination %q`.
unfoldable pub read_fault :
    (Error → Bool) → String → String → Option Error → Option Error → Option Error
read_fault is_eof role root (some e) closed =
    if is_eof e
    then elim closed [ none ↦ none | some c ↦ some (wrap_of ("close " <> role) root c) ]
    else some (wrap_of ("inspect " <> role) root e)
read_fault is_eof role root none none = none
read_fault is_eof role root none (some c) = some (wrap_of ("close " <> role) root c)

-- The error for an entry that is no directory by itself.
unfoldable pub directory_fault : String → String → FileType → Option Error
directory_fault role root directory_type = none
directory_fault role root symlink_type =
    some (text_of (role <> " must not be a symbolic link") root)
directory_fault role root regular_type = some (text_of (role <> " must be a directory") root)
directory_fault role root special_type = some (text_of (role <> " must be a directory") root)

abbrev source_role : String
source_role = "backup source %q"

abbrev destination_role : String
destination_role = "backup destination %q"

unfoldable pub join_parts : (String → String → String) → String → List String → String
join_parts join root [] = root
join_parts join root (part ∷ parts) = join_parts join (join root part) parts

-- `rootContains`
unfoldable pub root_contains : {os : Os} → Paths os → String → String → Result Bool
root_contains paths parent candidate =
    if not (paths.same_volume parent candidate)
    then ok false
    else elim (paths.relative parent candidate) [
      | err e ↦ err (wrap "compare synchronization roots" e)
      | ok p ↦ if p == "." then ok true else ok (not (p == ".." || paths.leads_up p))
    ]

module _ (os : Os) (paths : Paths os) where
  -- The parts that are missing below the path, the highest one first. Fuel bounds the climb, and
  -- `none` means that it has run out.
  unfoldable pub climb : ℕ → String → List String → Io os.World (Option String)
  unfolding join_parts
  climb zero current missing = return none
  climb (suc n) current missing = caught (os.lstat current) >>= λ entry. (elim entry [
    | ok information ↦ (do
      resolved ← within "resolve backup path parent aliases" (paths.resolve current)
      return (some (os.clean (join_parts os.join_path resolved missing))))
    | err e ↦
        if not (os.is_not_exist e)
        then throw (wrap "inspect backup path parent" e)
        else if os.dir current == current
        then throw (text "backup path has no existing parent")
        else climb n (os.dir current) (os.base current ∷ missing)
  ])

  -- Behind the first look at the normalized path.
  unfoldable pub canonicalize_normalized :
      ℕ → String → Result FileInfo → Io os.World (Option String)
  unfolding climb
  canonicalize_normalized n normalized (ok information) = do
    resolved ← within "resolve backup path aliases" (paths.resolve normalized)
    return (some (os.clean resolved))
  canonicalize_normalized n normalized (err e) =
      if os.is_not_exist e then climb n normalized [] else throw (wrap "inspect backup path" e)

  unfoldable pub canonicalize_backup_path : ℕ → String → Io os.World (Option String)
  unfolding canonicalize_normalized
  canonicalize_backup_path n path =
      if is_blank path then throw (text "backup path must not be empty") else (do
        absolute_path ← within "make backup path absolute" (paths.absolute path)
        entry ← caught (os.lstat (os.clean absolute_path))
        canonicalize_normalized n (os.clean absolute_path) entry)

  -- A directory that can be opened and read; the entry's own type was looked at before.
  unfoldable pub probe_directory : String → String → Io os.World (Unit {0})
  unfolding read_fault
  probe_directory role root = do
    directory ← within ("open " <> role) (os.open_read root)
    names ← caught (paths.read_names directory)
    closed ← attempt (os.close directory)
    raise (read_fault paths.is_eof role root (elim names [ ok n ↦ none | err e ↦ some e ]) closed)

  unfoldable pub validate_backup_source : String → Io os.World (Unit {0})
  unfolding directory_fault probe_directory
  validate_backup_source root = do
    entry ← within "inspect backup source %q" (os.lstat root)
    raise (directory_fault source_role root entry.type_of)
    probe_directory source_role root

  unfoldable pub inspect_backup_destination : String → Io os.World BackupDestinationStatus
  unfolding directory_fault probe_directory
  inspect_backup_destination root = caught (os.lstat root) >>= λ entry. (elim entry [
    | err e ↦
        if os.is_not_exist e
        then return missing_destination
        else throw (wrap "inspect backup destination %q" e)
    | ok information ↦ (do
      raise (directory_fault destination_role root information.type_of)
      probe_directory destination_role root
      return directory_destination)
  ])

module _ (os : Os) (paths : Paths os) (canonicalize : String → Io os.World String) where
  unfoldable pub derive_backup_root_paths : String → String → Io os.World BackupRootPaths
  derive_backup_root_paths source_root destination_root = do
    source ← within "canonicalize backup source" (canonicalize source_root)
    destination ← within "canonicalize backup destination" (canonicalize destination_root)
    return (record { source = source; destination = destination })

  unfoldable pub build_backup_policy_snapshot :
      RootPaths → ConfigurationSnapshot → Io os.World BackupPolicySnapshot
  unfolding derive_backup_root_paths
  build_backup_policy_snapshot roots configuration =
      if not (configuration.mode == backup)
      then throw (text "backup policy requires BACKUP mode")
      else elim (validate_configuration_snapshot configuration) [
        | some e ↦ throw (wrap "validate backup configuration" e)
        | none ↦ (do
          derived ← derive_backup_root_paths roots.first roots.second
          return (record {
            source_root = derived.source;
            destination_root = derived.destination;
            interval_seconds = configuration.interval_seconds;
            retention_count = configuration.retention_count;
          }))
      ]

  -- The configuration is in neither root.
  unfoldable pub reject_configuration : String → List String → Io os.World (Unit {0})
  unfolding root_contains
  reject_configuration path [] = return tt
  reject_configuration path (root ∷ roots) = do
    inside ← lift (root_contains paths root path)
    (if inside
        then throw (text_of "configuration path %q is inside backup root %q" root)
        else reject_configuration path roots)

  unfoldable pub outside_configuration : BackupRootPaths → String → Io os.World BackupRootPaths
  unfolding reject_configuration
  outside_configuration roots configuration_path = do
    configuration ← within "canonicalize configuration path" (canonicalize configuration_path)
    reject_configuration configuration (roots.source ∷ roots.destination ∷ [])
    return roots

  unfoldable pub separate_roots : BackupRootPaths → String → Io os.World BackupRootPaths
  unfolding outside_configuration root_contains
  separate_roots roots configuration_path = do
    first ← lift (root_contains paths roots.source roots.destination)
    second ← lift (root_contains paths roots.destination roots.source)
    (if first || second
        then throw (text "backup roots must be distinct and not nested")
        else outside_configuration roots configuration_path)

  unfoldable pub validate_backup_root_paths : String → String → String → Io os.World BackupRootPaths
  unfolding derive_backup_root_paths separate_roots validate_backup_source
      inspect_backup_destination
  validate_backup_root_paths source_root destination_root configuration_path = do
    validate_backup_source os paths source_root
    status ← inspect_backup_destination os paths destination_root
    roots ← derive_backup_root_paths source_root destination_root
    separate_roots roots configuration_path
