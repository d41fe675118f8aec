-- ===== src/Backup/Inventory.antt =====
-- src/backup_inventory.go: the logical inventory of a source, and its comparison. `walk_dir` stands
-- for `filepath.WalkDir`, which visits the entries below a root one by one until a visit fails.
pub mod Equal
use gosync.Base.{
  ℕ, String, Bool, true, false, not, ◌&&◌, ◌||◌, Option, none, some, List, [], ◌∷◌, ◌++◌, ◌==◌,
  nat_Eq, string_Eq, nat_eq, length, if◌then◌else◌, str_ltb, Error, text, text_of, wrap, wrap_of,
  Result, ok, err, ◌<>◌, ◌≡◌, refl, ◌↔◌, beq_self, arith, Bool-cases, inl, inr, ap,
}
use gosync.Os.{Os, FileInfo, FileType, directory_type, regular_type, symlink_type, special_type}
use gosync.Os.Monad.{
  Io, after, within_result, caught_result, attempt_result, ◌>>=◌, return, throw, within, caught,
  attempt, lift,
}

pub data BackupInventoryEntryKind : Type 0 where
  file directory : BackupInventoryEntryKind

pub record BackupInventoryEntry : Type 0 where
  pub relative_path : String
  pub kind : BackupInventoryEntryKind
  pub content_digest : String

pub record BackupLogicalInventory : Type 0 where
  pub entries : List BackupInventoryEntry
  pub digest : String

abbrev pub kind_name : BackupInventoryEntryKind → String
kind_name file = "file"
kind_name directory = "directory"

abbrev pub inventory_kind_eq : BackupInventoryEntryKind → BackupInventoryEntryKind → Bool
inventory_kind_eq file file = true
inventory_kind_eq directory directory = true
inventory_kind_eq _ _ = false

unfoldable pub entry_eq : BackupInventoryEntry → BackupInventoryEntry → Bool
entry_eq a b =
    a.relative_path == b.relative_path
    && inventory_kind_eq a.kind b.kind
    && a.content_digest == b.content_digest

-- The loop over the indices, behind the test of the lengths.
unfoldable pub entries_eq : List BackupInventoryEntry → List BackupInventoryEntry → Bool
unfolding entry_eq
entries_eq [] [] = true
entries_eq (a ∷ rest) (b ∷ others) = entry_eq a b && entries_eq rest others
entries_eq _ _ = false

unfoldable pub backup_logical_inventories_equal :
    BackupLogicalInventory → BackupLogicalInventory → Bool
unfolding entries_eq
backup_logical_inventories_equal a b =
    if not (a.digest == b.digest) || not (length a.entries == length b.entries)
    then false
    else entries_eq a.entries b.entries

-- What is hashed: the three texts of an entry with zero bytes between them, and a new line. `nul` is
-- the text of the zero byte.
unfoldable pub digest_text : String → List BackupInventoryEntry → String
digest_text nul [] = ""
digest_text nul (e ∷ es) =
    e.relative_path
    <> nul
    <> kind_name e.kind
    <> nul
    <> e.content_digest
    <> "\n"
    <> digest_text nul es

unfoldable pub insert_path :
    BackupInventoryEntry → List BackupInventoryEntry → List BackupInventoryEntry
insert_path e [] = e ∷ []
insert_path e (x ∷ xs) =
    let rest = insert_path e xs in
    if str_ltb e.relative_path x.relative_path then e ∷ x ∷ xs else x ∷ rest

unfoldable pub sort_paths : List BackupInventoryEntry → List BackupInventoryEntry
unfolding insert_path
sort_paths [] = []
sort_paths (e ∷ es) = insert_path e (sort_paths es)

-- `verifyBackupSourceStability` of src/backup_recovery_retention.go
unfoldable pub verify_backup_source_stability :
    BackupLogicalInventory → BackupLogicalInventory → BackupLogicalInventory → Option Error
unfolding backup_logical_inventories_equal
verify_backup_source_stability initial archived final =
    if not (backup_logical_inventories_equal initial archived)
      || not (backup_logical_inventories_equal initial final)
    then some (text "backup source changed during archive creation")
    else none

-- A visit of the walk: the path, the walk's own error, the type of the entry, and its information.
pub record Visit (World : Type 0) : Type 0 where
  pub path : String
  pub walk_error : Option Error
  pub type_of : FileType
  pub information : Io World FileInfo

module _ (os : Os) (is_locked : Error → Bool) (hash_of : os.Handle → Io os.World String)
    (sum : String → String) (nul : String) (relative : String → String → Result String)
    (to_slash : String → String)
    (walk_dir : String
      → (Visit os.World → List BackupInventoryEntry → Io os.World (List BackupInventoryEntry))
      → List BackupInventoryEntry
      → Io os.World (List BackupInventoryEntry)) where
  abbrev pub unsupported : String → Error
  unsupported path = text_of "backup inventory unsupported-entry at %q" path

  unfoldable pub classify_backup_inventory_error : String → Error → Error
  classify_backup_inventory_error path e =
      if is_locked e
      then wrap_of "backup inventory blocked-entry at %q" path e
      else wrap_of "inspect backup inventory entry %q" path e

  -- The first error of a call, classified.
  abbrev pub classified : {A : Type 0} → String → Result A → Io os.World A
  classified path (ok a) = return a
  classified path (err e) = throw (classify_backup_inventory_error path e)

  unfoldable pub backup_file_content_digest : String → Io os.World String
  unfolding classify_backup_inventory_error
  backup_file_content_digest path = do
    opened ← caught (os.open_read path)
    handle ← classified path opened
    copied ← caught (hash_of handle)
    closed ← caught (os.close handle)
    digest ← classified path copied
    ended ← classified path closed
    return digest

  -- The entry for a path by the type of its information.
  unfoldable pub typed_entry : String → String → FileType → Io os.World BackupInventoryEntry
  unfolding backup_file_content_digest
  typed_entry path name directory_type =
      return (record { relative_path = name; kind = directory; content_digest = "" })
  typed_entry path name regular_type = do
    digest ← backup_file_content_digest path
    return (record { relative_path = name; kind = file; content_digest = digest })
  typed_entry path name symlink_type = throw (unsupported path)
  typed_entry path name special_type = throw (unsupported path)

  -- An entry below the root that the walk could read.
  unfoldable pub visit_entry :
      String → Visit os.World → List BackupInventoryEntry → Io os.World (List BackupInventoryEntry)
  unfolding typed_entry classify_backup_inventory_error
  visit_entry root v entries = do
    read ← caught v.information
    information ← classified v.path read
    name ← within "get backup inventory relative path" (lift (relative root v.path))
    entry ← typed_entry v.path (to_slash name) information.type_of
    return (entries ++ entry ∷ [])

  abbrev pub is_link : FileType → Bool
  is_link symlink_type = true
  is_link t = false

  -- The function that the walk calls.
  unfoldable pub visit :
      String → Visit os.World → List BackupInventoryEntry → Io os.World (List BackupInventoryEntry)
  unfolding visit_entry classify_backup_inventory_error
  visit root v entries = elim v.walk_error [
    | some e ↦ throw (classify_backup_inventory_error v.path e)
    | none ↦
        if v.path == root
        then return entries
        else if is_link v.type_of
        then throw (unsupported v.path)
        else visit_entry root v entries
  ]

  unfoldable pub root_error : String → FileType → Option Error
  root_error root directory_type = none
  root_error root symlink_type = some (unsupported root)
  root_error root regular_type = some (text_of "backup inventory root %q must be a directory" root)
  root_error root special_type = some (text_of "backup inventory root %q must be a directory" root)

  unfoldable pub build_backup_logical_inventory : String → Io os.World BackupLogicalInventory
  unfolding visit root_error sort_paths digest_text
  build_backup_logical_inventory root = do
    information ← within "inspect backup inventory root %q" (os.lstat root)
    (elim (root_error root information.type_of) [
      | some e ↦ throw e
      | none ↦ (do
        entries ← within "build backup logical inventory for %q" (walk_dir root (visit root) [])
        return (record {
          entries = sort_paths entries;
          digest = sum (digest_text nul (sort_paths entries));
        }))
    ])
