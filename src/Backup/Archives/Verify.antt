-- ===== src/Backup/Archives/Verify.antt =====
-- Of src/backup_archive.go: the names of entries and the verification of an archive. `names` stands for the
-- functions on paths and texts of the Go library, and `file_type` and `hash_stream` for what
-- `archive/zip` tells of a file of an archive.
pub mod Verified
use gosync.Base.{
  String, Bool, true, false, not, ◌&&◌, ◌||◌, Option, none, some, List, [], ◌∷◌, ◌==◌, string_Eq,
  nat_Eq, codes, contains, if◌then◌else◌, Error, text, text_of, wrap, Result, ok, err,
}
use gosync.Os.{Os, FileType, directory_type, regular_type, symlink_type, special_type}
use gosync.Os.Monad.{
  Io, after, within_result, caught_result, attempt_result, ◌>>=◌, ◌>>◌, return, throw, within,
  caught, attempt, lift, raise,
}
use gosync.Backup.Identity.{BackupArchiveIdentity, validate_backup_archive_identity}
use gosync.Backup.Archives.{Archives, deferring, then_closed, copied_and_closed}
use gosync.Backup.Inventory.{
  BackupInventoryEntry, BackupLogicalInventory, file, directory, sort_paths, digest_text,
  backup_logical_inventories_equal,
}

pub record Names : Type 0 where
  -- `strings.Contains(name, "\\")`, `strings.HasPrefix(name, "/")`, `strings.HasPrefix(name, "../")`
  pub has_backslash : String → Bool
  pub is_rooted : String → Bool
  pub leads_up : String → Bool
  -- `filepath.IsAbs(filepath.FromSlash(name))`
  pub is_absolute : String → Bool
  -- `strings.HasSuffix(name, "/")` and `strings.TrimSuffix(name, "/")`
  pub ends_in_slash : String → Bool
  pub without_slash : String → String
  -- `path.Clean`
  pub clean : String → String

abbrev pub differ : Bool → Bool → Bool
differ true b = not b
differ false b = b

unfoldable pub validate_backup_archive_entry_name : Names → String → Bool → Option Error
validate_backup_archive_entry_name names name is_directory =
    if name == "" || names.has_backslash name || names.is_rooted name || names.is_absolute name
    then some (text_of "unsafe backup archive entry name %q" name)
    else if differ is_directory (names.ends_in_slash name) || names.without_slash name == ""
    then some (text_of "invalid backup archive entry type for %q" name)
    else if names.clean (names.without_slash name) == "."
        || names.clean (names.without_slash name) == ".."
        || names.leads_up (names.clean (names.without_slash name))
        || not (names.clean (names.without_slash name) == names.without_slash name)
    then some (text_of "ambiguous backup archive entry name %q" name)
    else none

module _ (os : Os) (archives : Archives os) (names : Names)
    (file_type : archives.Reader → String → FileType)
    (hash_stream : archives.Stream → Io os.World String) (sum : String → String)
    (nul : String) where
  unfoldable pub hash_file : archives.Reader → String → Io os.World String
  unfolding copied_and_closed
  hash_file reader name = do
    stream ← within "open backup archive entry %q" (archives.open_file reader name)
    copied ← caught (hash_stream stream)
    closed ← attempt (archives.close_file stream)
    copied_and_closed "read backup archive entry %q" "close backup archive entry %q" copied closed

  -- The switch on the slash and on the type of the file.
  unfoldable pub entry_of_file :
      archives.Reader → String → Bool → FileType → Io os.World BackupInventoryEntry
  unfolding hash_file
  entry_of_file reader name true directory_type =
      return
        (record { relative_path = names.without_slash name; kind = directory; content_digest = "" })
  entry_of_file reader name true regular_type =
      throw (text_of "unsupported backup archive entry %q" name)
  entry_of_file reader name true symlink_type =
      throw (text_of "unsupported backup archive entry %q" name)
  entry_of_file reader name true special_type =
      throw (text_of "unsupported backup archive entry %q" name)
  entry_of_file reader name false directory_type =
      throw (text_of "unsupported backup archive entry %q" name)
  entry_of_file reader name false regular_type = do
    digest ← hash_file reader name
    return
        (record { relative_path = names.without_slash name; kind = file; content_digest = digest })
  entry_of_file reader name false symlink_type =
      throw (text_of "unsupported backup archive entry %q" name)
  entry_of_file reader name false special_type =
      throw (text_of "unsupported backup archive entry %q" name)

  -- The loop over the files; `seen` are the names before.
  unfoldable pub collect_entries :
      archives.Reader → List String → List String → Io os.World (List BackupInventoryEntry)
  unfolding entry_of_file validate_backup_archive_entry_name
  collect_entries reader seen [] = return []
  collect_entries reader seen (name ∷ rest) = do
    raise (validate_backup_archive_entry_name names name (names.ends_in_slash name))
    raise (
        if contains name seen
        then some (text_of "duplicate backup archive entry %q" name)
        else none)
    entry ← entry_of_file reader name (names.ends_in_slash name) (file_type reader name)
    entries ← collect_entries reader (name ∷ seen) rest
    return (entry ∷ entries)

  abbrev pub inventory_of : List BackupInventoryEntry → BackupLogicalInventory
  inventory_of entries = record {
    entries = sort_paths entries;
    digest = sum (digest_text nul (sort_paths entries));
  }

  unfoldable pub compare_inventory :
      BackupLogicalInventory → List BackupInventoryEntry → Option Error
  unfolding sort_paths digest_text backup_logical_inventories_equal
  compare_inventory expected entries =
      if backup_logical_inventories_equal (inventory_of entries) expected
      then none
      else some (text "backup archive logical inventory does not match expected source")

  abbrev pub identity_fault : BackupArchiveIdentity → BackupArchiveIdentity → Option Error
  identity_fault expected i =
      elim (validate_backup_archive_identity i expected.source_path expected.destination_path
        expected.confirmation_order expected.inventory_digest) [
          | some e ↦ some e
          | none ↦
              if not (i.archive_id == expected.archive_id)
                || not (i.created_at == expected.created_at)
              then some (text "backup archive identity does not match expected archive")
              else none
        ]

  -- The tests of an open archive.
  unfoldable pub verify_open_archive :
      BackupArchiveIdentity → BackupLogicalInventory → archives.Reader → Io os.World (Unit {0})
  unfolding collect_entries compare_inventory
  verify_open_archive expected inventory reader = do
    identity ←
        within "decode backup archive identity"
          (lift (archives.decode_identity (archives.comment reader)))
    raise (identity_fault expected identity)
    entries ← collect_entries reader [] (archives.files reader)
    raise (compare_inventory inventory entries)

  unfoldable pub verify_backup_archive :
      String → BackupArchiveIdentity → BackupLogicalInventory → Io os.World (Unit {0})
  unfolding verify_open_archive then_closed
  verify_backup_archive path expected inventory = do
    reader ← within "open backup archive" (archives.open_archive path)
    deferring (archives.close_archive reader) (verify_open_archive expected inventory reader)
