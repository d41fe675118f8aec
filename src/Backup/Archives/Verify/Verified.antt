-- ===== src/Backup/Archives/Verify/Verified.antt =====
-- What the verification of src/backup_archive.go says of an archive.
use gosync.Base.{
  String, Bool, true, false, Option, none, some, List, [], ◌∷◌, if◌then◌else◌, contains, string_Eq,
  Error, Result, ok, ◌≡◌, refl, ap, ◌∙◌, ◌==◌, nat_Eq, Option-cases, arith, Bool-cases, inl, inr,
}
use gosync.Os.{Os, FileType}
use gosync.Os.Monad.{Io, within_result, raise, after_ok, within_ok, within_value}
use gosync.Os.Monad.Holds.{raise_pair}
use gosync.Backup.Identity.{BackupArchiveIdentity, validate_backup_archive_identity}
use gosync.Backup.Identity.Same.{expected_identity_lem}
use gosync.Backup.Archives.{Archives, then_closed}
use gosync.Backup.Inventory.{
  BackupInventoryEntry, BackupLogicalInventory, backup_logical_inventories_equal,
}
use gosync.Backup.Inventory.Equal.{backup_logical_inventories_equal_iff}
use gosync.Backup.Archives.Verify.{
  Names, validate_backup_archive_entry_name, collect_entries, entry_of_file, inventory_of,
  compare_inventory, identity_fault, verify_open_archive, verify_backup_archive,
}

-- Each name passes the test of entry names and differs from those before it.
abbrev pub Admissible : Names → List String → List String → Type 0
Admissible names seen [] = Unit
Admissible names seen (n ∷ ns) =
    (validate_backup_archive_entry_name names n (names.ends_in_slash n) ≡ none)
    × ((contains n seen ≡ false) × Admissible names (n ∷ seen) ns)

raise_value : {W : Type 0} (o : Option Error) (w : W) → (raise o w).1 ≡ ok tt → o ≡ none
raise_value none w h = refl
raise_value (some e) w h = cc

raised_none : {W : Type 0} (o : Option Error) (w : W) (v : W) → raise o w ≡ (v, ok tt) → o ≡ none
raised_none o w v h = (raise_pair o w v h).0

fresh_name : (b : Bool) (e : Error) → (if b then some e else none) ≡ none → b ≡ false
fresh_name true e h = cc
fresh_name false e h = refl

module _ (os : Os) (archives : Archives os) (names : Names)
    (file_type : archives.Reader → String → FileType)
    (hash_stream : archives.Stream → Io os.World String) (sum : String → String)
    (nul : String) where
  -- The identity and the inventory are the expected ones, and the names are admissible.
  pub record IsVerified (path : String) (expected : BackupArchiveIdentity)
      (inventory : BackupLogicalInventory) (w : os.World) : Type 0 where
    pub reader : archives.Reader
    pub collecting : os.World
    pub opened : archives.open_archive path w ≡ (collecting, ok reader)
    pub decoded : archives.decode_identity (archives.comment reader) ≡ ok expected
    pub admissible : Admissible names [] (archives.files reader)
    pub entries : List BackupInventoryEntry
    pub collected :
        (collect_entries os archives names file_type hash_stream sum nul reader []
          (archives.files reader)
          collecting).1
        ≡ ok entries
    pub same : inventory_of os archives names file_type hash_stream sum nul entries ≡ inventory

  collected-Admissible :
      (reader : archives.Reader) (seen ns : List String) (w : os.World)
      (es : List BackupInventoryEntry)
      → (collect_entries os archives names file_type hash_stream sum nul reader seen ns w).1 ≡ ok es
      → Admissible names seen ns
  unfolding collect_entries
  collected-Admissible reader seen [] w es h = tt
  collected-Admissible reader seen (n ∷ ns) w es h =
      let (_, (w1, (named, h))) =
        after_ok (raise (validate_backup_archive_entry_name names n (names.ends_in_slash n)) w) _ es
          h in
      let (_, (w2, (new, h))) =
        after_ok (raise (if contains n seen then some _ else none) w1) _ es h in
      let (_, (w3, (_, h))) =
        after_ok
          (entry_of_file os archives names file_type hash_stream sum nul reader n
            (names.ends_in_slash n) (file_type reader n) w2)
          _ es h in
      let (rest, (w4, (e, h))) =
        after_ok
          (collect_entries os archives names file_type hash_stream sum nul reader (n ∷ seen) ns w3)
          _ es h in
      (
        raised_none _ w w1 named,
        (
          fresh_name (contains n seen) _ (raised_none _ w1 w2 new),
          collected-Admissible reader (n ∷ seen) ns w3 rest (ap (λ x. x.1) e),
        ),
      )

  compared :
      (inventory : BackupLogicalInventory) (entries : List BackupInventoryEntry)
      → compare_inventory os archives names file_type hash_stream sum nul inventory entries ≡ none
      → inventory_of os archives names file_type hash_stream sum nul entries ≡ inventory
  unfolding compare_inventory
  compared inventory entries h =
      elim (Bool-cases (
        backup_logical_inventories_equal
          (inventory_of os archives names file_type hash_stream sum nul entries) inventory)) [
            | inl b ↦
                (backup_logical_inventories_equal_iff
                    (inventory_of os archives names file_type hash_stream sum nul entries)
                    inventory).0
                  b
            | inr b ↦ absurd (ground arith)
          ]

  closed_value :
      (close : Io os.World (Unit {0})) (x : os.World × Result (Unit {0}))
      → (then_closed close x).1 ≡ ok tt
      → x.1 ≡ ok tt
  unfolding then_closed
  closed_value close (w, r) h = h

  matching_identity :
      (expected i : BackupArchiveIdentity)
      → validate_backup_archive_identity expected "" "" 0 "" ≡ none
      → identity_fault os archives names file_type hash_stream sum nul expected i ≡ none
      → i ≡ expected
  matching_identity expected i valid h =
      elim (Option-cases (
        validate_backup_archive_identity i expected.source_path expected.destination_path
          expected.confirmation_order expected.inventory_digest)) [
            | inr (e, k) ↦ absurd (ground arith)
            | inl k ↦ elim (Bool-cases (i.archive_id == expected.archive_id)) [
              | inr b ↦ absurd (ground arith)
              | inl b ↦ elim (Bool-cases (i.created_at == expected.created_at)) [
                | inr c ↦ absurd (ground arith)
                | inl c ↦
                    expected_identity_lem i expected valid k
                      ((string_Eq.beq_iff i.archive_id expected.archive_id).0 b)
                      ((nat_Eq.beq_iff i.created_at expected.created_at).0 c)
              ]
            ]
          ]

  -- If the expected identity is valid, an archive that is verified has exactly that identity, only admissible
  -- names that do not repeat, and an inventory of its entries that is the expected one.
  pub verify_backup_archive-IsVerified :
      (path : String) (expected : BackupArchiveIdentity) (inventory : BackupLogicalInventory)
      (w : os.World)
      → validate_backup_archive_identity expected "" "" 0 "" ≡ none
      → (verify_backup_archive os archives names file_type hash_stream sum nul path expected
          inventory w).1
        ≡ ok tt
      → IsVerified path expected inventory w
  unfolding verify_backup_archive verify_open_archive
  verify_backup_archive-IsVerified path expected inventory w valid h =
      let (reader, (w1, (opened, h))) =
        after_ok (within_result "open backup archive" (archives.open_archive path w)) _ tt h in
      let h =
        closed_value (archives.close_archive reader)
          (verify_open_archive os archives names file_type hash_stream sum nul expected inventory
            reader w1)
          h in
      let (identity, (w2, (decoded, h))) =
        after_ok
          (within_result "decode backup archive identity"
            (w1, archives.decode_identity (archives.comment reader)))
          _ tt h in
      let (_, (w3, (matching, h))) =
        after_ok
          (raise (identity_fault os archives names file_type hash_stream sum nul expected identity)
            w2)
          _ tt h in
      let (entries, (w4, (collected, h))) =
        after_ok
          (collect_entries os archives names file_type hash_stream sum nul reader []
            (archives.files reader) w3)
          _ tt h in
      record {
        reader = reader;
        opened =
            within_ok "open backup archive" (archives.open_archive path w) w1 reader opened
            ∙ ap (λ x. (x, ok reader))
                (ap (λ x. x.0)
                    (within_ok "decode backup archive identity"
                      (w1, archives.decode_identity (archives.comment reader)) w2 identity decoded)
                  ∙ (raise_pair _ w2 w3 matching).1);
        decoded =
            within_value "decode backup archive identity"
              (w1, archives.decode_identity (archives.comment reader)) identity
              (ap (λ x. x.1) decoded)
            ∙ ap (λ i. ok i)
                (matching_identity expected identity valid (raised_none _ w2 w3 matching));
        admissible =
            collected-Admissible reader [] (archives.files reader) w3 entries
              (ap (λ x. x.1) collected);
        entries = entries;
        collecting = w3;
        collected = ap (λ x. x.1) collected;
        same = compared inventory entries ((raise_value _ w4 h));
      }
