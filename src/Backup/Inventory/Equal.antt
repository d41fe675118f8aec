-- ===== src/Backup/Inventory/Equal.antt =====
-- The comparison of two inventories of src/backup_inventory.go.
use mathlib.Core.Path.{subst}
use package.text.Mathlib.TextEquality.{eq_iff}
use gosync.Base.{
  true, none, List, [], ◌∷◌, nat_Eq, string_Eq, length, ◌≡◌, refl, ◌↔◌, beq_self, arith,
}
use gosync.Backup.Inventory.{
  BackupInventoryEntryKind, BackupInventoryEntry, BackupLogicalInventory, file, directory,
  inventory_kind_eq, entry_eq, entries_eq, backup_logical_inventories_equal,
  verify_backup_source_stability,
}

inventory_kind_eq_sound : (j k : BackupInventoryEntryKind) → inventory_kind_eq j k ≡ true → j ≡ k
inventory_kind_eq_sound file file h = refl
inventory_kind_eq_sound directory directory h = refl
inventory_kind_eq_sound file directory h = cc
inventory_kind_eq_sound directory file h = cc

inventory_kind_eq_self : (k : BackupInventoryEntryKind) → inventory_kind_eq k k ≡ true
inventory_kind_eq_self file = refl
inventory_kind_eq_self directory = refl

entry_eq_sound : (a b : BackupInventoryEntry) → entry_eq a b ≡ true → a ≡ b
unfolding entry_eq
entry_eq_sound a b h =
    let p : a.relative_path ≡ b.relative_path =
      (eq_iff a.relative_path b.relative_path).0 (ground arith) in
    let k : a.kind ≡ b.kind = inventory_kind_eq_sound a.kind b.kind (ground arith) in
    let d : a.content_digest ≡ b.content_digest =
      (eq_iff a.content_digest b.content_digest).0 (ground arith) in
    λ i. record { relative_path = p i; kind = k i; content_digest = d i }

entry_eq_self : (a : BackupInventoryEntry) → entry_eq a a ≡ true
unfolding entry_eq
entry_eq_self a =
    rw (beq_self a.relative_path)
      (rw (beq_self a.content_digest) (rw (inventory_kind_eq_self a.kind) refl))

entries_eq_sound : (xs ys : List BackupInventoryEntry) → entries_eq xs ys ≡ true → xs ≡ ys
unfolding entries_eq
entries_eq_sound [] [] h = refl
entries_eq_sound [] (y ∷ ys) h = cc
entries_eq_sound (x ∷ xs) [] h = cc
entries_eq_sound (x ∷ xs) (y ∷ ys) h =
    let e = entry_eq_sound x y (ground arith) in
    let r = entries_eq_sound xs ys (ground arith) in λ i. e i ∷ r i

entries_eq_self : (xs : List BackupInventoryEntry) → entries_eq xs xs ≡ true
unfolding entries_eq
entries_eq_self [] = refl
entries_eq_self (x ∷ xs) = rw (entry_eq_self x) (entries_eq_self xs)

inventories_equal_sound :
    (a b : BackupLogicalInventory) → backup_logical_inventories_equal a b ≡ true → a ≡ b
unfolding backup_logical_inventories_equal
inventories_equal_sound a b h =
    let d : a.digest ≡ b.digest = (eq_iff a.digest b.digest).0 (ground arith) in
    let es = entries_eq_sound a.entries b.entries (ground arith) in
    λ i. record { entries = es i; digest = d i }

-- Two inventories compare as equal exactly if they are the same.
pub backup_logical_inventories_equal_iff :
    (a b : BackupLogicalInventory) → (backup_logical_inventories_equal a b ≡ true) ↔ (a ≡ b)
unfolding backup_logical_inventories_equal
backup_logical_inventories_equal_iff a b = (
  inventories_equal_sound a b,
  λ e.
      subst (λ x. backup_logical_inventories_equal a x ≡ true) e
        (rw (beq_self a.digest) (rw (beq_self (length a.entries)) (entries_eq_self a.entries))),
)

-- A source counts as stable exactly if the inventories before, in and after the archive are the same.
pub verify_backup_source_stability_iff :
    (initial archived final : BackupLogicalInventory)
    → (verify_backup_source_stability initial archived final ≡ none)
      ↔ ((initial ≡ archived) × (initial ≡ final))
unfolding verify_backup_source_stability
verify_backup_source_stability_iff initial archived final = (
  (λ h. (
    (backup_logical_inventories_equal_iff initial archived).0 (ground arith),
    (backup_logical_inventories_equal_iff initial final).0 (ground arith),
  )),
  λ (p, q).
      let a = (backup_logical_inventories_equal_iff initial archived).1 p in
      let b = (backup_logical_inventories_equal_iff initial final).1 q in ground arith,
)
