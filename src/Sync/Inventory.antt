-- ===== src/Sync/Inventory.antt =====
-- src/directory_inventory.go: inventories and their comparison. An inventory is a Go map: a list of
-- pairs in the order in which one iteration visits them. The walk that fills it is a parameter of
-- its callers.
pub mod Laws
pub mod Equivalence
use gosync.Base.{
  ℕ, String, Bool, true, false, ◌&&◌, ◌||◌, not, Option, none, some, List, [], ◌∷◌, ◌++◌, map, ◌==◌,
  string_Eq, nat_Eq, if◌then◌else◌, length, lookup, contains, sort_strings, insert_text,
}
use gosync.Sync.Domain.{SynchronizationEntry, EntryComparison, EntryKind, kind_eq}

abbrev pub DirectoryInventory : Type 0
DirectoryInventory = List (String × SynchronizationEntry)

unfoldable pub inventory_entry : DirectoryInventory → String → Option SynchronizationEntry
unfolding lookup
inventory_entry inventory path = lookup path inventory

-- The keys of a set that is filled from a list: each path once.
unfoldable pub path_set : List String → List String
path_set [] = []
path_set (p ∷ ps) = let rest = path_set ps in if contains p rest then rest else p ∷ rest

unfoldable pub sorted_paths : DirectoryInventory → DirectoryInventory → List String
unfolding path_set sort_strings
sorted_paths first second =
    sort_strings (path_set (map (λ (p, _). p) first ++ map (λ (p, _). p) second))

unfoldable pub compare_path : DirectoryInventory → DirectoryInventory → String → EntryComparison
unfolding inventory_entry
compare_path first second path = record {
  relative_path = path;
  first = inventory_entry first path;
  second = inventory_entry second path;
  confirmed = none;
}

unfoldable pub compare_directory_inventories :
    DirectoryInventory → DirectoryInventory → List EntryComparison
unfolding compare_path sorted_paths
compare_directory_inventories first second =
    map (compare_path first second) (sorted_paths first second)

-- The body of the loop over the first inventory: false where the source returns false.
unfoldable pub entry_matches : DirectoryInventory → String × SynchronizationEntry → Bool
unfolding inventory_entry kind_eq
entry_matches second (path, a) = elim (inventory_entry second path) [
  | none ↦ false
  | some b ↦
      a.relative_path == b.relative_path
      && kind_eq a.kind b.kind
      && (not (kind_eq a.kind EntryKind.file) || a.content_digest == b.content_digest)
]

unfoldable pub entries_match : DirectoryInventory → DirectoryInventory → Bool
unfolding entry_matches
entries_match [] second = true
entries_match (e ∷ first) second = entry_matches second e && entries_match first second

unfoldable pub inventories_have_equivalent_contents : DirectoryInventory → DirectoryInventory → Bool
unfolding entries_match
inventories_have_equivalent_contents first second =
    if length first == length second then entries_match first second else false
