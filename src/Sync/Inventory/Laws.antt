-- ===== src/Sync/Inventory/Laws.antt =====
-- The paths that the comparison of src/directory_inventory.go lists.
use gosync.Base.{
  String, true, ◌||◌, none, List, [], ◌∷◌, ◌++◌, map, ◌==◌, string_Eq, contains, sort_strings,
  insert_text, ◌≡◌, refl, ◌≢◌, arith, ◌⊎◌, inl, inr, ◌∙◌, Bool-cases,
}
use text.Mathlib.TextEquality.{eq_iff}
use gosync.Sync.Inventory.{DirectoryInventory, inventory_entry, path_set, sorted_paths}

contains-insert_text :
    (q s : String) (ts : List String) → contains q (insert_text s ts) ≡ (s == q || contains q ts)
unfolding insert_text
contains-insert_text q s [] = refl
contains-insert_text q s (t ∷ ts) = ground (arith, contains-insert_text q s ts)

contains-sort_strings :
    (q : String) (ts : List String) → contains q (sort_strings ts) ≡ contains q ts
unfolding sort_strings
contains-sort_strings q [] = refl
contains-sort_strings q (t ∷ ts) =
    contains-insert_text q t (sort_strings ts) ∙ ground (arith, contains-sort_strings q ts)

contains-path_set : (q : String) (ps : List String) → contains q (path_set ps) ≡ contains q ps
unfolding path_set
contains-path_set q [] = refl
contains-path_set q (p ∷ ps) = ground (arith, eq_iff p q, contains-path_set q ps)

contains-append :
    (q : String) (xs ys : List String) → contains q (xs ++ ys) ≡ (contains q xs || contains q ys)
contains-append q [] ys = refl
contains-append q (x ∷ xs) ys = ground (arith, contains-append q xs ys)

pub contains-keys :
    (q : String) (m : DirectoryInventory)
    → inventory_entry m q ≢ none
    → contains q (map (λ (p, _). p) m) ≡ true
unfolding inventory_entry
contains-keys q [] h = absurd (h refl)
contains-keys q ((p, e) ∷ m) h = elim (Bool-cases (p == q)) [
  | inl k ↦ rw k
  | inr k ↦ rw k (contains-keys q m (λ n. h (rw k n)))
]

-- Every path of either inventory is listed.
pub sorted_paths-contains :
    (a b : DirectoryInventory) (q : String)
    → (inventory_entry a q ≢ none) ⊎ (inventory_entry b q ≢ none)
    → contains q (sorted_paths a b) ≡ true
unfolding sorted_paths
sorted_paths-contains a b q h =
    contains-sort_strings q _ ∙ contains-path_set q _ ∙ contains-append q _ _ ∙ both h
  where
    both :
        (inventory_entry a q ≢ none) ⊎ (inventory_entry b q ≢ none)
        → (contains q (map (λ (p, _). p) a) || contains q (map (λ (p, _). p) b)) ≡ true
    both (inl k) = rw (contains-keys q a k)
    both (inr k) = ground (arith, contains-keys q b k)
