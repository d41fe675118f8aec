-- ===== src/Sync/Inventory/Equivalence.antt =====
-- What equivalent inventories of src/directory_inventory.go have in common.
use package.text.Mathlib.TextEquality.{eq_iff}
use mathlib.Core.Path.{subst}
use gosync.Base.{
  String, true, false, none, some, List, [], ◌∷◌, ◌==◌, string_Eq, nat_Eq, if◌then◌else◌, ◌≡◌, refl,
  arith, Bool-cases, inl, inr, sym, length, contains, map, beq_self, ◌+◌, Option-cases, ◌≢◌,
}
use gosync.Sync.Domain.{SynchronizationEntry}
use gosync.Sync.Inventory.{
  DirectoryInventory, inventory_entry, entry_matches, entries_match,
  inventories_have_equivalent_contents,
}
use gosync.Sync.Inventory.Laws.{contains-keys}
use gosync.Sync.Effect.{agrees}

-- An entry that matches agrees with what the other inventory has at its path.
entry_matches-agrees :
    (b : DirectoryInventory) (p : String) (x : SynchronizationEntry)
    → entry_matches b (p, x) ≡ true
    → agrees (some x) (inventory_entry b p) ≡ true
unfolding entry_matches agrees
entry_matches-agrees b p x h = ground arith

entries_match-agrees :
    (a b : DirectoryInventory) (p : String) (x : SynchronizationEntry)
    → entries_match a b ≡ true
    → inventory_entry a p ≡ some x
    → agrees (some x) (inventory_entry b p) ≡ true
unfolding entries_match inventory_entry
entries_match-agrees [] b p x h e = absurd cc
entries_match-agrees ((q, y) ∷ a) b p x h e = elim (Bool-cases (q == p)) [
  | inl k ↦
      let same : q ≡ p = (eq_iff q p).0 k in
      let is_x : y ≡ x = ground arith in
      subst (λ r. agrees (some x) (inventory_entry b r) ≡ true) same
        (entry_matches-agrees b q x
          (subst (λ z. entry_matches b (q, z) ≡ true) is_x (ground arith)))
  | inr k ↦ entries_match-agrees a b p x (ground arith) (ground arith)
]

-- The first occurrence of a path taken out.
abbrev erase_path : String → List String → List String
erase_path x [] = []
erase_path x (y ∷ ys) = let rest = erase_path x ys in if y == x then ys else y ∷ rest

length-erase_path :
    (x : String) (ys : List String)
    → contains x ys ≡ true
    → length (erase_path x ys) + 1 ≡ length ys
length-erase_path x [] h = absurd cc
length-erase_path x (y ∷ ys) h = ground (arith, length-erase_path x ys)

contains-erase_path :
    (x q : String) (ys : List String)
    → (x == q) ≡ false
    → contains q ys ≡ true
    → contains q (erase_path x ys) ≡ true
contains-erase_path x q [] n h = absurd cc
contains-erase_path x q (y ∷ ys) n h = elim (Bool-cases (y == x)) [
  | inl k ↦
      let same : y ≡ x = (eq_iff y x).0 k in
      let other : (y == q) ≡ false = subst (λ z. (z == q) ≡ false) (sym same) n in
      rw k (ground arith)
  | inr k ↦ let ih = contains-erase_path x q ys n in rw k (ground arith)
]

-- No path stands twice.
abbrev pub IsDistinct : List String → Type 0
IsDistinct [] = Unit
IsDistinct (x ∷ xs) = (contains x xs ≡ false) × IsDistinct xs

differs :
    (x z : String) (xs : List String)
    → contains x xs ≡ false
    → contains z xs ≡ true
    → (x == z) ≡ false
differs x z xs h k = elim (Bool-cases (x == z)) [
  | inl e ↦ absurd (
      let h' : contains z xs ≡ false = subst (λ y. contains y xs ≡ false) ((eq_iff x z).0 e) h in
      cc)
  | inr e ↦ e
]

pigeonhole :
    (xs ys : List String)
    → IsDistinct xs
    → ((z : String) → contains z xs ≡ true → contains z ys ≡ true)
    → length xs ≡ length ys
    → (q : String) → contains q ys ≡ true
    → contains q xs ≡ true
pigeonhole [] [] d s l q h = h
pigeonhole [] (y ∷ ys) d s l q h = absurd (omega arith)
pigeonhole (x ∷ xs) ys d s l q h = elim (Bool-cases (x == q)) [
  | inl e ↦ rw e refl
  | inr e ↦ rw e (
      pigeonhole xs (erase_path x ys) d.1
        (λ z k. contains-erase_path x z ys (differs x z xs d.0 k) (s z (ground arith)))
        (omega (arith, length-erase_path x ys (s x (rw (beq_self x) refl)))) q
        (contains-erase_path x q ys e h))
]

abbrev pub paths : DirectoryInventory → List String
paths a = map (λ (p, _). p) a

length-paths : (a : DirectoryInventory) → length (paths a) ≡ length a
length-paths [] = refl
length-paths ((p, x) ∷ a) = omega (arith, length-paths a)

-- A path that is listed has an entry.
listed :
    (a : DirectoryInventory) (p : String) → contains p (paths a) ≡ true → inventory_entry a p ≢ none
unfolding inventory_entry
listed [] p h n = cc
listed ((q, x) ∷ a) p h n = elim (Bool-cases (q == p)) [
  | inl e ↦ ground arith
  | inr e ↦ listed a p (ground arith) (ground arith)
]

-- If no path stands twice in the first inventory and the two pass the test of equivalence, they agree at
-- every path: both have no entry there, or entries of the same kind, with the same digest if they are
-- files.
pub equivalent_inventories-agrees :
    (a b : DirectoryInventory)
    → IsDistinct (paths a)
    → inventories_have_equivalent_contents a b ≡ true
    → (p : String) → agrees (inventory_entry a p) (inventory_entry b p) ≡ true
unfolding inventories_have_equivalent_contents agrees
equivalent_inventories-agrees a b d h p = elim (Option-cases (inventory_entry a p)) [
  | inr (x, e) ↦ rw e (entries_match-agrees a b p x matches e)
  | inl e ↦ elim (Option-cases (inventory_entry b p)) [
    | inl e' ↦ rw (e, e') refl
    | inr (y, e') ↦ absurd (listed a p (back p (contains-keys p b (λ n. cc))) e)
  ]
]
  where
    matches : entries_match a b ≡ true
    matches = ground arith

    same_length : length a ≡ length b
    same_length = ground arith

    within_second : (z : String) → contains z (paths a) ≡ true → contains z (paths b) ≡ true
    within_second z k = contains-keys z b (present z k)
      where
        present : (z : String) → contains z (paths a) ≡ true → inventory_entry b z ≢ none
        present z k n = elim (Option-cases (inventory_entry a z)) [
          | inl e ↦ listed a z k e
          | inr (x, e) ↦
              let m : agrees (some x) (inventory_entry b z) ≡ true =
                entries_match-agrees a b z x matches e in
              absurd (
                let m' : agrees (some x) none ≡ true = subst (λ o. agrees (some x) o ≡ true) n m in
                cc)
        ]

    lengths : length (paths a) ≡ length (paths b)
    lengths = omega (arith, length-paths a, length-paths b, same_length)

    back : (q : String) → contains q (paths b) ≡ true → contains q (paths a) ≡ true
    back q k = pigeonhole (paths a) (paths b) d within_second lengths q k
