-- ===== src/Sync/Effect.antt =====
-- What the actions of a plan mean, as a specification of `executeSynchronizationAction` of
-- src/synchronization_executor.go on the contents of the two roots: a copy replaces the subtree at its
-- path by the subtree of the other side, and a deletion removes the subtree.
pub mod Push
use gosync.Base.{
  ℕ, String, Bool, true, false, ◌&&◌, ◌||◌, not, Option, none, some, List, [], ◌∷◌, ◌==◌, string_Eq,
  if◌then◌else◌, ◌≡◌, refl, ◌++◌, beq_self, nat_Eq,
}
use gosync.Sync.Domain.{
  SynchronizationEntry, EntryKind, kind_eq, SynchronizationAction, SynchronizationActionKind,
  copy_to_first, copy_to_second, delete_from_first, delete_from_second,
}

-- What an inventory would show at each path of a root.
abbrev pub View : Type 0
View = String → Option SynchronizationEntry

pub record Sides : Type 0 where
  pub first : View
  pub second : View

-- Equal contents, as `directoryInventoriesHaveEquivalentContents` compares two entries.
unfoldable pub agrees : Option SynchronizationEntry → Option SynchronizationEntry → Bool
unfolding kind_eq
agrees none none = true
agrees (some a) (some b) =
    kind_eq a.kind b.kind
    && (not (kind_eq a.kind EntryKind.file) || a.content_digest == b.content_digest)
agrees _ _ = false

kind_eq_refl : (k : EntryKind) → kind_eq k k ≡ true
unfolding kind_eq
kind_eq_refl EntryKind.file = refl
kind_eq_refl EntryKind.directory = refl
kind_eq_refl (EntryKind.unknown n) = beq_self n

-- `under p q`: the path `q` is `p` or lies below it.
module _ (under : String → String → Bool) where
  -- The subtree of `source` at `p` in place of that of `target`.
  unfoldable pub graft : String → View → View → View
  graft p source target q = if under p q then source q else target q

  unfoldable pub prune : String → View → View
  prune p target q = if under p q then none else target q

  unfoldable pub apply_kind : SynchronizationActionKind → String → Sides → Sides
  unfolding graft prune
  apply_kind copy_to_first p s = record s { first = graft p s.second s.first }
  apply_kind copy_to_second p s = record s { second = graft p s.first s.second }
  apply_kind delete_from_first p s = record s { first = prune p s.first }
  apply_kind delete_from_second p s = record s { second = prune p s.second }
  apply_kind (SynchronizationActionKind.unknown n) p s = s

  unfoldable pub apply_actions : List SynchronizationAction → Sides → Sides
  unfolding apply_kind
  apply_actions [] s = s
  apply_actions (a ∷ xs) s = apply_actions xs (apply_kind a.kind a.relative_path s)

  pub apply_actions-append :
      (xs ys : List SynchronizationAction) (s : Sides)
      → apply_actions (xs ++ ys) s ≡ apply_actions ys (apply_actions xs s)
  unfolding apply_actions
  apply_actions-append [] ys s = refl
  apply_actions-append (a ∷ xs) ys s = apply_actions-append xs ys _

pub agrees_refl : (o : Option SynchronizationEntry) → agrees o o ≡ true
unfolding agrees
agrees_refl none = refl
agrees_refl (some a) =
    rw kind_eq_refl (rw (beq_self a.content_digest) (lem (kind_eq a.kind EntryKind.file)))
  where
    lem : (b : Bool) → (not b || true) ≡ true
    lem true = refl
    lem false = refl
