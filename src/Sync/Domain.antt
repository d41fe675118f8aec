-- ===== src/Sync/Domain.antt =====
-- src/sync_domain.go, and SynchronizationSide of src/missing_state_recovery.go.
-- The enumerations are uint8 in the source: a value outside the named constants is `unknown`.
use gosync.Base.{ℕ, String, Bool, true, false, Option, List, ◌==◌, nat_Eq, Error}

pub data EntryKind : Type 0 where
  file directory : EntryKind
  unknown : ℕ → EntryKind

-- `==` on kinds
unfoldable pub kind_eq : EntryKind → EntryKind → Bool
kind_eq EntryKind.file EntryKind.file = true
kind_eq EntryKind.directory EntryKind.directory = true
kind_eq (EntryKind.unknown m) (EntryKind.unknown n) = m == n
kind_eq _ _ = false

-- An instant is a number of time units.
pub record SynchronizationEntry : Type 0 where
  pub relative_path : String
  pub kind : EntryKind
  pub content_digest : String
  pub modification_time : ℕ

-- A nil pointer is `none`.
pub record EntryComparison : Type 0 where
  pub relative_path : String
  pub first : Option SynchronizationEntry
  pub second : Option SynchronizationEntry
  pub confirmed : Option SynchronizationEntry

pub data SynchronizationActionKind : Type 0 where
  copy_to_first copy_to_second delete_from_first delete_from_second : SynchronizationActionKind
  unknown : ℕ → SynchronizationActionKind

pub record SynchronizationAction : Type 0 where
  pub kind : SynchronizationActionKind
  pub relative_path : String

pub record SynchronizationResult : Type 0 where
  pub completed : Bool
  pub failure : Option Error

pub data SynchronizationSide : Type 0 where
  first_side second_side : SynchronizationSide
  unknown : ℕ → SynchronizationSide

-- `SynchronizationPlan` of src/synchronization_plan.go.
pub record SynchronizationPlan : Type 0 where
  pub actions : List SynchronizationAction
