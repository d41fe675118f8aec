-- ===== src/Tests/SyncData.antt =====
-- The theorems on local synchronization at two small roots.
use mathlib.Core.Path.{subst}
use package.text.Mathlib.TextEquality.{eq_iff}
use gosync.Base.{
  ℕ, String, Bool, true, false, ◌&&◌, ◌||◌, none, some, List, [], ◌∷◌, ◌≡◌, refl, ◌==◌, string_Eq,
  nat_Eq, beq_self, Bool-cases, inl, inr, Error, text, wrap_of, ok, err, arith, ap,
}
use gosync.Os.{Os, regular_type}
use gosync.Os.Monad.{Io, return}
use gosync.Sync.Domain.{
  EntryComparison, SynchronizationEntry, EntryKind, SynchronizationAction, SynchronizationPlan,
  copy_to_second, delete_from_first, delete_from_second, first_side, second_side,
  SynchronizationResult,
}
use gosync.Sync.Inventory.{
  inventories_have_equivalent_contents, DirectoryInventory, inventory_entry,
  compare_directory_inventories,
}
use gosync.Sync.Plan.{
  Prompts, generate_synchronization_plan, generate_unidirectional_synchronization_plan,
  generate_authoritative_synchronization_plan,
}
use gosync.Sync.Effect.{agrees, apply_actions}
use gosync.Sync.Effect.Push.{IsTree}
use gosync.Sync.Plan.Converge.{sides, unidirectional_plan_converges, authoritative_plan_converges}
use gosync.Sync.Inventory.Equivalence.{equivalent_inventories-agrees}
use gosync.Sync.Plan.Replicate.{
  Replicated, generate_synchronization_plan_replicates, deletion_loses_addition,
}
use gosync.Logging.Domain.{change_synchronized}
use gosync.Sync.Execution.{execute_actions, retry_locked_file}
use gosync.Sync.Execution.Order.{Outcome, execute_actions-Outcome}
use gosync.Sync.Execution.Retry.{
  Trial, recording, scripted, locked_for, expected_notices, expected_events,
  retry_locked_file_outcome,
}
use gosync.Sync.Executor.{copy_synchronization_path}
use gosync.Sync.Executor.Handles.{TracksHandles, erase, copy_releases_handles}

abbrev file_at : String → String → String × SynchronizationEntry
file_at path digest = (
  path,
  record {
    relative_path = path;
    kind = EntryKind.file;
    content_digest = digest;
    modification_time = 7;
  },
)

abbrev directory_at : String → String × SynchronizationEntry
directory_at path = (
  path,
  record {
    relative_path = path;
    kind = EntryKind.directory;
    content_digest = "";
    modification_time = 7;
  },
)

abbrev source : DirectoryInventory
source = directory_at "d" ∷ file_at "d/f" "1" ∷ file_at "x" "2" ∷ []

abbrev destination : DirectoryInventory
destination = directory_at "d" ∷ file_at "x" "3" ∷ file_at "y" "4" ∷ []

-- The paths of the two roots: only `d/f` lies below another one.
abbrev under : String → String → Bool
under p q = p == q || (p == "d" && q == "d/f")

under_refl : (p : String) → under p p ≡ true
under_refl p = ap (λ b. b || (p == "d" && p == "d/f")) (beq_self p)

-- A directory `d` makes an inventory a tree.
tree_of :
    (a : DirectoryInventory) → (inventory_entry a "d" ≡ none → ⊥) → IsTree under (inventory_entry a)
tree_of a has p q h n = elim (Bool-cases (p == q)) [
  | inl e ↦ subst (λ r. inventory_entry a r ≡ none) ((eq_iff p q).0 e) n
  | inr e ↦ elim (Bool-cases (p == "d")) [
    | inl e' ↦ absurd (has (subst (λ r. inventory_entry a r ≡ none) ((eq_iff p "d").0 e') n))
    | inr e' ↦ ground arith
  ]
]

source_tree : IsTree under (inventory_entry source)
unfolding inventory_entry
source_tree = tree_of source (λ h. cc)

destination_tree : IsTree under (inventory_entry destination)
unfolding inventory_entry
destination_tree = tree_of destination (λ h. cc)

unidirectional_plan_converges_example :
    (plan : SynchronizationPlan) × (generate_unidirectional_synchronization_plan
        (compare_directory_inventories source destination)
      ≡ ok plan)
    × ((apply_actions under plan.actions (sides source destination)).first ≡ inventory_entry source)
    × ((q : String)
        → agrees
            (inventory_entry source q)
            ((apply_actions under plan.actions (sides source destination)).second q)
          ≡ true)
unidirectional_plan_converges_example =
    unidirectional_plan_converges under under_refl source destination source_tree

authoritative_plan_converges_example :
    let cs = compare_directory_inventories source destination in
    let s =
      apply_actions under
        (generate_authoritative_synchronization_plan cs first_side).actions
        (sides source destination) in
    let t =
      apply_actions under
        (generate_authoritative_synchronization_plan cs second_side).actions
        (sides source destination) in
    (s.first ≡ inventory_entry source)
    × ((q : String) → agrees (inventory_entry source q) (s.second q) ≡ true)
    × (t.second ≡ inventory_entry destination)
    × ((q : String) → agrees (inventory_entry destination q) (t.first q) ≡ true)
authoritative_plan_converges_example =
    authoritative_plan_converges under under_refl source destination source_tree destination_tree

-- The source's directory `d` is confirmed, and gone from the other side; its file is new.
abbrev entry_of : String × SynchronizationEntry → SynchronizationEntry
entry_of (p, e) = e

abbrev deleted_directory : EntryComparison
deleted_directory = record {
  relative_path = "d";
  first = some (entry_of (directory_at "d"));
  second = none;
  confirmed = some (entry_of (directory_at "d"));
}

abbrev new_file : EntryComparison
new_file = record {
  relative_path = "d/f";
  first = some (entry_of (file_at "d/f" "1"));
  second = none;
  confirmed = none;
}

abbrev no_prompts : Prompts
no_prompts = record { file_side = none; item_side = none }

-- The new file is copied first, and the deletion of its directory follows.
abbrev copied_then_deleted : SynchronizationPlan
copied_then_deleted = record {
  actions =
      record { kind = copy_to_second; relative_path = "d/f" }
      ∷ record { kind = delete_from_first; relative_path = "d" }
      ∷ [];
}

plan_of_both :
    generate_synchronization_plan (new_file ∷ deleted_directory ∷ []) [] no_prompts
    ≡ ok copied_then_deleted
unfolding generate_synchronization_plan
plan_of_both = refl

generate_synchronization_plan_replicates_example :
    Replicated deleted_directory (apply_actions under copied_then_deleted.actions (sides source []))
unfolding inventory_entry
generate_synchronization_plan_replicates_example =
    generate_synchronization_plan_replicates under under_refl deleted_directory (new_file ∷ []) []
      [] no_prompts (sides source []) copied_then_deleted plan_of_both (refl, tt) tt refl refl
      (inr refl)

deletion_loses_addition_example :
    (plan : SynchronizationPlan) × (generate_synchronization_plan
        (deleted_directory ∷ new_file ∷ [])
        []
        no_prompts
      ≡ ok plan)
    × ((apply_actions under plan.actions (sides source [])).first "d/f" ≡ none)
    × ((apply_actions under plan.actions (sides source [])).second "d/f" ≡ none)
deletion_loses_addition_example =
    deletion_loses_addition under under_refl "d" "d/f" (entry_of (directory_at "d"))
      (entry_of (file_at "d/f" "1")) (entry_of (directory_at "d")) [] no_prompts (sides source [])
      refl

abbrev is_locked : Error → Bool
is_locked e = true

abbrev quoted : String → String
quoted s = s

retry_locked_file_outcome_example :
    retry_locked_file Trial is_locked
      (λ t. t)
      quoted
      (recording is_locked)
      "d/f"
      4
      scripted
      (record {
        outcomes = locked_for 2 (text "sharing violation") (none ∷ []);
        notices = [];
        events = [];
        pauses = 0;
      })
    ≡ some (
      record {
        outcomes = [];
        notices = expected_notices quoted "d/f" 2 none;
        events = expected_events 2 none;
        pauses = 2;
      },
      ok tt,
    )
retry_locked_file_outcome_example =
    retry_locked_file_outcome is_locked (λ t. t) quoted is_locked "d/f" (text "sharing violation")
      refl none 2 4 [] tt (omega arith)

abbrev copy_x : SynchronizationAction
copy_x = record { kind = copy_to_second; relative_path = "x" }

abbrev delete_y : SynchronizationAction
delete_y = record { kind = delete_from_second; relative_path = "y" }

abbrev never : Error → Bool
never e = false

abbrev decimals : ℕ → String
decimals n = "0"

-- Each action takes one of the scripted outcomes.
abbrev one_failure : Trial
one_failure = record {
  outcomes = none ∷ some (text "permission denied") ∷ [];
  notices = [];
  events = [];
  pauses = 0;
}

abbrev after_failure : Trial × SynchronizationResult
after_failure = (
  record { outcomes = []; notices = []; events = change_synchronized ∷ []; pauses = 0 },
  record {
    completed = false;
    failure = some (wrap_of "execute action for %q" "y" (text "permission denied"));
  },
)

stops_at_failure :
    execute_actions Trial never
      (λ t. t)
      quoted
      decimals
      (recording never)
      3
      (λ a. scripted)
      (copy_x ∷ delete_y ∷ copy_x ∷ [])
      one_failure
    ≡ some after_failure
unfolding execute_actions retry_locked_file
stops_at_failure = refl

execute_actions-Outcome_example :
    Outcome Trial never
      (λ t. t)
      quoted
      decimals
      (recording never)
      3
      (λ a. scripted)
      (copy_x ∷ delete_y ∷ copy_x ∷ [])
      one_failure
      after_failure
execute_actions-Outcome_example =
    execute_actions-Outcome Trial never (λ t. t) quoted decimals (recording never) 3 (λ a. scripted)
      (copy_x ∷ delete_y ∷ copy_x ∷ []) one_failure after_failure stops_at_failure

-- The open handles as a stack of numbers. Every path is a regular file, and every copy fails.
abbrev push_handle : Io (List ℕ) ℕ
push_handle hs = (5 ∷ hs, ok 5)

abbrev handles_os : Os
handles_os = record {
  World = List ℕ;
  Handle = ℕ;
  is_not_exist = never;
  is_exist = never;
  base = λ a. a;
  extension = λ a. a;
  open_exclusive = λ p m w. (w, err (text "file exists"));
  open_append = λ p m w. (w, err (text "access is denied"));
  write_bytes = λ h s w. (w, (0, none));
  join_path = λ a b. a;
  dir = λ a. a;
  clean = λ a. a;
  lstat = λ p.
      return
        (record { type_of = regular_type; permissions = 420; size = 1; modification_time = 7 });
  stat = λ p.
      return
        (record { type_of = regular_type; permissions = 420; size = 1; modification_time = 7 });
  mkdir_all = λ p m. return tt;
  remove_all = λ p. return tt;
  remove = λ p. return tt;
  rename = λ p q. return tt;
  read_dir = λ p. return [];
  read_file = λ p. return "";
  open_read = λ p. push_handle;
  open_write = λ p m. push_handle;
  copy = λ d s hs. (hs, err (text "input/output error"));
  create_temp = λ d p hs. (5 ∷ hs, ok (5, "t"));
  chmod = λ h m. return tt;
  write = λ h s. return tt;
  close = λ h hs. (erase h hs, err (text "bad handle"));
}

abbrev opened : List ℕ → List ℕ
opened hs = hs

handles_tracked : TracksHandles handles_os opened
handles_tracked = record {
  opened-open_read = λ p w. refl;
  opened-open_write = λ p m w. refl;
  opened-close = λ h w. refl;
  opened-copy = λ d s w. refl;
  opened-lstat = λ p w. refl;
  opened-mkdir_all = λ p m w. refl;
  opened-remove_all = λ p w. refl;
  opened-read_dir = λ p w. refl;
}

copy_releases_handles_example :
    opened (copy_synchronization_path handles_os 3 "a/f" "b/f" (2 ∷ [])).0 ≡ 2 ∷ []
copy_releases_handles_example =
    copy_releases_handles handles_os opened handles_tracked 3 "a/f" "b/f" (2 ∷ [])

-- The source in another order, and walked at another time.
abbrev twin : DirectoryInventory
twin =
    (
      "x",
      record {
        relative_path = "x";
        kind = EntryKind.file;
        content_digest = "2";
        modification_time = 8;
      },
    )
    ∷ directory_at "d"
    ∷ file_at "d/f" "1"
    ∷ []

twins : inventories_have_equivalent_contents source twin ≡ true
unfolding inventories_have_equivalent_contents
twins = refl

equivalent_inventories-agrees_example :
    agrees (inventory_entry source "d/f") (inventory_entry twin "d/f") ≡ true
equivalent_inventories-agrees_example =
    equivalent_inventories-agrees source twin (refl, (refl, (refl, tt))) twins "d/f"
