-- ===== src/Sync/Plan.antt =====
-- The planners: src/change_classification.go, src/synchronization_plan.go, src/unidirectional_sync.go
-- (generateUnidirectionalSynchronizationPlan) and src/watch_command.go
-- (generateAuthoritativeSynchronizationPlan with its helpers).
pub mod Mirror
pub mod Converge
pub mod Located
pub mod Replicate
use gosync.Base.{
  String, Bool, false, ◌&&◌, ◌||◌, not, Option, none, some, List, [], ◌∷◌, ◌++◌, ◌==◌, string_Eq,
  nat_Eq, if◌then◌else◌, Result, ok, err, ◌>>=◌, lookup,
}
use gosync.Sync.Domain.{
  SynchronizationEntry, EntryComparison, EntryKind, kind_eq, SynchronizationAction, copy_to_first,
  copy_to_second, delete_from_first, delete_from_second, SynchronizationSide, first_side,
  second_side, SynchronizationPlan,
}
use gosync.Sync.Conflicts.{resolve_file_content_conflict, resolve_file_directory_conflict}

-- The switch of the loop body of `classifyAdditionsAndDeletions`.
unfoldable pub classify_sides :
    String
    → Option SynchronizationEntry
    → Option SynchronizationEntry
    → Option SynchronizationEntry
    → List SynchronizationAction
classify_sides p (some a) none none = record { kind = copy_to_second; relative_path = p } ∷ []
classify_sides p (some a) none (some c) =
    record { kind = delete_from_first; relative_path = p } ∷ []
classify_sides p none (some b) none = record { kind = copy_to_first; relative_path = p } ∷ []
classify_sides p none (some b) (some c) =
    record { kind = delete_from_second; relative_path = p } ∷ []
classify_sides p _ _ _ = []

unfoldable pub classify_additions_and_deletions : List EntryComparison → List SynchronizationAction
unfolding classify_sides
classify_additions_and_deletions [] = []
classify_additions_and_deletions (c ∷ cs) =
    classify_sides c.relative_path c.first c.second c.confirmed
    ++ classify_additions_and_deletions cs

-- `if required { actions = append(actions, action) }`
abbrev pub required_action : Option SynchronizationAction → List SynchronizationAction
required_action none = []
required_action (some a) = a ∷ []

abbrev pub append_required :
    Result (Option SynchronizationAction) → Result (List SynchronizationAction)
append_required (ok action) = ok (required_action action)
append_required (err e) = err e

-- What the callbacks answer: the file prompt for a comparison, and the item prompt for a comparison
-- and a listing. `none` is a nil callback.
pub record Prompts : Type 0 where
  pub file_side : Option (EntryComparison → Result SynchronizationSide)
  pub item_side : Option (EntryComparison → List String → Result SynchronizationSide)

-- The closures that bind the comparison.
abbrev pub file_request :
    Option (EntryComparison → Result SynchronizationSide)
    → EntryComparison
    → Option (Result SynchronizationSide)
file_request none c = none
file_request (some ask) c = some (ask c)

abbrev pub item_request :
    Option (EntryComparison → List String → Result SynchronizationSide)
    → EntryComparison
    → Option (List String → Result SynchronizationSide)
item_request none c = none
item_request (some ask) c = some (ask c)

-- A missing key of `directoryContents` reads as a nil slice.
abbrev pub contents_at : Option (List String) → List String
contents_at none = []
contents_at (some ps) = ps

-- The loop body, for a comparison with both entries.
unfoldable pub plan_both :
    List (String × List String)
    → Prompts
    → EntryComparison
    → EntryKind
    → EntryKind
    → Result (List SynchronizationAction)
unfolding resolve_file_content_conflict resolve_file_directory_conflict kind_eq lookup
plan_both contents prompts c j k =
    if kind_eq j EntryKind.file && kind_eq k EntryKind.file
    then append_required (resolve_file_content_conflict c (file_request prompts.file_side c))
    else if not (kind_eq j k)
    then append_required (
        resolve_file_directory_conflict c (contents_at (lookup c.relative_path contents))
          (item_request prompts.item_side c))
    else ok []

unfoldable pub plan_comparison :
    List (String × List String) → Prompts → EntryComparison → Result (List SynchronizationAction)
unfolding plan_both classify_additions_and_deletions
plan_comparison contents prompts c = elim c.first [
  | none ↦ ok (classify_additions_and_deletions (c ∷ []))
  | some a ↦ elim c.second [
    | none ↦ ok (classify_additions_and_deletions (c ∷ []))
    | some b ↦ plan_both contents prompts c a.kind b.kind
  ]
]

unfoldable pub plan_actions :
    List (String × List String)
    → Prompts
    → List EntryComparison
    → Result (List SynchronizationAction)
unfolding plan_comparison
plan_actions contents prompts [] = ok []
plan_actions contents prompts (c ∷ cs) = do
  actions ← plan_comparison contents prompts c
  rest ← plan_actions contents prompts cs
  ok (actions ++ rest)

unfoldable pub generate_synchronization_plan :
    List EntryComparison → List (String × List String) → Prompts → Result SynchronizationPlan
unfolding plan_actions
generate_synchronization_plan cs contents prompts = do
  actions ← plan_actions contents prompts cs
  ok (record { actions = actions })

-- The switch of the loop body of `generateUnidirectionalSynchronizationPlan`.
unfoldable pub mirror_sides :
    String → Option SynchronizationEntry → Option SynchronizationEntry → List SynchronizationAction
unfolding kind_eq
mirror_sides p none (some b) = record { kind = delete_from_second; relative_path = p } ∷ []
mirror_sides p (some a) none = record { kind = copy_to_second; relative_path = p } ∷ []
mirror_sides p (some a) (some b) =
    if not (kind_eq a.kind b.kind)
      || (kind_eq a.kind EntryKind.file && not (a.content_digest == b.content_digest))
    then record { kind = copy_to_second; relative_path = p } ∷ []
    else []
mirror_sides p none none = []

unfoldable pub mirror_actions : List EntryComparison → List SynchronizationAction
unfolding mirror_sides
mirror_actions [] = []
mirror_actions (c ∷ cs) = mirror_sides c.relative_path c.first c.second ++ mirror_actions cs

unfoldable pub generate_unidirectional_synchronization_plan :
    List EntryComparison → Result SynchronizationPlan
unfolding mirror_actions
generate_unidirectional_synchronization_plan cs = ok (record { actions = mirror_actions cs })

unfoldable pub entries_have_equivalent_contents :
    Option SynchronizationEntry → Option SynchronizationEntry → Bool
unfolding kind_eq
entries_have_equivalent_contents (some a) (some b) =
    kind_eq a.kind b.kind
    && (kind_eq a.kind EntryKind.directory || a.content_digest == b.content_digest)
entries_have_equivalent_contents _ _ = false

unfoldable pub copy_action_for_side : String → SynchronizationSide → SynchronizationAction
copy_action_for_side p first_side = record { kind = copy_to_second; relative_path = p }
copy_action_for_side p _ = record { kind = copy_to_first; relative_path = p }

unfoldable pub delete_action_for_side : String → SynchronizationSide → SynchronizationAction
delete_action_for_side p first_side = record { kind = delete_from_first; relative_path = p }
delete_action_for_side p _ = record { kind = delete_from_second; relative_path = p }

unfoldable pub opposite_side : SynchronizationSide → SynchronizationSide
opposite_side first_side = second_side
opposite_side _ = first_side

unfoldable pub authoritative_entry :
    SynchronizationSide → EntryComparison → Option SynchronizationEntry
authoritative_entry first_side c = c.first
authoritative_entry _ c = c.second

unfoldable pub other_entry : SynchronizationSide → EntryComparison → Option SynchronizationEntry
other_entry first_side c = c.second
other_entry _ c = c.first

-- The two tests of the loop body, on the authoritative and the other entry.
unfoldable pub prevail :
    String
    → SynchronizationSide
    → Option SynchronizationEntry
    → Option SynchronizationEntry
    → List SynchronizationAction
unfolding entries_have_equivalent_contents copy_action_for_side delete_action_for_side opposite_side
prevail p side none (some b) = delete_action_for_side p (opposite_side side) ∷ []
prevail p side (some a) none = copy_action_for_side p side ∷ []
prevail p side (some a) (some b) =
    if not (entries_have_equivalent_contents (some a) (some b))
    then copy_action_for_side p side ∷ []
    else []
prevail p side none none = []

unfoldable pub prevail_actions :
    List EntryComparison → SynchronizationSide → List SynchronizationAction
unfolding prevail authoritative_entry other_entry
prevail_actions [] side = []
prevail_actions (c ∷ cs) side =
    prevail c.relative_path side (authoritative_entry side c) (other_entry side c)
    ++ prevail_actions cs side

unfoldable pub generate_authoritative_synchronization_plan :
    List EntryComparison → SynchronizationSide → SynchronizationPlan
unfolding prevail_actions
generate_authoritative_synchronization_plan cs side = record { actions = prevail_actions cs side }
