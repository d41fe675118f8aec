-- ===== src/Sync/Plan/Mirror.antt =====
-- The plans of both mirroring planners, as verbs on the side that they change.
use gosync.Base.{
  String, Bool, true, false, ◌&&◌, ◌||◌, not, Option, none, some, List, [], ◌∷◌, map, ◌==◌,
  string_Eq, if◌then◌else◌, ◌≡◌, refl, arith, ◌∙◌, ap,
}
use gosync.Sync.Domain.{
  SynchronizationEntry, EntryKind, kind_eq, first_side, second_side, SynchronizationActionKind,
}
use gosync.Sync.Inventory.{DirectoryInventory, inventory_entry, compare_path}
use gosync.Sync.Plan.{
  mirror_sides, mirror_actions, prevail, prevail_actions, entries_have_equivalent_contents,
}
use gosync.Sync.Effect.{View, agrees, apply_actions, apply_actions-append}
use gosync.Sync.Effect.Push.{Verb, keep, overwrite, remove, push, push_all, IsSoundAt}

-- What the unidirectional planner does at a path.
pub mirror_verb : Option SynchronizationEntry → Option SynchronizationEntry → Verb
unfolding kind_eq
mirror_verb none none = keep
mirror_verb none (some b) = remove
mirror_verb (some a) none = overwrite
mirror_verb (some a) (some b) =
    if not (kind_eq a.kind b.kind)
      || (kind_eq a.kind EntryKind.file && not (a.content_digest == b.content_digest))
    then overwrite
    else keep

-- What the authoritative planner does at a path of the other side.
pub prevail_verb : Option SynchronizationEntry → Option SynchronizationEntry → Verb
prevail_verb none none = keep
prevail_verb none (some b) = remove
prevail_verb (some a) none = overwrite
prevail_verb (some a) (some b) =
    if entries_have_equivalent_contents (some a) (some b) then keep else overwrite

abbrev pub verbs :
    (Option SynchronizationEntry → Option SynchronizationEntry → Verb)
    → View
    → View
    → List String
    → List (String × Verb)
verbs f source target [] = []
verbs f source target (p ∷ ps) = (p, f (source p) (target p)) ∷ verbs f source target ps

module _ (under : String → String → Bool) where
  mirror_sides-push :
      (p : String) (a b : Option SynchronizationEntry) (x y : View)
      → apply_actions under (mirror_sides p a b) (record { first = x; second = y })
        ≡ record { first = x; second = push under x p (mirror_verb a b) y }
  unfolding apply_actions mirror_sides mirror_verb push
  mirror_sides-push p none none x y = refl
  mirror_sides-push p none (some b) x y = refl
  mirror_sides-push p (some a) none x y = refl
  mirror_sides-push p (some a) (some b) x y = split (
      not (kind_eq a.kind b.kind)
      || (kind_eq a.kind EntryKind.file && not (a.content_digest == b.content_digest)))
    where
      split :
          (t : Bool)
          → apply_actions under
              (if t
                then record { kind = SynchronizationActionKind.copy_to_second; relative_path = p }
                  ∷ []
                else [])
              (record { first = x; second = y })
            ≡ record { first = x; second = push under x p (if t then overwrite else keep) y }
      split true = refl
      split false = refl

  pub mirror_actions_push :
      (a b : DirectoryInventory) (ps : List String) (x y : View)
      → apply_actions under
          (mirror_actions (map (compare_path a b) ps))
          (record { first = x; second = y })
        ≡ record {
          first = x;
          second =
              push_all under x (verbs mirror_verb (inventory_entry a) (inventory_entry b) ps) y;
        }
  unfolding mirror_actions compare_path push_all
  mirror_actions_push a b [] x y = unfold apply_actions in refl
  mirror_actions_push a b (p ∷ ps) x y =
      apply_actions-append under (mirror_sides p (inventory_entry a p) (inventory_entry b p)) _ _
      ∙ ap (apply_actions under _)
          (mirror_sides-push p (inventory_entry a p) (inventory_entry b p) x y)
      ∙ mirror_actions_push a b ps x _

  prevail_first_push :
      (p : String) (a b : Option SynchronizationEntry) (x y : View)
      → apply_actions under (prevail p first_side a b) (record { first = x; second = y })
        ≡ record { first = x; second = push under x p (prevail_verb a b) y }
  unfolding apply_actions prevail prevail_verb push
  prevail_first_push p none none x y = refl
  prevail_first_push p none (some b) x y = refl
  prevail_first_push p (some a) none x y = refl
  prevail_first_push p (some a) (some b) x y =
      split (entries_have_equivalent_contents (some a) (some b))
    where
      split :
          (t : Bool)
          → apply_actions under
              (if not t
                then record { kind = SynchronizationActionKind.copy_to_second; relative_path = p }
                  ∷ []
                else [])
              (record { first = x; second = y })
            ≡ record { first = x; second = push under x p (if t then keep else overwrite) y }
      split true = refl
      split false = refl

  prevail_second_push :
      (p : String) (a b : Option SynchronizationEntry) (x y : View)
      → apply_actions under (prevail p second_side a b) (record { first = y; second = x })
        ≡ record { first = push under x p (prevail_verb a b) y; second = x }
  unfolding apply_actions prevail prevail_verb push
  prevail_second_push p none none x y = refl
  prevail_second_push p none (some b) x y = refl
  prevail_second_push p (some a) none x y = refl
  prevail_second_push p (some a) (some b) x y =
      split (entries_have_equivalent_contents (some a) (some b))
    where
      split :
          (t : Bool)
          → apply_actions under
              (if not t
                then record { kind = SynchronizationActionKind.copy_to_first; relative_path = p }
                  ∷ []
                else [])
              (record { first = y; second = x })
            ≡ record { first = push under x p (if t then keep else overwrite) y; second = x }
      split true = refl
      split false = refl

  pub prevail_actions_first_push :
      (a b : DirectoryInventory) (ps : List String) (x y : View)
      → apply_actions under
          (prevail_actions (map (compare_path a b) ps) first_side)
          (record { first = x; second = y })
        ≡ record {
          first = x;
          second =
              push_all under x (verbs prevail_verb (inventory_entry a) (inventory_entry b) ps) y;
        }
  unfolding prevail_actions compare_path push_all
  prevail_actions_first_push a b [] x y = unfold apply_actions in refl
  prevail_actions_first_push a b (p ∷ ps) x y =
      apply_actions-append under (prevail p first_side (inventory_entry a p) (inventory_entry b p))
        _ _
      ∙ ap (apply_actions under _)
          (prevail_first_push p (inventory_entry a p) (inventory_entry b p) x y)
      ∙ prevail_actions_first_push a b ps x _

  pub prevail_actions_second_push :
      (a b : DirectoryInventory) (ps : List String) (x y : View)
      → apply_actions under
          (prevail_actions (map (compare_path a b) ps) second_side)
          (record { first = y; second = x })
        ≡ record {
          first =
              push_all under x (verbs prevail_verb (inventory_entry b) (inventory_entry a) ps) y;
          second = x;
        }
  unfolding prevail_actions compare_path push_all
  prevail_actions_second_push a b [] x y = unfold apply_actions in refl
  prevail_actions_second_push a b (p ∷ ps) x y =
      apply_actions-append under (prevail p second_side (inventory_entry b p) (inventory_entry a p))
        _ _
      ∙ ap (apply_actions under _)
          (prevail_second_push p (inventory_entry b p) (inventory_entry a p) x y)
      ∙ prevail_actions_second_push a b ps x _

not_file_of_directory :
    (k : EntryKind) → kind_eq k EntryKind.directory ≡ true → kind_eq k EntryKind.file ≡ false
unfolding kind_eq
not_file_of_directory EntryKind.file h = cc
not_file_of_directory EntryKind.directory h = refl
not_file_of_directory (EntryKind.unknown n) h = cc

pub mirror_verb-IsSoundAt : (a b : Option SynchronizationEntry) → IsSoundAt a b (mirror_verb a b)
unfolding mirror_verb agrees
mirror_verb-IsSoundAt none none = refl
mirror_verb-IsSoundAt none (some b) = refl
mirror_verb-IsSoundAt (some a) none = tt
mirror_verb-IsSoundAt (some a) (some b) =
    split (kind_eq a.kind b.kind) (kind_eq a.kind EntryKind.file)
      (a.content_digest == b.content_digest) refl
  where
    split :
        (s t u : Bool)
        → (kind_eq a.kind b.kind
            && (not (kind_eq a.kind EntryKind.file) || a.content_digest == b.content_digest))
          ≡ (s && (not t || u))
        → IsSoundAt (some a) (some b) (if not s || (t && not u) then overwrite else keep)
    split true true true e = e
    split true true false e = tt
    split true false u e = e
    split false t u e = tt

pub prevail_verb-IsSoundAt : (a b : Option SynchronizationEntry) → IsSoundAt a b (prevail_verb a b)
unfolding prevail_verb agrees entries_have_equivalent_contents
prevail_verb-IsSoundAt none none = refl
prevail_verb-IsSoundAt none (some b) = refl
prevail_verb-IsSoundAt (some a) none = tt
prevail_verb-IsSoundAt (some a) (some b) =
    split (entries_have_equivalent_contents (some a) (some b)) refl
  where
    split :
        (s : Bool)
        → entries_have_equivalent_contents (some a) (some b) ≡ s
        → IsSoundAt (some a) (some b) (if s then keep else overwrite)
    split true e = ground (arith, not_file_of_directory a.kind)
    split false e = tt
