-- ===== src/Sync/Plan/Located.antt =====
-- Where the actions of the two-way plan of src/synchronization_plan.go act: those of a comparison at its
-- path, so that they leave what is not below it as it is.
use gosync.Base.{
  String, Bool, true, false, ◌&&◌, not, Option, none, some, List, [], ◌∷◌, ◌==◌, string_Eq, ltb,
  if◌then◌else◌, text, sort_strings, ap, Result, ok, err, ◌>>=◌, >>=-holds, All, ◌≡◌, refl, ◌∙◌,
  lookup,
}
use gosync.Os.Monad.Holds.{ok_holds}
use gosync.Sync.Domain.{
  SynchronizationEntry, EntryComparison, EntryKind, kind_eq, SynchronizationAction,
  SynchronizationActionKind, copy_to_first, copy_to_second, delete_from_first, delete_from_second,
  SynchronizationSide, first_side, second_side,
}
use gosync.Sync.Conflicts.{
  Resolution, resolve_side, resolve_contents, resolve_file_content_conflict, resolve_kinds,
  is_file_or_directory, resolve_file_directory_conflict,
}
use gosync.Sync.Plan.{
  Prompts, required_action, append_required, plan_both, plan_comparison, classify_sides,
  classify_additions_and_deletions, file_request, item_request, contents_at,
}
use gosync.Sync.Effect.{Sides, apply_kind, apply_actions, graft, prune}

-- All actions are at the path.
abbrev pub AllAt : String → List SynchronizationAction → Type 0
AllAt p actions = All (λ a. a.relative_path ≡ p) actions

abbrev RequiredAt : String → Option SynchronizationAction → Type 0
RequiredAt p o = AllAt p (required_action o)

branch_holds :
    {A : Type 0} (P : A → Type 0) (b : Bool) (x y : Result A) (o : A)
    → (x ≡ ok o → P o)
    → (y ≡ ok o → P o)
    → (if b then x else y) ≡ ok o
    → P o
branch_holds P true x y o k l h = k h
branch_holds P false x y o k l h = l h

resolve_side_at :
    (p : String) (side : SynchronizationSide) (o : Option SynchronizationAction)
    → resolve_side p side ≡ ok o
    → RequiredAt p o
unfolding resolve_side
resolve_side_at p first_side o h = ok_holds (RequiredAt p) (refl, tt) h
resolve_side_at p second_side o h = ok_holds (RequiredAt p) (refl, tt) h
resolve_side_at p (SynchronizationSide.unknown n) o h = cc

resolve_contents_at :
    (p : String) (a b : SynchronizationEntry) (request : Option (Result SynchronizationSide))
    (o : Option SynchronizationAction)
    → resolve_contents p a b request ≡ ok o
    → RequiredAt p o
unfolding resolve_contents
resolve_contents_at p a b request o =
    branch_holds (RequiredAt p) (a.content_digest == b.content_digest) _ _ o
      (λ h. ok_holds (RequiredAt p) tt h)
      (branch_holds (RequiredAt p) (ltb b.modification_time a.modification_time) _ _ o
        (λ h. ok_holds (RequiredAt p) (refl, tt) h)
        (branch_holds (RequiredAt p) (ltb a.modification_time b.modification_time) _ _ o
          (λ h. ok_holds (RequiredAt p) (refl, tt) h) (asked request)))
  where
    asked :
        (request : Option (Result SynchronizationSide))
        → ◌≡◌ {A = Resolution}
            (elim request [
              | none ↦ err (text "file conflict decision is required")
              | some answer ↦ answer >>= resolve_side p
            ])
            (ok o)
        → RequiredAt p o
    asked none h = cc
    asked (some answer) h = >>=-holds (RequiredAt p) answer (resolve_side p) (resolve_side_at p) o h

resolve_kinds_at :
    (p : String) (j k : EntryKind) (contents : List String)
    (request : Option (List String → Result SynchronizationSide)) (o : Option SynchronizationAction)
    → resolve_kinds p j k contents request ≡ ok o
    → RequiredAt p o
unfolding resolve_kinds
resolve_kinds_at p j k contents none o =
    branch_holds (RequiredAt p) (kind_eq j k) _ _ o (λ h. cc)
      (branch_holds (RequiredAt p) (not (is_file_or_directory j)) _ _ o (λ h. cc)
        (branch_holds (RequiredAt p) (not (is_file_or_directory k)) _ _ o (λ h. cc) (λ h. cc)))
resolve_kinds_at p j k contents (some ask) o =
    branch_holds (RequiredAt p) (kind_eq j k) _ _ o (λ h. cc)
      (branch_holds (RequiredAt p) (not (is_file_or_directory j)) _ _ o (λ h. cc)
        (branch_holds (RequiredAt p) (not (is_file_or_directory k)) _ _ o (λ h. cc)
          (>>=-holds (RequiredAt p) (ask (sort_strings contents)) (resolve_side p)
            (resolve_side_at p) o)))

append_required_at :
    (p : String) (r : Resolution) (actions : List SynchronizationAction)
    → ((o : Option SynchronizationAction) → r ≡ ok o → RequiredAt p o)
    → append_required r ≡ ok actions
    → AllAt p actions
append_required_at p (ok o) actions k h = ok_holds (AllAt p) (k o refl) h
append_required_at p (err e) actions k h = cc

plan_comparison_at :
    (contents : List (String × List String)) (prompts : Prompts) (p : String)
    (a b c : Option SynchronizationEntry) (actions : List SynchronizationAction)
    → plan_comparison contents prompts
        (record { relative_path = p; first = a; second = b; confirmed = c })
      ≡ ok actions
    → AllAt p actions
unfolding plan_comparison plan_both resolve_file_content_conflict resolve_file_directory_conflict
    classify_additions_and_deletions classify_sides
plan_comparison_at contents prompts p none none none actions h = ok_holds (AllAt p) tt h
plan_comparison_at contents prompts p none none (some e) actions h = ok_holds (AllAt p) tt h
plan_comparison_at contents prompts p none (some b) none actions h = ok_holds (AllAt p) (refl, tt) h
plan_comparison_at contents prompts p none (some b) (some e) actions h =
    ok_holds (AllAt p) (refl, tt) h
plan_comparison_at contents prompts p (some a) none none actions h = ok_holds (AllAt p) (refl, tt) h
plan_comparison_at contents prompts p (some a) none (some e) actions h =
    ok_holds (AllAt p) (refl, tt) h
plan_comparison_at contents prompts p (some a) (some b) c actions h =
    let d : EntryComparison = record {
      relative_path = p;
      first = some a;
      second = some b;
      confirmed = c;
    } in
    branch_holds (AllAt p) (kind_eq a.kind EntryKind.file && kind_eq b.kind EntryKind.file) _ _
      actions
      (append_required_at p (resolve_file_content_conflict d (file_request prompts.file_side d))
        actions
        (λ o.
          branch_holds (RequiredAt p)
            (kind_eq a.kind EntryKind.file && kind_eq b.kind EntryKind.file) _ _ o
            (resolve_contents_at p a b (file_request prompts.file_side d) o) (λ h. cc)))
      (branch_holds (AllAt p) (not (kind_eq a.kind b.kind)) _ _ actions
        (append_required_at p
          (resolve_file_directory_conflict d (contents_at (lookup p contents))
            (item_request prompts.item_side d))
          actions
          (resolve_kinds_at p a.kind b.kind (contents_at (lookup p contents))
            (item_request prompts.item_side d)))
        (λ h. ok_holds (AllAt p) tt h))
      h

module _ (under : String → String → Bool) where
  -- Both sides hold the same at the path.
  abbrev pub SameAt : String → Sides → Sides → Type 0
  SameAt q s t = (t.first q ≡ s.first q) × (t.second q ≡ s.second q)

  apply_kind-SameAt :
      (k : SynchronizationActionKind) (p q : String) (s : Sides)
      → under p q ≡ false
      → SameAt q s (apply_kind under k p s)
  unfolding apply_kind graft prune
  apply_kind-SameAt copy_to_first p q s h = (rw h refl, refl)
  apply_kind-SameAt copy_to_second p q s h = (refl, rw h refl)
  apply_kind-SameAt delete_from_first p q s h = (rw h refl, refl)
  apply_kind-SameAt delete_from_second p q s h = (refl, rw h refl)
  apply_kind-SameAt (SynchronizationActionKind.unknown n) p q s h = (refl, refl)

  -- Actions at a path change nothing that is not below it.
  pub apply_actions-SameAt :
      (p q : String) (actions : List SynchronizationAction) (s : Sides)
      → under p q ≡ false
      → AllAt p actions
      → SameAt q s (apply_actions under actions s)
  unfolding apply_actions
  apply_actions-SameAt p q [] s h all = (refl, refl)
  apply_actions-SameAt p q (a ∷ actions) s h all =
      let t = apply_kind under a.kind a.relative_path s in
      let (x, y) = apply_kind-SameAt a.kind a.relative_path q s (ap (λ r. under r q) all.0 ∙ h) in
      let (x', y') = apply_actions-SameAt p q actions t h all.1 in (x' ∙ x, y' ∙ y)

  -- The actions of one comparison change nothing that is not below its path.
  pub plan_comparison-SameAt :
      (contents : List (String × List String)) (prompts : Prompts) (c : EntryComparison)
      (q : String) (actions : List SynchronizationAction) (s : Sides)
      → under c.relative_path q ≡ false
      → plan_comparison contents prompts c ≡ ok actions
      → SameAt q s (apply_actions under actions s)
  plan_comparison-SameAt contents prompts c q actions s h e =
      apply_actions-SameAt c.relative_path q actions s h
        (plan_comparison_at contents prompts c.relative_path c.first c.second c.confirmed actions e)
