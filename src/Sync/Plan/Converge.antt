-- ===== src/Sync/Plan/Converge.antt =====
-- The two sides behind the plans of src/unidirectional_sync.go and src/watch_command.go in which one side prevails.
use gosync.Base.{
  String, Bool, true, Option, none, List, [], ◌∷◌, string_Eq, contains, ◌≡◌, refl, ◌≢◌, ◌⊎◌, inl,
  inr, ◌∙◌, All, Option-cases, ap, ok,
}
use gosync.Sync.Domain.{SynchronizationEntry, SynchronizationPlan, first_side, second_side}
use gosync.Sync.Inventory.{
  DirectoryInventory, inventory_entry, compare_directory_inventories, sorted_paths,
}
use gosync.Sync.Inventory.Laws.{sorted_paths-contains}
use gosync.Sync.Plan.{
  generate_unidirectional_synchronization_plan, generate_authoritative_synchronization_plan,
}
use gosync.Sync.Plan.Mirror.{
  verbs, mirror_verb, prevail_verb, mirror_verb-IsSoundAt, prevail_verb-IsSoundAt,
  mirror_actions_push, prevail_actions_first_push, prevail_actions_second_push,
}
use gosync.Sync.Effect.{View, Sides, agrees, agrees_refl, apply_actions}
use gosync.Sync.Effect.Push.{
  Verb, push_all, IsSound, IsSoundAt, IsTree, verb_paths, push_all_listed, push_all-agrees,
}

module _ (f : Option SynchronizationEntry → Option SynchronizationEntry → Verb)
    (sound : (a b : Option SynchronizationEntry) → IsSoundAt a b (f a b))
    (under : String → String → Bool) (under_refl : (p : String) → under p p ≡ true)
    (source old : View) (tree : IsTree under source) where
  verbs-IsSound : (ps : List String) → All (IsSound under source old) (verbs f source old ps)
  verbs-IsSound [] = tt
  verbs-IsSound (p ∷ ps) = (sound (source p) (old p), verbs-IsSound ps)

  verb_paths-verbs : (ps : List String) → verb_paths under source (verbs f source old ps) ≡ ps
  verb_paths-verbs [] = refl
  verb_paths-verbs (p ∷ ps) = ap (◌∷◌ p) (verb_paths-verbs ps)

  -- Where every path of either side is listed, the target agrees at every path.
  verbs_converge :
      (ps : List String)
      → ((q : String) → (source q ≢ none) ⊎ (old q ≢ none) → contains q ps ≡ true)
      → (q : String)
      → agrees (source q) (push_all under source (verbs f source old ps) old q) ≡ true
  verbs_converge ps cover q = elim (Option-cases (source q)) [
    | inr (a, e) ↦ listed (cover q (inl (λ n. cc (n, e))))
    | inl e ↦ elim (Option-cases (old q)) [
      | inr (b, e') ↦ listed (cover q (inr (λ n. cc (n, e'))))
      | inl e' ↦
          push_all-agrees under source old tree under_refl q _ old (verbs-IsSound ps)
            (rw (e, e') (agrees_refl none))
    ]
  ]
    where
      listed :
          contains q ps ≡ true
          → agrees (source q) (push_all under source (verbs f source old ps) old q) ≡ true
      listed m =
          push_all_listed under source old tree under_refl q _ old (verbs-IsSound ps) (inl refl)
            (rw verb_paths-verbs m)

-- The two roots as their inventories show them.
abbrev pub sides : DirectoryInventory → DirectoryInventory → Sides
sides a b = record { first = inventory_entry a; second = inventory_entry b }

module _ (under : String → String → Bool) (under_refl : (p : String) → under p p ≡ true) where
  -- One unidirectional cycle: if the source inventory has no entry below a missing path, the planner
  -- returns a plan whose actions leave the source as it is and make the destination agree with it
  -- at every path.
  pub unidirectional_plan_converges :
      (a b : DirectoryInventory)
      → IsTree under (inventory_entry a)
      → (plan : SynchronizationPlan) × (generate_unidirectional_synchronization_plan
            (compare_directory_inventories a b)
          ≡ ok plan)
        × ((apply_actions under plan.actions (sides a b)).first ≡ inventory_entry a)
        × ((q : String)
            → agrees (inventory_entry a q) ((apply_actions under plan.actions (sides a b)).second q)
              ≡ true)
  unfolding generate_unidirectional_synchronization_plan compare_directory_inventories
  unidirectional_plan_converges a b tree =
      let e =
        mirror_actions_push under a b (sorted_paths a b) (inventory_entry a) (inventory_entry b) in
      (
        record { actions = _ },
        refl,
        ap (λ (s : Sides). s.first) e,
        λ q.
            ap (λ (s : Sides). agrees (inventory_entry a q) (s.second q)) e
            ∙ verbs_converge mirror_verb mirror_verb-IsSoundAt under under_refl (inventory_entry a)
                (inventory_entry b) tree (sorted_paths a b) (sorted_paths-contains a b) q,
      )

  -- The plan in which the first side prevails leaves that side as it is and makes the second agree
  -- with it at every path, if the first inventory has no entry below a missing path; and the plan
  -- in which the second side prevails does so with the sides exchanged.
  pub authoritative_plan_converges :
      (a b : DirectoryInventory)
      → IsTree under (inventory_entry a)
      → IsTree under (inventory_entry b)
      → let cs = compare_directory_inventories a b in
        let s =
          apply_actions under
            (generate_authoritative_synchronization_plan cs first_side).actions
            (sides a b) in
        let t =
          apply_actions under
            (generate_authoritative_synchronization_plan cs second_side).actions
            (sides a b) in
        (s.first ≡ inventory_entry a)
        × ((q : String) → agrees (inventory_entry a q) (s.second q) ≡ true)
        × (t.second ≡ inventory_entry b)
        × ((q : String) → agrees (inventory_entry b q) (t.first q) ≡ true)
  unfolding generate_authoritative_synchronization_plan compare_directory_inventories
  authoritative_plan_converges a b tree_a tree_b =
      let e =
        prevail_actions_first_push under a b (sorted_paths a b) (inventory_entry a)
          (inventory_entry b) in
      let e' =
        prevail_actions_second_push under a b (sorted_paths a b) (inventory_entry b)
          (inventory_entry a) in
      (
        ap (λ (s : Sides). s.first) e,
        λ q.
            ap (λ (s : Sides). agrees (inventory_entry a q) (s.second q)) e
            ∙ verbs_converge prevail_verb prevail_verb-IsSoundAt under under_refl
                (inventory_entry a) (inventory_entry b) tree_a (sorted_paths a b)
                (sorted_paths-contains a b) q,
        ap (λ (s : Sides). s.second) e',
        λ q.
            ap (λ (s : Sides). agrees (inventory_entry b q) (s.first q)) e'
            ∙ verbs_converge prevail_verb prevail_verb-IsSoundAt under under_refl
                (inventory_entry b) (inventory_entry a) tree_b (sorted_paths a b)
                (λ q' h. sorted_paths-contains a b q' (swap q' h)) q,
      )
    where
      swap :
          (q : String)
          → (inventory_entry b q ≢ none) ⊎ (inventory_entry a q ≢ none)
          → (inventory_entry a q ≢ none) ⊎ (inventory_entry b q ≢ none)
      swap q (inl h) = inr h
      swap q (inr h) = inl h
