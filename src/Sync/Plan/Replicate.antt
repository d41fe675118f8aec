-- ===== src/Sync/Plan/Replicate.antt =====
-- What the two-way plan of src/synchronization_plan.go makes of additions and deletions.
use gosync.Base.{
  String, Bool, true, Option, none, some, List, [], ◌∷◌, false, ok, ◌≡◌, refl, sym, ◌∙◌, ◌++◌, All,
  passed_on, ◌⊎◌, inl, inr,
}
use gosync.Sync.Domain.{
  SynchronizationEntry, SynchronizationAction, EntryComparison, SynchronizationPlan,
}
use gosync.Sync.Plan.{
  Prompts, plan_actions, plan_comparison, classify_additions_and_deletions, classify_sides,
  generate_synchronization_plan,
}
use gosync.Sync.Plan.Located.{SameAt, plan_comparison-SameAt}
use gosync.Sync.Effect.{Sides, apply_actions, apply_kind, graft, prune, apply_actions-append}
use gosync.Os.Monad.Holds.{ok_holds}
use mathlib.Core.Path.{subst}

-- The entry that both sides should hold at a path that one of them misses: none if the path is
-- confirmed, and the entry of the other side if it is not.
abbrev pub replicated : EntryComparison → Option SynchronizationEntry
replicated c = elim c.confirmed [
  | some e ↦ none
  | none ↦ elim c.first [ none ↦ c.second | some a ↦ some a ]
]

-- Both sides hold the entry that they should hold.
abbrev pub Replicated : EntryComparison → Sides → Type 0
Replicated c s =
    (s.first c.relative_path ≡ replicated c) × (s.second c.relative_path ≡ replicated c)

module _ (under : String → String → Bool) (under_refl : (p : String) → under p p ≡ true) where
  -- The actions of a comparison of which one side misses its entry, from sides that hold its entries.
  replicates_one :
      (contents : List (String × List String)) (prompts : Prompts) (p : String)
      (a b k : Option SynchronizationEntry) (actions : List SynchronizationAction) (s : Sides)
      → let d : EntryComparison = record {
        relative_path = p;
        first = a;
        second = b;
        confirmed = k;
      } in
        plan_comparison contents prompts d ≡ ok actions
        → s.first p ≡ a
        → s.second p ≡ b
        → (a ≡ none) ⊎ (b ≡ none)
        → Replicated d (apply_actions under actions s)
  unfolding plan_comparison classify_additions_and_deletions classify_sides apply_actions apply_kind
      graft prune
  replicates_one contents prompts p (some a) (some b) k actions s h f g (inl m) = absurd cc
  replicates_one contents prompts p (some a) (some b) k actions s h f g (inr m) = absurd cc
  replicates_one contents prompts p none none none actions s h f g m =
      ok_holds
        (λ x.
          Replicated (record { relative_path = p; first = none; second = none; confirmed = none })
            (apply_actions under x s))
        (f, g) h
  replicates_one contents prompts p none none (some e) actions s h f g m =
      ok_holds
        (λ x.
          Replicated (record { relative_path = p; first = none; second = none; confirmed = some e })
            (apply_actions under x s))
        (f, g) h
  replicates_one contents prompts p (some a) none none actions s h f g m =
      ok_holds
        (λ x.
          Replicated (record { relative_path = p; first = some a; second = none; confirmed = none })
            (apply_actions under x s))
        (f, rw (under_refl p) f) h
  replicates_one contents prompts p (some a) none (some e) actions s h f g m =
      ok_holds
        (λ x.
          Replicated
            (record { relative_path = p; first = some a; second = none; confirmed = some e })
            (apply_actions under x s))
        (rw (under_refl p) refl, g) h
  replicates_one contents prompts p none (some b) none actions s h f g m =
      ok_holds
        (λ x.
          Replicated (record { relative_path = p; first = none; second = some b; confirmed = none })
            (apply_actions under x s))
        (rw (under_refl p) g, g) h
  replicates_one contents prompts p none (some b) (some e) actions s h f g m =
      ok_holds
        (λ x.
          Replicated
            (record { relative_path = p; first = none; second = some b; confirmed = some e })
            (apply_actions under x s))
        (f, rw (under_refl p) refl) h

  -- The path does not lie below that of the comparison.
  abbrev pub Apart : String → EntryComparison → Type 0
  Apart q d = under d.relative_path q ≡ false

  plan_actions-SameAt :
      (contents : List (String × List String)) (prompts : Prompts) (q : String)
      (cs : List EntryComparison) (actions : List SynchronizationAction) (s : Sides)
      → All (Apart q) cs
      → plan_actions contents prompts cs ≡ ok actions
      → SameAt under q s (apply_actions under actions s)
  unfolding plan_actions apply_actions
  plan_actions-SameAt contents prompts q [] actions s all h =
      ok_holds (λ x. SameAt under q s (apply_actions under x s)) (refl, refl) h
  plan_actions-SameAt contents prompts q (c ∷ cs) actions s all h =
      let (own, (e, h)) = passed_on (plan_comparison contents prompts c) _ h in
      let (rest, (e', h)) = passed_on (plan_actions contents prompts cs) _ h in
      let t = apply_actions under own s in
      let (x, y) = plan_comparison-SameAt under contents prompts c q own s all.0 e in
      let (x', y') = plan_actions-SameAt contents prompts q cs rest t all.1 e' in
      ok_holds (λ z. SameAt under q s (apply_actions under z s))
        (subst (SameAt under q s) (sym (apply_actions-append under own rest s)) (x' ∙ x, y' ∙ y)) h

  plan_actions_replicate :
      (contents : List (String × List String)) (prompts : Prompts) (c : EntryComparison)
      (before behind : List EntryComparison) (actions : List SynchronizationAction) (s : Sides)
      → All (Apart c.relative_path) before
      → All (Apart c.relative_path) behind
      → s.first c.relative_path ≡ c.first
      → s.second c.relative_path ≡ c.second
      → (c.first ≡ none) ⊎ (c.second ≡ none)
      → plan_actions contents prompts (before ++ (c ∷ behind)) ≡ ok actions
      → Replicated c (apply_actions under actions s)
  unfolding plan_actions
  plan_actions_replicate contents prompts c [] behind actions s all all' f g m h =
      let (own, (e, h)) = passed_on (plan_comparison contents prompts c) _ h in
      let (rest, (e', h)) = passed_on (plan_actions contents prompts behind) _ h in
      let (x, y) =
        replicates_one contents prompts c.relative_path c.first c.second c.confirmed own s e f g
          m in
      let (x', y') =
        plan_actions-SameAt contents prompts c.relative_path behind rest (apply_actions under own s)
          all' e' in
      ok_holds (λ z. Replicated c (apply_actions under z s))
        (subst (Replicated c) (sym (apply_actions-append under own rest s)) (x' ∙ x, y' ∙ y)) h
  plan_actions_replicate contents prompts c (d ∷ before) behind actions s all all' f g m h =
      let (own, (e, h)) = passed_on (plan_comparison contents prompts d) _ h in
      let (rest, (e', h)) =
        passed_on (plan_actions contents prompts (before ++ (c ∷ behind))) _ h in
      let t = apply_actions under own s in
      let (x, y) = plan_comparison-SameAt under contents prompts d c.relative_path own s all.0 e in
      ok_holds (λ z. Replicated c (apply_actions under z s))
        (subst (Replicated c) (sym (apply_actions-append under own rest s)) (
          plan_actions_replicate contents prompts c before behind rest t all.1 all' (x ∙ f) (y ∙ g)
            m e'))
        h

  -- For a path of a two-way plan that one side misses, and that lies below no path of another comparison,
  -- from sides that hold the entries of its comparison:
  -- the plan replicates the other side's entry, or its deletion if the path is confirmed. Behind all its
  -- actions both sides hold the same at that path, whatever the plan does elsewhere.
  pub generate_synchronization_plan_replicates :
      (c : EntryComparison) (before behind : List EntryComparison)
      (contents : List (String × List String)) (prompts : Prompts) (s : Sides)
      (plan : SynchronizationPlan)
      → generate_synchronization_plan (before ++ (c ∷ behind)) contents prompts ≡ ok plan
      → All (Apart c.relative_path) before
      → All (Apart c.relative_path) behind
      → s.first c.relative_path ≡ c.first
      → s.second c.relative_path ≡ c.second
      → (c.first ≡ none) ⊎ (c.second ≡ none)
      → Replicated c (apply_actions under plan.actions s)
  unfolding generate_synchronization_plan
  generate_synchronization_plan_replicates c before behind contents prompts s plan h all all' f g
        m =
      let (actions, (e, h)) =
        passed_on (plan_actions contents prompts (before ++ (c ∷ behind))) _ h in
      ok_holds (λ (x : SynchronizationPlan). Replicated c (apply_actions under x.actions s))
        (plan_actions_replicate contents prompts c before behind actions s all all' f g m e) h

  -- An entry that is new on the first side, below a confirmed path that the second side has deleted:
  -- the plan of the two comparisons leaves neither side with the new entry.
  pub deletion_loses_addition :
      (p q : String) (a b e : SynchronizationEntry) (contents : List (String × List String))
      (prompts : Prompts) (s : Sides)
      → under p q ≡ true
      → let deleted : EntryComparison = record {
        relative_path = p;
        first = some a;
        second = none;
        confirmed = some e;
      } in
        let added : EntryComparison = record {
          relative_path = q;
          first = some b;
          second = none;
          confirmed = none;
        } in
        (plan : SynchronizationPlan) × (generate_synchronization_plan
            (deleted ∷ added ∷ [])
            contents
            prompts
          ≡ ok plan)
        × ((apply_actions under plan.actions s).first q ≡ none)
        × ((apply_actions under plan.actions s).second q ≡ none)
  unfolding generate_synchronization_plan apply_actions
  deletion_loses_addition p q a b e contents prompts s h =
      (_, refl, rw h refl, rw (under_refl q, h) refl)
