-- ===== src/Sync/Effect/Push.antt =====
-- One side brought in line with the other: the argument that both mirroring planners share.
use gosync.Base.{
  String, Option, Bool, true, none, List, [], ◌∷◌, ◌==◌, string_Eq, ◌≡◌, ◌⊎◌, inl, inr, contains,
  Bool-cases, All,
}
use mathlib.Core.Path.{subst}
use text.Mathlib.TextEquality.{eq_iff}
use gosync.Sync.Domain.{SynchronizationEntry}
use gosync.Sync.Effect.{View, agrees, agrees_refl, graft, prune}

-- What is done at a path of the target.
pub data Verb : Type 0 where
  keep overwrite remove : Verb

-- A path is kept only if it agrees already, and removed only if the source lacks it.
abbrev pub IsSoundAt : Option SynchronizationEntry → Option SynchronizationEntry → Verb → Type 0
IsSoundAt a b keep = agrees a b ≡ true
IsSoundAt a b overwrite = Unit
IsSoundAt a b remove = a ≡ none

module _ (under : String → String → Bool) (source : View) where
  unfoldable pub push : String → Verb → View → View
  unfolding graft prune
  push p keep target = target
  push p overwrite target = graft under p source target
  push p remove target = prune under p target

  unfoldable pub push_all : List (String × Verb) → View → View
  unfolding push
  push_all [] target = target
  push_all ((p, v) ∷ vs) target = push_all vs (push p v target)

  abbrev pub IsSound : View → String × Verb → Type 0
  IsSound old (p, v) = IsSoundAt (source p) (old p) v

  -- A source with no entry at a path has none below it.
  abbrev pub IsTree : Type 0
  IsTree = (p q : String) → under p q ≡ true → source p ≡ none → source q ≡ none

  abbrev pub verb_paths : List (String × Verb) → List String
  verb_paths [] = []
  verb_paths ((p, v) ∷ vs) = p ∷ verb_paths vs

module _ (under : String → String → Bool) (source old : View) (tree : IsTree under source)
    (under_refl : (p : String) → under p p ≡ true) (q : String) where
  push-agrees :
      (p : String) (v : Verb) (target : View)
      → IsSound under source old (p, v)
      → agrees (source q) (target q) ≡ true
      → agrees (source q) (push under source p v target q) ≡ true
  unfolding push
  push-agrees p keep target s h = h
  push-agrees p overwrite target s h = elim (Bool-cases (under p q)) [
    | inl e ↦ rw e (agrees_refl (source q))
    | inr e ↦ rw e h
  ]
  push-agrees p remove target s h = elim (Bool-cases (under p q)) [
    | inl e ↦ rw (e, tree p q e s) (agrees_refl none)
    | inr e ↦ rw e h
  ]

  -- A target that still has its old entry keeps it, or is brought in line.
  push_old :
      (p : String) (v : Verb) (target : View)
      → IsSound under source old (p, v)
      → target q ≡ old q
      → (push under source p v target q ≡ old q)
        ⊎ (agrees (source q) (push under source p v target q) ≡ true)
  unfolding push
  push_old p keep target s h = inl h
  push_old p overwrite target s h = elim (Bool-cases (under p q)) [
    | inl e ↦ inr (rw e (agrees_refl (source q)))
    | inr e ↦ inl (rw e h)
  ]
  push_old p remove target s h = elim (Bool-cases (under p q)) [
    | inl e ↦ inr (rw (e, tree p q e s) (agrees_refl none))
    | inr e ↦ inl (rw e h)
  ]

  -- At its own path a sound verb brings the target in line.
  push_own :
      (v : Verb) (target : View)
      → IsSound under source old (q, v)
      → (target q ≡ old q) ⊎ (agrees (source q) (target q) ≡ true)
      → agrees (source q) (push under source q v target q) ≡ true
  unfolding push
  push_own keep target s (inl h) = rw h s
  push_own keep target s (inr h) = h
  push_own overwrite target s h = rw (under_refl q) (agrees_refl (source q))
  push_own remove target s h = rw (under_refl q, s) (agrees_refl none)

  -- What agrees stays so.
  pub push_all-agrees :
      (vs : List (String × Verb)) (target : View)
      → All (IsSound under source old) vs
      → agrees (source q) (target q) ≡ true
      → agrees (source q) (push_all under source vs target q) ≡ true
  unfolding push_all
  push_all-agrees [] target s h = h
  push_all-agrees ((p, v) ∷ vs) target s h = push_all-agrees vs _ s.1 (push-agrees p v target s.0 h)

  -- A listed path agrees in the end.
  pub push_all_listed :
      (vs : List (String × Verb)) (target : View)
      → All (IsSound under source old) vs
      → (target q ≡ old q) ⊎ (agrees (source q) (target q) ≡ true)
      → contains q (verb_paths under source vs) ≡ true
      → agrees (source q) (push_all under source vs target q) ≡ true
  unfolding push_all
  push_all_listed [] target s h m = cc
  push_all_listed ((p, v) ∷ vs) target s h m = elim (Bool-cases (p == q)) [
    | inl e ↦ here ((eq_iff p q).0 e) s.0
    | inr e ↦ push_all_listed vs _ s.1 (next h) (rw e at m)
  ]
    where
      here :
          p ≡ q
          → IsSound under source old (p, v)
          → agrees (source q) (push_all under source vs (push under source p v target) q) ≡ true
      here e t =
          push_all-agrees vs _ s.1
            (rw e (push_own v target (subst (λ x. IsSound under source old (x, v)) e t) h))

      next :
          (target q ≡ old q) ⊎ (agrees (source q) (target q) ≡ true)
          → (push under source p v target q ≡ old q)
            ⊎ (agrees (source q) (push under source p v target q) ≡ true)
      next (inl k) = push_old p v target s.0 k
      next (inr k) = inr (push-agrees p v target s.0 k)
