-- ===== src/Config/Interactive/Valid.antt =====
-- What the dialogue of src/config_interactive.go can return.
use mathlib.Core.Path.{subst}
use text.Mathlib.TextEquality.{eq_iff}
use gosync.Base.{
  sym, ap, Bool-cases, ◌⊎◌, inl, inr, arith, ℕ, String, Bool, true, false, not, ◌&&◌, ◌||◌, none,
  List, [], ◌∷◌, ◌≡◌, refl, ◌==◌, string_Eq, nat_Eq, Error, Result, ok, err, ℤ, pos, is_int,
  if◌then◌else◌,
}
use gosync.Os.Monad.{Io, return, throw, within}
use gosync.Os.Monad.Holds.{after_holds, after_from}
use gosync.Config.Domain.{
  ConfigurationSnapshot, ConfigurationDraft, validate_configuration_snapshot, validate_mode,
  out_of_range, bidirectional, unidirectional, backup, schema_version_supported,
}
use gosync.Config.Answers.{
  trim_space, parse_number, parse_synchronization_interval, parse_synchronization_mode,
  parse_backup_retention_count,
}
use gosync.Config.Interactive.{
  Reading, Message, configuration_cancelled, ask, answered, collect_retention,
  collect_configuration_draft, draft_error, confirm_configuration, run_interactive_configuration,
  parse_retention_answer,
}

exclusive : (m : String) → ((m == bidirectional || m == unidirectional) && (m == backup)) ≡ false
exclusive m = elim (Bool-cases (m == backup)) [
  | inl e ↦
      subst (λ x. ((x == bidirectional || x == unidirectional) && (x == backup)) ≡ false)
        (sym ((eq_iff m backup).0 e)) refl
  | inr e ↦ ground arith
]

-- A draft that the guards pass makes a valid configuration.
guarded_valid :
    (d : ConfigurationDraft)
    → draft_error d ≡ none
    → validate_configuration_snapshot (record {
      schema_version = pos schema_version_supported;
      interval_seconds = d.interval_seconds;
      mode = d.mode;
      retention_count = d.retention_count;
    })
      ≡ none
unfolding draft_error validate_configuration_snapshot validate_mode
guarded_valid d h =
    let e : ((d.mode == bidirectional || d.mode == unidirectional) && (d.mode == backup)) ≡ false =
      exclusive d.mode in
    ground arith

parse_number_bounds :
    (no_number : Error) (context : String) (outside : Error) (low high : ℕ) (s : String) (z : ℤ)
    → parse_number no_number context outside low high s ≡ ok z
    → out_of_range z low high ≡ false
unfolding parse_number
parse_number_bounds no_number context outside low high s z h = ground arith

interval_bounds :
    (s : String) (z : ℤ) → parse_synchronization_interval s ≡ ok z → out_of_range z 1 86400 ≡ false
unfolding parse_synchronization_interval
interval_bounds s z = parse_number_bounds _ _ _ 1 86400 s z

retention_bounds :
    (s : String) (z : ℤ) → parse_retention_answer s ≡ ok z → out_of_range z 1 100 ≡ false
unfolding parse_retention_answer parse_backup_retention_count parse_number
retention_bounds s z h = ground arith

mode_known :
    (s m : String)
    → parse_synchronization_mode s ≡ ok m
    → (m ≡ bidirectional) ⊎ ((m ≡ unidirectional) ⊎ (m ≡ backup))
unfolding parse_synchronization_mode
mode_known s m h = ground arith

module _ (World : Type 0) (print : Message → Io World (Unit {0})) where
  answered_holds :
      {A : Type 0} (P : A → Type 0) (m c : String) (rest : List Reading)
      (again : Io World (A × List Reading)) (r : Result A)
      → ((a : A) → r ≡ ok a → P a)
      → ((v : World) (x : A × List Reading) → (again v).1 ≡ ok x → P x.0)
      → (v : World) (x : A × List Reading) → (answered World print m c rest again r v).1 ≡ ok x
      → P x.0
  unfolding answered
  answered_holds P m c rest again (ok a) j k v x =
      λ h. let e : (a, rest) ≡ x = cc in subst (λ y. P y.0) e (j a refl)
  answered_holds P m c rest again (err e) j k v x =
      after_holds (λ p. P p.0) (within c (print _) v) _ (λ u. k) x

  -- What every parsed answer has, the answer of the loop has.
  ask_holds :
      {A : Type 0} (P : A → Type 0) (question : Message) (parse : String → Result A)
      (c m c' : String)
      → ((s : String) (a : A) → parse s ≡ ok a → P a)
      → (reader : List Reading) (w : World) (b : A × List Reading)
      → (ask World print question parse c m c' reader w).1 ≡ ok b
      → P b.0
  unfolding ask
  ask_holds P question parse c m c' k [] w b =
      after_holds (λ p. P p.0) (within c (print question) w) _ (λ u v x h. cc) b
  ask_holds P question parse c m c' k (Reading.failed e ∷ rest) w b =
      after_holds (λ p. P p.0) (within c (print question) w) _ (λ u v x h. cc) b
  ask_holds P question parse c m c' k (Reading.line s ∷ rest) w b =
      after_holds (λ p. P p.0) (within c (print question) w) _
        (λ u.
          answered_holds P m c' rest _ (parse (trim_space s)) (k (trim_space s))
            (ask_holds P question parse c m c' k rest))
        b

  -- The retention count belongs to the mode.
  abbrev Suits : String → ℤ → Type 0
  Suits mode n = (if mode == backup then not (out_of_range n 1 100) else is_int n 0) ≡ true

  collect_retention-Suits :
      (mode : String) (reader : List Reading) (w : World) (b : ℤ × List Reading)
      → (collect_retention World print mode reader w).1 ≡ ok b
      → Suits mode b.0
  unfolding collect_retention
  collect_retention-Suits mode reader w b = chosen (mode == backup) _ (λ h. ap not (
      ask_holds (λ n. out_of_range n 1 100 ≡ false) _ parse_retention_answer _ _ _ retention_bounds
        reader w b h))
    where
      chosen :
          (c : Bool) (a : Io World (ℤ × List Reading))
          → ((a w).1 ≡ ok b → not (out_of_range b.0 1 100) ≡ true)
          → ((if c then a else return (pos 0, reader)) w).1 ≡ ok b
          → (if c then not (out_of_range b.0 1 100) else is_int b.0 0) ≡ true
      chosen true a k h = k h
      chosen false a k h =
          let e : (pos 0, reader) ≡ b = cc in subst (λ y. is_int y.0 0 ≡ true) e refl

  abbrev Known : String → Type 0
  Known m = (m ≡ bidirectional) ⊎ ((m ≡ unidirectional) ⊎ (m ≡ backup))

  draft_passes :
      (i : ℤ) (m : String) (n : ℤ)
      → out_of_range i 1 86400 ≡ false
      → Known m
      → Suits m n
      → draft_error (record { interval_seconds = i; mode = m; retention_count = n }) ≡ none
  unfolding draft_error
  draft_passes i m n b known = elim known [
    | inl e ↦ at_mode bidirectional e (λ u. ground arith)
    | inr other ↦ elim other [
      | inl e ↦ at_mode unidirectional e (λ u. ground arith)
      | inr e ↦ at_mode backup e (λ u. ground arith)
    ]
  ]
    where
      Passes : String → Type 0
      Passes x =
          Suits x n
          → draft_error (record { interval_seconds = i; mode = x; retention_count = n }) ≡ none

      at_mode : (x : String) → m ≡ x → Passes x → Passes m
      at_mode x e = subst Passes (sym e)

  -- If the questions collect a draft, that passes every guard of the confirmation.
  pub collect_configuration_draft_passes :
      (reader : List Reading) (w : World) (b : ConfigurationDraft × List Reading)
      → (collect_configuration_draft World print reader w).1 ≡ ok b
      → draft_error b.0 ≡ none
  unfolding collect_configuration_draft
  collect_configuration_draft_passes reader w =
      after_from Passes (ask World print _ parse_synchronization_interval _ _ _ reader w) _
        λ i w1 hi.
          after_from Passes (ask World print _ parse_synchronization_mode _ _ _ i.1 w1) _ λ m w2 hm.
            after_from Passes (collect_retention World print m.0 m.1 w2) _ λ n w3 hn b h.
              subst Passes (returned i m n w3 b h) (
                draft_passes i.0 m.0 n.0
                  (ask_holds (λ z. out_of_range z 1 86400 ≡ false) _ parse_synchronization_interval
                    _ _ _ interval_bounds reader w i hi)
                  (ask_holds Known _ parse_synchronization_mode _ _ _ mode_known i.1 w1 m hm)
                  (collect_retention-Suits m.0 m.1 w2 n hn))
    where
      Passes : ConfigurationDraft × List Reading → Type 0
      Passes b = draft_error b.0 ≡ none

      returned :
          (i : ℤ × List Reading) (m : String × List Reading) (n : ℤ × List Reading) (v : World)
          → (b : ConfigurationDraft × List Reading)
          → (return (record { interval_seconds = i.0; mode = m.0; retention_count = n.0 }, n.1) v).1
            ≡ ok b
          → (record { interval_seconds = i.0; mode = m.0; retention_count = n.0 }, n.1) ≡ b
      returned i m n v b h = cc

  -- If the dialogue returns a configuration, that passes the validation.
  pub run_interactive_configuration_valid :
      (reader : List Reading) (w : World) (c : ConfigurationSnapshot)
      → (run_interactive_configuration World print reader w).1 ≡ ok c
      → validate_configuration_snapshot c ≡ none
  unfolding run_interactive_configuration
  run_interactive_configuration_valid reader w =
      after_from HasValid (collect_configuration_draft World print reader w) _ λ d w1 hd.
        after_from HasValid (confirm_configuration World print d.1 d.0 w1) _
          λ yes w2 hy. confirmed d.0 (collect_configuration_draft_passes reader w d hd) yes w2
    where
      HasValid : ConfigurationSnapshot → Type 0
      HasValid c = validate_configuration_snapshot c ≡ none

      confirmed :
          (d : ConfigurationDraft)
          → draft_error d ≡ none
          → (yes : Bool) (v : World) (c : ConfigurationSnapshot)
          → ((if yes
                then return (record {
                  schema_version = pos schema_version_supported;
                  interval_seconds = d.interval_seconds;
                  mode = d.mode;
                  retention_count = d.retention_count;
                })
                else throw configuration_cancelled)
              v).1
            ≡ ok c
          → HasValid c
      confirmed d p true v c h = let q = guarded_valid d p in cc
      confirmed d p false v c h = cc
