-- ===== src/Backup/Retention/Journal.antt =====
-- The order of marks, saves and removals in the retention of src/backup_recovery_retention.go, in a world that
-- records them.
use gosync.Base.{
  ℕ, String, Bool, true, false, Option, none, some, List, [], ◌∷◌, if◌then◌else◌, ok, err, Result,
  Error, All, ◌≡◌, refl, ◌≢◌, inl, inr, wrap_of, Bool-cases, length, ◌==◌, nat_Eq,
}
use gosync.Os.Monad.{Io, lift, return, within, ◌>>=◌, ◌>>◌, after, within_result}
use gosync.Backup.SetState.{BackupArchiveRecord, BackupRemovalState, BackupSetState}
use gosync.Backup.Retention.{
  Storage, marked_state, mark_backup_archive_pending_removal, forgive_missing, finish_removal,
  resume_removal, resume_backup_pending_removal, remove_expired, execute_backup_retention,
}

-- A world that records each removal with the state that was saved at that moment. The outcomes of the
-- calls are scripted: those of the saves and those of the removals. A failed save may have lost the
-- saved state.
pub record Journal : Type 0 where
  pub save_outcomes : List (Result (Unit {0}))
  pub remove_outcomes : List (Result (Unit {0}))
  pub saved : Option BackupSetState
  pub removals : List (String × Option BackupSetState)

abbrev pub next_outcome : List (Result (Unit {0})) → Result (Unit {0})
next_outcome [] = ok tt
next_outcome (r ∷ rs) = r

abbrev pub later_outcomes : List (Result (Unit {0})) → List (Result (Unit {0}))
later_outcomes [] = []
later_outcomes (r ∷ rs) = rs

abbrev pub saved_after : Result (Unit {0}) → BackupSetState → Option BackupSetState
saved_after (ok u) s = some s
saved_after (err e) s = none

abbrev pub journaling : (Error → Bool) → Storage Journal
journaling is_not_exist = record {
  save = λ s j. (
    record j {
      save_outcomes = later_outcomes j.save_outcomes;
      saved = saved_after (next_outcome j.save_outcomes) s;
    },
    next_outcome j.save_outcomes,
  );
  remove_archive = λ name j. (
    record j {
      remove_outcomes = later_outcomes j.remove_outcomes;
      removals = (name, j.saved) ∷ j.removals;
    },
    next_outcome j.remove_outcomes,
  );
  is_not_exist = is_not_exist;
}

abbrev pub Names : String → Option BackupSetState → Type 0
Names name none = ⊥
Names name (some s) = (p : BackupRemovalState) × (s.pending_removal ≡ some p) × (p.file_name ≡ name)

-- Every removal so far was named by the state saved at its time.
abbrev pub IsGuarded : Journal → Type 0
IsGuarded j = All (λ (name, s). Names name s) j.removals

module _ (is_not_exist : Error → Bool) where
  IsGuarded-after :
      {A B : Type 0} (r : Journal × Result A) (f : A → Io Journal B)
      → IsGuarded r.0
      → ((a : A) (j : Journal) → IsGuarded j → IsGuarded (f a j).0)
      → IsGuarded (after r f).0
  unfolding after
  IsGuarded-after (j, ok a) f g k = k a j g
  IsGuarded-after (j, err e) f g k = g

  IsGuarded-within :
      {A : Type 0} (s : String) (r : Journal × Result A)
      → IsGuarded r.0
      → IsGuarded (within_result s r).0
  unfolding within_result
  IsGuarded-within s (j, ok a) g = g
  IsGuarded-within s (j, err e) g = g

  IsGuarded-forgive :
      (name : String) (r : Journal × Result (Unit {0}))
      → IsGuarded r.0
      → IsGuarded (forgive_missing Journal (journaling is_not_exist) name r).0
  unfolding forgive_missing
  IsGuarded-forgive name (j, ok u) g = g
  IsGuarded-forgive name (j, err e) g = split (is_not_exist e)
    where
      split :
          (b : Bool)
          → IsGuarded (
              let r : Journal × Result (Unit {0}) =
                if b
                then (j, ok tt)
                else (j, err (wrap_of "remove pending backup archive %q" name e)) in
              r.0)
      split true = g
      split false = g

  IsGuarded-finish :
      (s : BackupSetState) (p : BackupRemovalState) (j : Journal)
      → IsGuarded j
      → IsGuarded (finish_removal Journal (journaling is_not_exist) s p j).0
  unfolding finish_removal
  IsGuarded-finish s p j g = elim (Bool-cases (length s.archives == 0)) [
    | inl e ↦ rw e g
    | inr e ↦ rw e (IsGuarded-after _ _ (IsGuarded-within _ _ g) (λ u j' g'. g'))
  ]

  -- A saved state with a pending removal is resumed safely.
  IsGuarded-resume_removal :
      (s : BackupSetState) (o : Option BackupRemovalState) (j : Journal)
      → s.pending_removal ≡ o
      → (o ≢ none → j.saved ≡ some s)
      → IsGuarded j
      → IsGuarded (resume_removal Journal (journaling is_not_exist) s o j).0
  unfolding resume_removal
  IsGuarded-resume_removal s none j e h g = g
  IsGuarded-resume_removal s (some p) j e h g =
      IsGuarded-after _ _
        (IsGuarded-forgive p.file_name ((journaling is_not_exist).remove_archive p.file_name j)
          (named, g))
        λ u j' g'. IsGuarded-finish s p j' g'
    where
      named : Names p.file_name j.saved
      named = rw (h (λ n. cc)) (p, e, refl)

  IsGuarded-resume :
      (s : BackupSetState) (j : Journal)
      → (s.pending_removal ≢ none → j.saved ≡ some s)
      → IsGuarded j
      → IsGuarded (resume_backup_pending_removal Journal (journaling is_not_exist) s j).0
  unfolding resume_backup_pending_removal
  IsGuarded-resume s j h g = IsGuarded-resume_removal s s.pending_removal j refl h g

  -- After a successful mark the marked state is the saved one.
  abbrev IsMarked : Journal × Result BackupSetState → Type 0
  IsMarked (j, ok m) = IsGuarded j × (j.saved ≡ some m)
  IsMarked (j, err e) = IsGuarded j

  mark-IsMarked :
      (s : BackupSetState) (r : BackupArchiveRecord) (j : Journal)
      → IsGuarded j
      → IsMarked (mark_backup_archive_pending_removal Journal (journaling is_not_exist) s r j)
  unfolding mark_backup_archive_pending_removal
  mark-IsMarked s r j g = by_state (marked_state s r)
    where
      by_outcome :
          (m : BackupSetState) (o : Result (Unit {0})) (rest : List (Result (Unit {0})))
          → IsMarked (
              after
                (within_result "mark backup archive pending removal"
                  (record j { save_outcomes = rest; saved = saved_after o m }, o))
                (λ u. return m))
      by_outcome m (ok u) rest = unfold after within_result in (g, refl)
      by_outcome m (err e) rest = unfold after within_result in g

      by_state :
          (q : Result BackupSetState)
          → IsMarked (
              (◌>>=◌ (lift q) λ updated. do
                within "mark backup archive pending removal"
                    ((journaling is_not_exist).save updated)
                return updated)
                j)
      by_state (ok m) = unfold after in by_outcome m (next_outcome j.save_outcomes) _
      by_state (err e) = unfold after in g

  IsGuarded-after_mark :
      {B : Type 0} (r : Journal × Result BackupSetState) (f : BackupSetState → Io Journal B)
      → IsMarked r
      → ((m : BackupSetState) (j : Journal) → IsGuarded j → j.saved ≡ some m → IsGuarded (f m j).0)
      → IsGuarded (after r f).0
  unfolding after
  IsGuarded-after_mark (j, ok m) f h k = k m j h.0 h.1
  IsGuarded-after_mark (j, err e) f h k = h

  IsGuarded-remove_expired :
      (xs : List BackupArchiveRecord) (s : BackupSetState) (j : Journal)
      → IsGuarded j
      → IsGuarded (remove_expired Journal (journaling is_not_exist) xs s j).0
  unfolding remove_expired
  IsGuarded-remove_expired [] s j g = g
  IsGuarded-remove_expired (r ∷ xs) s j g =
      IsGuarded-after_mark _ _ (mark-IsMarked s r j g) λ m j1 g1 h1.
        IsGuarded-after _ _ (IsGuarded-resume m j1 (λ n. h1) g1)
          λ f j2 g2. IsGuarded-remove_expired xs f j2 g2

  -- Whatever the saves and removals return, a run of the retention that starts with the saved state,
  -- if that has a pending removal, removes an archive file only while the state that was last saved
  -- names that file as its pending removal.
  pub retention_removes_marked :
      (s : BackupSetState) (n : ℕ) (j : Journal)
      → (s.pending_removal ≢ none → j.saved ≡ some s)
      → IsGuarded j
      → IsGuarded (execute_backup_retention Journal (journaling is_not_exist) s n j).0
  unfolding execute_backup_retention
  retention_removes_marked s n j h g =
      IsGuarded-after _ _ (IsGuarded-resume s j h g) λ resumed j1 g1.
        IsGuarded-after _ _ g1 λ expired j2 g2. IsGuarded-remove_expired expired resumed j2 g2
