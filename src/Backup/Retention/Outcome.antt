-- ===== src/Backup/Retention/Outcome.antt =====
-- The retention of src/backup_recovery_retention.go over a store that can save and files that can be removed.
use Prim.Native.Nat.{min}
use mathlib.Core.Path.{subst}
use gosync.Base.{
  ℕ, ◌≤◌, String, Bool, true, false, Option, none, some, List, [], ◌∷◌, ◌++◌, if◌then◌else◌, length,
  ok, err, Result, Error, ◌≡◌, refl, arith, ap, ◌∙◌, sym, ◌==◌, nat_Eq, ltb, text,
}
use gosync.Os.Monad.{lift, ◌>>=◌, after, within_result}
use gosync.Backup.SetState.{
  BackupArchiveRecord, BackupRemovalState, BackupSetState, validate_backup_set_state,
}
use gosync.Backup.SetState.Valid.{Distinct, pending_count, MatchesPending, IsValid}
use gosync.Backup.SetState.Valid.Complete.{IsValid-validate}
use gosync.Backup.Retention.{
  Storage, finished_state, removal_of, is_retention_count, plan_backup_retention,
  mark_backup_archive_pending_removal, forgive_missing, resume_removal, remove_expired,
  execute_backup_retention, validate_backup_retention_compliance,
}
use gosync.Backup.Retention.Valid.{finished_state-IsValid}
use gosync.Backup.Retention.Head.{
  head_marked, tail_state, marked_state_head, finished_head, head_marked-IsValid,
}
use gosync.Backup.Retention.Plan.{newest, plan_keeps_newest, confirmed_head, filter_confirmed}

-- A removal that succeeds, or finds no file.
abbrev pub IsRemoved : (Error → Bool) → Result (Unit {0}) → Type 0
IsRemoved is_not_exist (ok u) = Unit
IsRemoved is_not_exist (err e) = is_not_exist e ≡ true

-- A store that saves every state that passes the check, and a destination whose files can be
-- removed. `saved` is the state that a load would read.
pub record IsReliable (World : Type 0) (storage : Storage World)
    (saved : World → Option BackupSetState) : Type 0 where
  pub saves :
      (s : BackupSetState) (w : World)
      → validate_backup_set_state s ≡ none
      → (w' : World) × (storage.save s w ≡ (w', ok tt)) × (saved w' ≡ some s)
  pub removes :
      (name : String) (w : World)
      → (w' : World) × (r : Result (Unit {0})) × (storage.remove_archive name w ≡ (w', r))
        × IsRemoved storage.is_not_exist r
        × (saved w' ≡ saved w)

module _ (World : Type 0) (storage : Storage World) (saved : World → Option BackupSetState)
    (reliable : IsReliable World storage saved) where
  forgive_missing_ok :
      (name : String) (w : World) (r : Result (Unit {0}))
      → IsRemoved storage.is_not_exist r
      → forgive_missing World storage name (w, r) ≡ (w, ok tt)
  unfolding forgive_missing
  forgive_missing_ok name w (ok u) h = refl
  forgive_missing_ok name w (err e) h = rw h

  nonempty_of_pending :
      (p : BackupRemovalState) (rs : List BackupArchiveRecord)
      → MatchesPending (some p) rs
      → (length rs == 0) ≡ false
  nonempty_of_pending p [] h = unfold pending_count in absurd (omega arith)
  nonempty_of_pending p (r ∷ rs) h = ground arith

  -- A pending removal of a valid state is completed.
  resume_completes :
      (s : BackupSetState) (p : BackupRemovalState) (w : World)
      → IsValid s
      → s.pending_removal ≡ some p
      → (w' : World) × (resume_removal World storage s (some p) w ≡ (w', ok (finished_state s p)))
        × (saved w' ≡ some (finished_state s p))
  unfolding resume_removal after within_result
  resume_completes s p w v e =
      let (w1, r, removed, fine, same) = reliable.removes p.file_name w in
      let (w2, done, now) =
        reliable.saves (finished_state s p) w1
          (IsValid-validate _ (finished_state-IsValid s p v e)) in
      let some_archive =
        nonempty_of_pending p s.archives (subst (λ o. MatchesPending o s.archives) e v.pending) in
      (
        w2,
        rw removed (rw (forgive_missing_ok p.file_name w1 r fine) (rw some_archive (rw done))),
        now,
      )

  mark_completes :
      (s : BackupSetState) (r : BackupArchiveRecord) (rest : List BackupArchiveRecord) (w : World)
      → IsValid s
      → s.pending_removal ≡ none
      → s.archives ≡ r ∷ rest
      → (w' : World) × (mark_backup_archive_pending_removal World storage s r w
          ≡ (w', ok (head_marked s r rest)))
  unfolding mark_backup_archive_pending_removal after within_result
  mark_completes s r rest w v e a =
      let (w1, done, now) =
        reliable.saves (head_marked s r rest) w
          (IsValid-validate _ (head_marked-IsValid s r rest a e v)) in
      (
        w1,
        rw
            (marked_state_head s r rest a (confirmed_head s r rest v e a)
              (subst (Distinct (λ x. x.archive_id) []) a v.ids).1)
            (rw done),
      )

  same_state :
      (s : BackupSetState) (kept : List BackupArchiveRecord)
      → s.archives ≡ kept
      → s.pending_removal ≡ none
      → s ≡ tail_state s kept
  same_state s kept a e = λ i. record s { archives = a i; pending_removal = e i }

  remove_expired_completes :
      (xs kept : List BackupArchiveRecord) (s : BackupSetState) (w : World)
      → IsValid s
      → s.pending_removal ≡ none
      → s.archives ≡ xs ++ kept
      → saved w ≡ some s
      → (w' : World) × (remove_expired World storage xs s w ≡ (w', ok tt))
        × (saved w' ≡ some (tail_state s kept))
        × IsValid (tail_state s kept)
  unfolding remove_expired after
  remove_expired_completes [] kept s w v e a h =
      (w, refl, h ∙ ap some (same_state s kept a e), subst IsValid (same_state s kept a e) v)
  remove_expired_completes (r ∷ xs) kept s w v e a h =
      let (w1, marked) = mark_completes s r (xs ++ kept) w v e a in
      let mv = head_marked-IsValid s r (xs ++ kept) a e v in
      let (w2, resumed, now) =
        resume_completes (head_marked s r (xs ++ kept)) (removal_of r) w1 mv refl in
      let f = finished_head s r (xs ++ kept) (subst (Distinct (λ x. x.archive_id) []) a v.ids).1 in
      let tv =
        subst IsValid f
          (finished_state-IsValid (head_marked s r (xs ++ kept)) (removal_of r) mv refl) in
      let (w3, removed, then_saved, valid) =
        remove_expired_completes xs kept (tail_state s (xs ++ kept)) w2 tv refl refl
          (now ∙ ap some f) in
      (w3, rw marked (rw resumed (rw f removed)), then_saved, valid)

  compliance_of_newest :
      (s : BackupSetState) (n : ℕ) (rs : List BackupArchiveRecord)
      → is_retention_count n ≡ true
      → IsValid (tail_state s (newest n rs))
      → length (newest n rs) ≡ min n (length rs)
      → validate_backup_retention_compliance (tail_state s (newest n rs)) n ≡ none
  unfolding validate_backup_retention_compliance
  compliance_of_newest s n rs c v l =
      rw (c, filter_confirmed (newest n rs) v.formed v.pending)
        (within_limit (length (newest n rs)) (omega arith))
    where
      within_limit :
          (k : ℕ)
          → k ≤ n
          → (if ltb n k
              then some
                  (text "backup retention limit is not satisfied: %d confirmed versions exceed %d")
              else none)
            ≡ none
      within_limit k h = ground arith

  -- The retention of a valid state with no pending removal.
  plan_completes :
      (s : BackupSetState) (n : ℕ) (w : World)
      → IsValid s
      → s.pending_removal ≡ none
      → is_retention_count n ≡ true
      → saved w ≡ some s
      → (w' : World) × (after
            (w, plan_backup_retention s n)
            (λ expired. remove_expired World storage expired s)
          ≡ (w', ok tt))
        × (saved w' ≡ some (tail_state s (newest n s.archives)))
        × (validate_backup_retention_compliance (tail_state s (newest n s.archives)) n ≡ none)
        × IsValid (tail_state s (newest n s.archives))
  unfolding after
  plan_completes s n w v e c h =
      let (expired, planned, split, kept) = plan_keeps_newest s n v e c in
      let (w', removed, now, valid) =
        remove_expired_completes expired (newest n s.archives) s w v e (sym split) h in
      (w', rw planned removed, now, compliance_of_newest s n s.archives c valid kept, valid)

  -- The records that the retention chooses from: those of a state whose pending removal, if there is
  -- one, is completed.
  abbrev pub resolved : Option BackupRemovalState → BackupSetState → BackupSetState
  resolved none s = s
  resolved (some p) s = finished_state s p

  retention_from :
      (o : Option BackupRemovalState) (s : BackupSetState) (n : ℕ) (w : World)
      → s.pending_removal ≡ o
      → IsValid s
      → is_retention_count n ≡ true
      → saved w ≡ some s
      → let kept = newest n (resolved o s).archives in
        (w' : World) × (after (resume_removal World storage s o w) (λ resumed.
            ◌>>=◌
              (lift (plan_backup_retention resumed n))
              (λ expired. remove_expired World storage expired resumed))
          ≡ (w', ok tt))
        × (saved w' ≡ some (tail_state s kept))
        × (validate_backup_retention_compliance (tail_state s kept) n ≡ none)
        × IsValid (tail_state s kept)
  unfolding resume_removal
  retention_from none s n w e v c h = unfold after in plan_completes s n w v e c h
  retention_from (some p) s n w e v c h =
      let (w1, resumed, now1) = resume_completes s p w v e in
      let (w', done, now, complies, valid) =
        plan_completes (finished_state s p) n w1 (finished_state-IsValid s p v e) refl c now1 in
      (w', unfold after in rw resumed done, now, complies, valid)

  -- If the store saves what passes its check and the files can be removed, the retention of a valid
  -- saved state by a count in range succeeds. It leaves a valid saved state that passes the
  -- compliance check and holds exactly the newest records, up to the count, of those left when a
  -- pending removal is completed.
  pub retention_completes :
      (s : BackupSetState) (n : ℕ) (w : World)
      → IsValid s
      → is_retention_count n ≡ true
      → saved w ≡ some s
      → let kept = newest n (resolved s.pending_removal s).archives in
        (w' : World) × (execute_backup_retention World storage s n w ≡ (w', ok tt))
        × (saved w' ≡ some (tail_state s kept))
        × (validate_backup_retention_compliance (tail_state s kept) n ≡ none)
        × IsValid (tail_state s kept)
  unfolding execute_backup_retention
  retention_completes s n w v c h = retention_from s.pending_removal s n w refl v c h
