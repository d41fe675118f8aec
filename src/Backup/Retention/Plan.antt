-- ===== src/Backup/Retention/Plan.antt =====
-- The records that the plan of the retention in src/backup_recovery_retention.go expires.
use Prim.Native.Nat.{min}
use mathlib.Core.Path.{subst}
use gosync.Base.{
  ℕ, zero, suc, ◌-◌, true, Option, none, some, List, [], ◌∷◌, ◌++◌, nat_Eq, leb, if◌then◌else◌,
  filter, length, take, drop, ok, All, ◌≡◌, refl, arith, Bool-cases, inl, inr, ap, ◌∙◌, leb→le,
}
use gosync.Backup.SetState.{
  BackupArchiveLifecycle, BackupArchiveRecord, BackupSetState, is_pending, is_supported,
  is_confirmed, pending_removal, confirmed, other,
}
use gosync.Backup.SetState.Valid.{IsFormed, Ascending, pending_count, MatchesPending, IsValid}
use gosync.Backup.Retention.{
  expired_records, sort_records, insert_record, plan_backup_retention, is_retention_count,
}

confirmed_of_supported :
    (l : BackupArchiveLifecycle)
    → is_supported l ≡ true
    → ◌≡◌ {A = ℕ} (if is_pending l then 1 else 0) 0
    → is_confirmed l ≡ true
unfolding is_supported is_pending is_confirmed
confirmed_of_supported confirmed s p = refl
confirmed_of_supported pending_removal s p = absurd (omega arith)
confirmed_of_supported (other t) s p = cc

pub filter_confirmed :
    (rs : List BackupArchiveRecord)
    → All IsFormed rs
    → pending_count rs ≡ 0
    → filter (λ r. is_confirmed r.lifecycle) rs ≡ rs
unfolding pending_count
filter_confirmed [] f p = refl
filter_confirmed (r ∷ rs) f p =
    rw (confirmed_of_supported r.lifecycle f.0.supported (omega arith))
      (ap (◌∷◌ r) (filter_confirmed rs f.1 (omega arith)))

-- In a valid state with no pending removal the first record is confirmed.
pub confirmed_head :
    (s : BackupSetState) (r : BackupArchiveRecord) (rest : List BackupArchiveRecord)
    → IsValid s
    → s.pending_removal ≡ none
    → s.archives ≡ r ∷ rest
    → is_confirmed r.lifecycle ≡ true
unfolding pending_count
confirmed_head s r rest v e a =
    let m = subst (λ o. MatchesPending o s.archives) e v.pending in
    let k : pending_count (r ∷ rest) ≡ 0 = subst (λ xs. pending_count xs ≡ 0) a m in
    confirmed_of_supported r.lifecycle (subst (All IsFormed) a v.formed).0.supported (omega arith)

insert_record_first :
    (r : BackupArchiveRecord) (rs : List BackupArchiveRecord)
    → Ascending (some r.confirmation_order) rs
    → insert_record r rs ≡ r ∷ rs
unfolding insert_record
insert_record_first r [] h = refl
insert_record_first r (x ∷ xs) h = ground arith

pub sort_records_of_Ascending :
    (o : Option ℕ) (rs : List BackupArchiveRecord) → Ascending o rs → sort_records rs ≡ rs
unfolding sort_records
sort_records_of_Ascending o [] h = refl
sort_records_of_Ascending o (r ∷ rs) h =
    rw (sort_records_of_Ascending (some r.confirmation_order) rs h.1) (insert_record_first r rs h.1)

take-append-drop {ℓ} : {A : Type ℓ} (n : ℕ) (xs : List A) → take n xs ++ drop n xs ≡ xs
take-append-drop zero xs = refl
take-append-drop (suc n) [] = refl
take-append-drop (suc n) (x ∷ xs) = rw (take-append-drop n xs)

length-drop {ℓ} : {A : Type ℓ} (n : ℕ) (xs : List A) → length (drop n xs) ≡ length xs - n
length-drop zero xs = omega arith
length-drop (suc n) [] = omega arith
length-drop (suc n) (x ∷ xs) = omega (arith, length-drop n xs)

take_zero {ℓ} : {A : Type ℓ} (n : ℕ) (xs : List A) → n ≡ 0 → [] ≡ take n xs
take_zero n xs e = rw e

-- The records that the retention keeps: the last `n`.
abbrev pub newest : ℕ → List BackupArchiveRecord → List BackupArchiveRecord
newest n rs = drop (length rs - n) rs

-- For a valid state with no pending removal and a retention count `n` in range, the plan is what
-- precedes the newest `n` records: behind it come exactly min(n, length) records, all of them kept.
pub plan_keeps_newest :
    (s : BackupSetState) (n : ℕ)
    → IsValid s
    → s.pending_removal ≡ none
    → is_retention_count n ≡ true
    → (expired : List BackupArchiveRecord) × (plan_backup_retention s n ≡ ok expired)
      × (expired ++ newest n s.archives ≡ s.archives)
      × (length (newest n s.archives) ≡ min n (length s.archives))
unfolding plan_backup_retention
plan_keeps_newest s n v e c = (
  take (length s.archives - n) s.archives,
  rw (c, e) (ap ok expired),
  take-append-drop (length s.archives - n) s.archives,
  omega (arith, length-drop (length s.archives - n) s.archives),
)
  where
    all_kept : sort_records (filter (λ r. is_confirmed r.lifecycle) s.archives) ≡ s.archives
    all_kept =
        ap sort_records (
          filter_confirmed s.archives v.formed
            (subst (λ o. MatchesPending o s.archives) e v.pending))
        ∙ sort_records_of_Ascending none s.archives v.ascending

    expired : expired_records n s.archives ≡ take (length s.archives - n) s.archives
    expired = elim (Bool-cases (leb (length s.archives) n)) [
      | inl l ↦
          rw (all_kept, l) (take_zero (length s.archives - n) s.archives (omega (arith, leb→le)))
      | inr l ↦ rw (all_kept, l)
    ]
