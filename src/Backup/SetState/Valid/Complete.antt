-- ===== src/Backup/SetState/Valid/Complete.antt =====
-- The check of src/backup_set_state.go on valid states, record by record.
use gosync.Base.{
  ℕ, ◌+◌, ◌<◌, ◌≤◌, false, Option, none, some, List, [], ◌∷◌, nat_Eq, string_Eq, contains, ok, All,
  ◌≡◌, refl, arith,
}
use gosync.Backup.SetState.{
  BackupArchiveRecord, BackupRemovalState, BackupSetState, count_pending, Seen, nothing_seen,
  check_records, check_totals, check_pending, see, validate_backup_set_state,
}
use gosync.Backup.SetState.Valid.{
  IsFormed, Distinct, Above, Ascending, pending_count, MatchesPending, IsValid,
  IsChecked-check_record, AllChecked, last_order,
}

-- The orders seen so far do not pass the last one.
abbrev SeenBelow : Option ℕ → List ℕ → Type 0
SeenBelow none os = os ≡ []
SeenBelow (some p) os = All (λ o. o ≤ p) os

not_contains_of_above :
    (p n : ℕ) (os : List ℕ) → All (λ o. o ≤ p) os → p < n → contains n os ≡ false
not_contains_of_above p n [] h l = refl
not_contains_of_above p n (o ∷ os) h l = ground (arith, not_contains_of_above p n os h.1 l)

new_order_of_Above :
    (o : Option ℕ) (os : List ℕ) (n : ℕ) → SeenBelow o os → Above o n → contains n os ≡ false
new_order_of_Above none os n h a = rw h
new_order_of_Above (some p) os n h a = not_contains_of_above p n os h a

All-le_mono : (p n : ℕ) (os : List ℕ) → p ≤ n → All (λ o. o ≤ p) os → All (λ o. o ≤ n) os
All-le_mono p n [] l h = tt
All-le_mono p n (o ∷ os) l h = (omega arith, All-le_mono p n os l h.1)

SeenBelow-next :
    (o : Option ℕ) (os : List ℕ) (n : ℕ) → SeenBelow o os → Above o n → SeenBelow (some n) (n ∷ os)
SeenBelow-next none os n h a = (omega arith, rw h tt)
SeenBelow-next (some p) os n h a = (omega arith, All-le_mono p n os (omega arith) h)

AllChecked-of_parts :
    (seen : Seen) (rs : List BackupArchiveRecord)
    → SeenBelow seen.previous seen.orders
    → All IsFormed rs
    → Ascending seen.previous rs
    → Distinct (λ r. r.archive_id) seen.ids rs
    → Distinct (λ r. r.file_name) seen.names rs
    → AllChecked seen rs
AllChecked-of_parts seen [] b f a i n = tt
AllChecked-of_parts seen (r ∷ rs) b f a i n = (
  record {
    formed = f.0;
    above = a.0;
    new_id = i.0;
    new_name = n.0;
    new_order = new_order_of_Above seen.previous seen.orders r.confirmation_order b a.0;
  },
  AllChecked-of_parts (see seen r) rs
      (SeenBelow-next seen.previous seen.orders r.confirmation_order b a.0) f.1 a.1 i.1 n.1,
)

check_records_passes :
    (seen : Seen) (rs : List BackupArchiveRecord)
    → AllChecked seen rs
    → check_records seen rs ≡ ok (last_order seen.maximum rs, seen.pending + pending_count rs)
unfolding check_records pending_count
check_records_passes seen [] h = let e : seen.pending ≡ seen.pending + 0 = omega arith in rw (← e)
check_records_passes seen (r ∷ rs) (c, h) =
    let e : seen.pending + count_pending r + pending_count rs
        ≡ seen.pending + (count_pending r + pending_count rs) =
      omega arith in
    rw (IsChecked-check_record seen r c, check_records)
      (rw (check_records_passes (see seen r) rs h, e))

last_order-lt :
    (m next : ℕ) (rs : List BackupArchiveRecord)
    → m < next
    → All (λ r. r.confirmation_order < next) rs
    → last_order m rs < next
last_order-lt m next [] l h = l
last_order-lt m next (r ∷ rs) l h = last_order-lt r.confirmation_order next rs h.0 h.1

check_pending_passes :
    (o : Option BackupRemovalState) (rs : List BackupArchiveRecord)
    → MatchesPending o rs
    → (check_pending o rs (pending_count rs) ≡ none) × (pending_count rs ≤ 1)
unfolding check_pending
check_pending_passes none rs h = ground arith
check_pending_passes (some p) rs h = ground arith

-- The check returns nil for every valid state.
pub IsValid-validate : (s : BackupSetState) → IsValid s → validate_backup_set_state s ≡ none
unfolding validate_backup_set_state check_totals
IsValid-validate s v =
    let all = AllChecked-of_parts nothing_seen s.archives refl v.formed v.ascending v.ids v.names in
    let p = check_pending_passes s.pending_removal s.archives v.pending in
    let l = last_order-lt 0 s.next_confirmation_order s.archives v.next_positive v.below in
    rw (check_records_passes nothing_seen s.archives all) (ground (arith, v.version))
