-- ===== src/Backup/SetState/Valid/Sound.antt =====
-- What a passed check of src/backup_set_state.go tells, record by record.
use mathlib.Core.Path.{subst}
use gosync.Base.{
  ℕ, ◌+◌, ◌<◌, ◌≤◌, false, Option, none, some, List, [], ◌∷◌, nat_Eq, string_Eq, is_blank, Error,
  Result, ok, err, All, ◌≡◌, refl, arith, Option-cases, inl, inr,
}
use gosync.Backup.SetState.{
  BackupArchiveRecord, BackupRemovalState, BackupSetState, Seen, nothing_seen, check_record,
  check_records, check_totals, check_pending, see, validate_backup_set_state,
}
use gosync.Backup.SetState.Valid.{
  IsFormed, Distinct, Ascending, pending_count, MatchesPending, IsValid, IsChecked,
  check_record-IsChecked, AllChecked, last_order,
}

abbrev Passed : Seen → List BackupArchiveRecord → Result (ℕ × ℕ) → Type 0
Passed seen rs (err e) = Unit
Passed seen rs (ok (m, n)) =
    AllChecked seen rs × (m ≡ last_order seen.maximum rs) × (n ≡ seen.pending + pending_count rs)

check_records_next :
    (seen : Seen) (r : BackupArchiveRecord) (rs : List BackupArchiveRecord)
    → check_record seen r ≡ none
    → check_records (see seen r) rs ≡ check_records seen (r ∷ rs)
unfolding check_records
check_records_next seen r rs h = rw (h, check_records)

check_records_stop :
    (seen : Seen) (r : BackupArchiveRecord) (rs : List BackupArchiveRecord) (e : Error)
    → check_record seen r ≡ some e
    → err e ≡ check_records seen (r ∷ rs)
unfolding check_records
check_records_stop seen r rs e h = rw (h, check_records)

check_records-Passed :
    (seen : Seen) (rs : List BackupArchiveRecord) → Passed seen rs (check_records seen rs)
unfolding check_records pending_count
check_records-Passed seen [] = (tt, refl, omega arith)
check_records-Passed seen (r ∷ rs) = elim (Option-cases (check_record seen r)) [
  | inr (e, h) ↦ subst (Passed seen (r ∷ rs)) (check_records_stop seen r rs e h) tt
  | inl h ↦ subst (Passed seen (r ∷ rs)) (check_records_next seen r rs h) (
      step (check_records (see seen r) rs) (check_record-IsChecked seen r h)
        (check_records-Passed (see seen r) rs))
]
  where
    step :
        (q : Result (ℕ × ℕ)) → IsChecked seen r → Passed (see seen r) rs q → Passed seen (r ∷ rs) q
    step (err e) c p = tt
    step (ok (m, n)) c (all, em, en) = ((c, all), em, omega arith)

IsFormed-AllChecked :
    (seen : Seen) (rs : List BackupArchiveRecord) → AllChecked seen rs → All IsFormed rs
IsFormed-AllChecked seen [] h = tt
IsFormed-AllChecked seen (r ∷ rs) (c, h) = (c.formed, IsFormed-AllChecked (see seen r) rs h)

Ascending-AllChecked :
    (seen : Seen) (rs : List BackupArchiveRecord) → AllChecked seen rs → Ascending seen.previous rs
Ascending-AllChecked seen [] h = tt
Ascending-AllChecked seen (r ∷ rs) (c, h) = (c.above, Ascending-AllChecked (see seen r) rs h)

ids-AllChecked :
    (seen : Seen) (rs : List BackupArchiveRecord)
    → AllChecked seen rs
    → Distinct (λ r. r.archive_id) seen.ids rs
ids-AllChecked seen [] h = tt
ids-AllChecked seen (r ∷ rs) (c, h) = (c.new_id, ids-AllChecked (see seen r) rs h)

names-AllChecked :
    (seen : Seen) (rs : List BackupArchiveRecord)
    → AllChecked seen rs
    → Distinct (λ r. r.file_name) seen.names rs
names-AllChecked seen [] h = tt
names-AllChecked seen (r ∷ rs) (c, h) = (c.new_name, names-AllChecked (see seen r) rs h)

le-last_order :
    (p : ℕ) (rs : List BackupArchiveRecord) → Ascending (some p) rs → p ≤ last_order p rs
le-last_order p [] h = omega arith
le-last_order p (r ∷ rs) h = omega (arith, le-last_order r.confirmation_order rs h.1)

below_of_last :
    (p : Option ℕ) (m next : ℕ) (rs : List BackupArchiveRecord)
    → Ascending p rs
    → last_order m rs < next
    → All (λ r. r.confirmation_order < next) rs
below_of_last p m next [] a h = tt
below_of_last p m next (r ∷ rs) a h = (
  omega (arith, le-last_order r.confirmation_order rs a.1),
  below_of_last (some r.confirmation_order) r.confirmation_order next rs a.1 h,
)

MatchesPending-check_pending :
    (o : Option BackupRemovalState) (rs : List BackupArchiveRecord)
    → check_pending o rs (pending_count rs) ≡ none
    → MatchesPending o rs
unfolding check_pending
MatchesPending-check_pending none rs h = ground arith
MatchesPending-check_pending (some p) rs h = ground arith

IsValid-check_totals :
    (s : BackupSetState) (q : Result (ℕ × ℕ))
    → Passed nothing_seen s.archives q
    → s.schema_version ≡ 1
    → is_blank s.destination_path ≡ false
    → is_blank s.source_path ≡ false
    → 0 < s.next_confirmation_order
    → check_totals s q ≡ none
    → IsValid s
unfolding check_totals
IsValid-check_totals s (err e) p v d sr n h = cc
IsValid-check_totals s (ok (m, k)) (all, em, ek) v d sr n h =
    let asc = Ascending-AllChecked nothing_seen s.archives all in
    record {
      version = v;
      has_destination = d;
      has_source = sr;
      next_positive = n;
      formed = IsFormed-AllChecked nothing_seen s.archives all;
      ascending = asc;
      ids = ids-AllChecked nothing_seen s.archives all;
      names = names-AllChecked nothing_seen s.archives all;
      below = below_of_last none 0 s.next_confirmation_order s.archives asc (ground arith);
      pending =
          MatchesPending-check_pending s.pending_removal s.archives
            (let e : k ≡ pending_count s.archives = omega arith in ground arith);
    }

-- The check returns nil only for a valid state.
pub validate-IsValid : (s : BackupSetState) → validate_backup_set_state s ≡ none → IsValid s
unfolding validate_backup_set_state
validate-IsValid s h =
    IsValid-check_totals s (check_records nothing_seen s.archives)
      (check_records-Passed nothing_seen s.archives) (ground arith) (ground arith) (ground arith)
      (ground arith) (ground arith)
