-- ===== src/Backup/Confirm/Valid.antt =====
-- The states behind a confirmation of src/backup_recovery_retention.go, and their validity.
use gosync.Base.{
  ℕ, ◌+◌, ◌^◌, ◌<◌, ◌≤◌, String, Bool, true, false, Option, none, some, List, [], ◌∷◌, ◌++◌, ◌==◌,
  string_Eq, nat_Eq, any, contains, All, All-append, is_blank, ◌≡◌, refl, arith, ◌↔◌,
}
use gosync.Backup.SetState.{
  BackupArchiveRecord, BackupRemovalState, BackupSetState, is_backup_sha256_digest, is_pending,
  is_supported, matches_removal,
}
use gosync.Backup.SetState.Valid.{
  IsValid, IsFormed, Distinct, Above, Ascending, pending_count, MatchesPending,
}
use gosync.Backup.Identity.{BackupArchiveIdentity, validate_backup_archive_identity}
use gosync.Backup.Confirm.{is_confirmed_already, record_of, with_record}

All-weaken :
    (n m : ℕ) (rs : List BackupArchiveRecord)
    → n ≤ m
    → All (λ r. r.confirmation_order < n) rs
    → All (λ r. r.confirmation_order < m) rs
All-weaken n m [] h a = tt
All-weaken n m (r ∷ rs) h a = (omega arith, All-weaken n m rs h a.1)

Ascending-append :
    (o : Option ℕ) (rs : List BackupArchiveRecord) (r : BackupArchiveRecord)
    → Above o r.confirmation_order
    → Ascending o rs
    → All (λ x. x.confirmation_order < r.confirmation_order) rs
    → Ascending o (rs ++ r ∷ [])
Ascending-append o [] r b a h = (b, tt)
Ascending-append o (x ∷ xs) r b a h =
    (a.0, Ascending-append (some x.confirmation_order) xs r h.0 a.1 h.1)

Distinct-append :
    (key : BackupArchiveRecord → String) (before : List String) (rs : List BackupArchiveRecord)
    (r : BackupArchiveRecord)
    → contains (key r) before ≡ false
    → any (λ x. key x == key r) rs ≡ false
    → Distinct key before rs
    → Distinct key before (rs ++ r ∷ [])
Distinct-append key before [] r b h d = (b, tt)
Distinct-append key before (x ∷ xs) r b h d =
    (d.0, Distinct-append key (key x ∷ before) xs r (ground arith) (ground arith) d.1)

any-or :
    (id name : String) (rs : List BackupArchiveRecord)
    → any (is_confirmed_already id name) rs ≡ false
    → (any (λ x. x.archive_id == id) rs ≡ false) × (any (λ x. x.file_name == name) rs ≡ false)
any-or id name [] h = (refl, refl)
any-or id name (x ∷ xs) h =
    let (a, b) = any-or id name xs (ground arith) in (ground arith, ground arith)

pending_count-append :
    (rs : List BackupArchiveRecord) (r : BackupArchiveRecord)
    → is_pending r.lifecycle ≡ false
    → pending_count (rs ++ r ∷ []) ≡ pending_count rs
unfolding pending_count
pending_count-append [] r h = ground arith
pending_count-append (x ∷ xs) r h = ground (arith, pending_count-append xs r h)

any-append :
    (p : BackupArchiveRecord → Bool) (rs : List BackupArchiveRecord) (r : BackupArchiveRecord)
    → any p rs ≡ true
    → any p (rs ++ r ∷ []) ≡ true
any-append p [] r h = cc
any-append p (x ∷ xs) r h = ground (arith, any-append p xs r)

MatchesPending-append :
    (o : Option BackupRemovalState) (rs : List BackupArchiveRecord) (r : BackupArchiveRecord)
    → is_pending r.lifecycle ≡ false
    → MatchesPending o rs
    → MatchesPending o (rs ++ r ∷ [])
MatchesPending-append none rs r h m = omega (arith, pending_count-append rs r h)
MatchesPending-append (some p) rs r h m =
    (omega (arith, pending_count-append rs r h, m.0), any-append (matches_removal p) rs r m.1)

pub record_of-IsFormed :
    (i : BackupArchiveIdentity) (source destination : String) (order : ℕ)
    (expected name digest : String)
    → validate_backup_archive_identity i source destination order expected ≡ none
    → is_blank name ≡ false
    → is_backup_sha256_digest digest ≡ true
    → IsFormed (record_of i name digest)
unfolding validate_backup_archive_identity is_supported
record_of-IsFormed i source destination order expected name digest h n d = record {
  has_id = ground arith;
  has_name = n;
  positive = ground arith;
  created = ground arith;
  whole_digest = d;
  inventory_digest = ground arith;
  supported = refl;
}

-- A new record with the next order extends a valid state, unless the next order is the last of 64 bits.
pub with_record-IsValid :
    (s : BackupSetState) (r : BackupArchiveRecord)
    → IsValid s
    → IsFormed r
    → is_pending r.lifecycle ≡ false
    → r.confirmation_order ≡ s.next_confirmation_order
    → s.next_confirmation_order + 1 < 2 ^ 64
    → any (is_confirmed_already r.archive_id r.file_name) s.archives ≡ false
    → IsValid (with_record s r)
with_record-IsValid s r v f p e l a = record {
  version = v.version;
  has_destination = v.has_destination;
  has_source = v.has_source;
  next_positive = omega arith;
  formed = All-append IsFormed s.archives (r ∷ []) v.formed (f, tt);
  ascending =
      Ascending-append none s.archives r tt v.ascending
        (All-weaken _ _ s.archives (omega arith) v.below);
  ids =
      Distinct-append (λ x. x.archive_id) [] s.archives r refl
        (any-or r.archive_id r.file_name s.archives a).0 v.ids;
  names =
      Distinct-append (λ x. x.file_name) [] s.archives r refl
        (any-or r.archive_id r.file_name s.archives a).1 v.names;
  below =
      All-append _ s.archives (r ∷ [])
        (All-weaken s.next_confirmation_order _ s.archives (omega arith) v.below) (omega arith, tt);
  pending = MatchesPending-append s.pending_removal s.archives r p v.pending;
}

-- For a valid state, a formed and unconfirmed record with the next order, and a next order of 64 bits,
-- the extended state is valid exactly if the next order is not the last of 64 bits: there it
-- wraps round to 0.
pub with_record-IsValid_iff :
    (s : BackupSetState) (r : BackupArchiveRecord)
    → IsValid s
    → IsFormed r
    → is_pending r.lifecycle ≡ false
    → r.confirmation_order ≡ s.next_confirmation_order
    → s.next_confirmation_order < 2 ^ 64
    → any (is_confirmed_already r.archive_id r.file_name) s.archives ≡ false
    → IsValid (with_record s r) ↔ s.next_confirmation_order + 1 < 2 ^ 64
with_record-IsValid_iff s r v f p e l a =
    ((λ t. omega (arith, t.next_positive)), λ small. with_record-IsValid s r v f p e small a)
