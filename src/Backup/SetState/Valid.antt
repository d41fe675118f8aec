-- ===== src/Backup/SetState/Valid.antt =====
-- What a valid state of a backup set is, apart from the code that checks it.
pub mod Sound
pub mod Complete
pub mod Check
use gosync.Base.{
  ℕ, ◌+◌, ◌<◌, ◌≤◌, String, Bool, true, false, ◌&&◌, ◌||◌, not, Option, none, some, List, [], ◌∷◌,
  ◌==◌, nat_Eq, string_Eq, leb, ltb, if◌then◌else◌, contains, any, is_blank, Error, ok, err, All,
  ◌≡◌, refl, ◌↔◌, arith,
}
use gosync.Backup.SetState.{
  BackupArchiveRecord, BackupRemovalState, BackupSetState, is_backup_sha256_digest, is_supported,
  is_pending, count_pending, Seen, check_record, check_records, see, not_above, matches_removal,
  validate_backup_set_state,
}

-- A record by itself.
pub record IsFormed (r : BackupArchiveRecord) : Type 0 where
  pub has_id : is_blank r.archive_id ≡ false
  pub has_name : is_blank r.file_name ≡ false
  pub positive : 0 < r.confirmation_order
  pub created : 0 < r.created_at
  pub whole_digest : is_backup_sha256_digest r.whole_archive_digest ≡ true
  pub inventory_digest : is_backup_sha256_digest r.inventory_digest ≡ true
  pub supported : is_supported r.lifecycle ≡ true

-- Each key differs from those before it and from the given ones.
abbrev pub Distinct :
    (BackupArchiveRecord → String) → List String → List BackupArchiveRecord → Type 0
Distinct key before [] = Unit
Distinct key before (r ∷ rs) = (contains (key r) before ≡ false) × Distinct key (key r ∷ before) rs

abbrev pub Above : Option ℕ → ℕ → Type 0
Above none n = Unit
Above (some m) n = m < n

-- The confirmation orders grow strictly.
abbrev pub Ascending : Option ℕ → List BackupArchiveRecord → Type 0
Ascending previous [] = Unit
Ascending previous (r ∷ rs) =
    Above previous r.confirmation_order × Ascending (some r.confirmation_order) rs

unfoldable pub pending_count : List BackupArchiveRecord → ℕ
pending_count [] = 0
pending_count (r ∷ rs) = count_pending r + pending_count rs

-- With no removal no record is pending; with one, a single record is, and it is the one named.
abbrev pub MatchesPending : Option BackupRemovalState → List BackupArchiveRecord → Type 0
MatchesPending none rs = pending_count rs ≡ 0
MatchesPending (some p) rs = (pending_count rs ≡ 1) × (any (matches_removal p) rs ≡ true)

pub record IsValid (s : BackupSetState) : Type 0 where
  pub version : s.schema_version ≡ 1
  pub has_destination : is_blank s.destination_path ≡ false
  pub has_source : is_blank s.source_path ≡ false
  pub next_positive : 0 < s.next_confirmation_order
  pub formed : All IsFormed s.archives
  pub ascending : Ascending none s.archives
  pub ids : Distinct (λ r. r.archive_id) [] s.archives
  pub names : Distinct (λ r. r.file_name) [] s.archives
  pub below : All (λ r. r.confirmation_order < s.next_confirmation_order) s.archives
  pub pending : MatchesPending s.pending_removal s.archives

-- One round of the loop, declaratively.
pub record IsChecked (seen : Seen) (r : BackupArchiveRecord) : Type 0 where
  pub formed : IsFormed r
  pub above : Above seen.previous r.confirmation_order
  pub new_id : contains r.archive_id seen.ids ≡ false
  pub new_name : contains r.file_name seen.names ≡ false
  pub new_order : contains r.confirmation_order seen.orders ≡ false

pub Above-of_not_above : (o : Option ℕ) (n : ℕ) → not_above o n ≡ false → Above o n
Above-of_not_above none n h = tt
Above-of_not_above (some m) n h = ground arith

pub not_above_of_Above : (o : Option ℕ) (n : ℕ) → Above o n → not_above o n ≡ false
not_above_of_Above none n h = refl
not_above_of_Above (some m) n h = ground arith

pub check_record-IsChecked :
    (seen : Seen) (r : BackupArchiveRecord) → check_record seen r ≡ none → IsChecked seen r
unfolding check_record
check_record-IsChecked seen r h =
    ground (arith, Above-of_not_above seen.previous r.confirmation_order)

pub IsChecked-check_record :
    (seen : Seen) (r : BackupArchiveRecord) → IsChecked seen r → check_record seen r ≡ none
unfolding check_record
IsChecked-check_record seen r h =
    ground (arith, not_above_of_Above seen.previous r.confirmation_order h.above)

-- Every round passes.
abbrev pub AllChecked : Seen → List BackupArchiveRecord → Type 0
AllChecked seen [] = Unit
AllChecked seen (r ∷ rs) = IsChecked seen r × AllChecked (see seen r) rs

abbrev pub last_order : ℕ → List BackupArchiveRecord → ℕ
last_order m [] = m
last_order m (r ∷ rs) = last_order r.confirmation_order rs
