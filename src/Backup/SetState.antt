-- ===== src/Backup/SetState.antt =====
-- src/backup_set_state.go: the state of a backup set and its validation. A uint64 is a number below
-- 2 ^ 64. Error texts leave out the numbers of their format.
pub mod Valid
use gosync.Base.{
  ℕ, ◌+◌, String, Bool, true, false, ◌&&◌, ◌||◌, not, Option, none, some, List, [], ◌∷◌, ◌==◌,
  nat_Eq, string_Eq, leb, ltb, if◌then◌else◌, length, contains, any, codes, all_codes, is_lower_hex,
  is_blank, Error, text, text_of, Result, ok, err,
}

pub data BackupArchiveLifecycle : Type 0 where
  confirmed pending_removal : BackupArchiveLifecycle
  other : String → BackupArchiveLifecycle

-- An instant is a number, and 0 the zero time.
pub record BackupArchiveRecord : Type 0 where
  pub archive_id : String
  pub file_name : String
  pub confirmation_order : ℕ
  pub created_at : ℕ
  pub whole_archive_digest : String
  pub inventory_digest : String
  pub lifecycle : BackupArchiveLifecycle

pub record BackupRemovalState : Type 0 where
  pub archive_id : String
  pub file_name : String
  pub confirmation_order : ℕ

pub record BackupSetState : Type 0 where
  pub schema_version : ℕ
  pub destination_path : String
  pub source_path : String
  pub next_confirmation_order : ℕ
  pub archives : List BackupArchiveRecord
  pub pending_removal : Option BackupRemovalState

abbrev pub schema_version_supported : ℕ
schema_version_supported = 1

-- 64 lower-case hexadecimal digits: what decodes, and is its own encoding.
unfoldable pub is_backup_sha256_digest : String → Bool
unfolding is_lower_hex
is_backup_sha256_digest value = length (codes value) == 64 && all_codes is_lower_hex (codes value)

unfoldable pub is_supported : BackupArchiveLifecycle → Bool
is_supported (other s) = false
is_supported _ = true

unfoldable pub is_pending : BackupArchiveLifecycle → Bool
is_pending pending_removal = true
is_pending _ = false

unfoldable pub is_confirmed : BackupArchiveLifecycle → Bool
is_confirmed confirmed = true
is_confirmed _ = false

abbrev pub count_pending : BackupArchiveRecord → ℕ
count_pending r = if is_pending r.lifecycle then 1 else 0

-- What the loop has seen: the last order is that of the record before.
pub record Seen : Type 0 where
  pub ids : List String
  pub names : List String
  pub orders : List ℕ
  pub previous : Option ℕ
  pub maximum : ℕ
  pub pending : ℕ

abbrev pub not_above : Option ℕ → ℕ → Bool
not_above none order = false
not_above (some previous) order = leb order previous

-- The tests of one round.
unfoldable pub check_record : Seen → BackupArchiveRecord → Option Error
unfolding is_blank is_backup_sha256_digest is_supported
check_record seen r =
    if is_blank r.archive_id || is_blank r.file_name
    then some (text "backup archive record %d requires an identifier and file name")
    else if r.confirmation_order == 0
    then some (text_of "backup archive record %q has invalid confirmation order" r.archive_id)
    else if not_above seen.previous r.confirmation_order
    then some (text "backup archive records must be ordered by confirmation order")
    else if contains r.archive_id seen.ids
    then some (text_of "duplicate backup archive identifier %q" r.archive_id)
    else if contains r.file_name seen.names
    then some (text_of "duplicate backup archive file name %q" r.file_name)
    else if contains r.confirmation_order seen.orders
    then some (text "duplicate backup archive confirmation order %d")
    else if r.created_at == 0
    then some (text_of "backup archive record %q requires a creation time" r.archive_id)
    else if not (is_backup_sha256_digest r.whole_archive_digest)
        || not (is_backup_sha256_digest r.inventory_digest)
    then some (text_of "backup archive record %q has an invalid digest" r.archive_id)
    else if not (is_supported r.lifecycle)
    then some (text_of "backup archive record %q has unsupported lifecycle %q" r.archive_id)
    else none

abbrev pub see : Seen → BackupArchiveRecord → Seen
see seen r = record {
  ids = r.archive_id ∷ seen.ids;
  names = r.file_name ∷ seen.names;
  orders = r.confirmation_order ∷ seen.orders;
  previous = some r.confirmation_order;
  maximum = r.confirmation_order;
  pending = seen.pending + count_pending r;
}

-- The loop: the maximum and the number of pending records.
unfoldable pub check_records : Seen → List BackupArchiveRecord → Result (ℕ × ℕ)
unfolding is_pending
check_records seen [] = ok (seen.maximum, seen.pending)
check_records seen (r ∷ rs) = elim (check_record seen r) [
  | some e ↦ err e
  | none ↦ check_records (see seen r) rs
]

unfoldable pub matches_removal : BackupRemovalState → BackupArchiveRecord → Bool
unfolding is_pending
matches_removal p r =
    is_pending r.lifecycle
    && r.archive_id == p.archive_id
    && r.file_name == p.file_name
    && r.confirmation_order == p.confirmation_order

-- The tests behind the loop.
unfoldable pub check_pending :
    Option BackupRemovalState → List BackupArchiveRecord → ℕ → Option Error
unfolding matches_removal
check_pending none rs pending =
    if pending == 0
    then none
    else some (text "pending archive record requires pending removal state")
check_pending (some p) rs pending =
    if not (pending == 1)
    then some (text "pending removal state requires one pending archive record")
    else if any (matches_removal p) rs
    then none
    else some (text "pending removal state does not match a pending archive record")

unfoldable pub check_totals : BackupSetState → Result (ℕ × ℕ) → Option Error
unfolding check_pending
check_totals s (err e) = some e
check_totals s (ok (maximum, pending)) =
    if leb s.next_confirmation_order maximum
    then some (text "backup set state next confirmation order must exceed existing records")
    else if ltb 1 pending
    then some (text "backup set state cannot have multiple pending removals")
    else check_pending s.pending_removal s.archives pending

abbrev pub nothing_seen : Seen
nothing_seen = record {
  ids = [];
  names = [];
  orders = [];
  previous = none;
  maximum = 0;
  pending = 0;
}

unfoldable pub validate_backup_set_state : BackupSetState → Option Error
unfolding check_totals check_records check_record is_blank
validate_backup_set_state s =
    if not (s.schema_version == schema_version_supported)
    then some (text "unsupported backup set state schema version %d")
    else if is_blank s.destination_path || is_blank s.source_path
    then some (text "backup set state source and destination paths are required")
    else if s.next_confirmation_order == 0
    then some (text "backup set state next confirmation order must be positive")
    else check_totals s (check_records nothing_seen s.archives)
