-- ===== src/Tests/BackupData.antt =====
-- The theorems on src/backup_set_state.go and src/backup_recovery_retention.go at a set of three archives.
use gosync.Base.{
  ℕ, String, Bool, true, Option, none, some, List, [], ◌∷◌, ◌++◌, ◌≡◌, refl, ◌↔◌, Error, text, ok,
  err, length,
}
use gosync.Backup.SetState.{
  BackupArchiveRecord, BackupRemovalState, BackupSetState, BackupArchiveLifecycle, confirmed,
  pending_removal, validate_backup_set_state,
}
use gosync.Backup.SetState.Valid.{IsValid}
use gosync.Backup.SetState.Valid.Check.{validate_iff_IsValid}
use gosync.Backup.Retention.{
  Storage, finished_state, plan_backup_retention, execute_backup_retention,
  validate_backup_retention_compliance,
}
use gosync.Backup.Retention.Valid.{finished_state-IsValid}
use gosync.Backup.Retention.Head.{tail_state}
use gosync.Backup.Retention.Plan.{newest, plan_keeps_newest}
use gosync.Backup.Retention.Outcome.{IsReliable, retention_completes}
use gosync.Backup.Retention.Journal.{Journal, IsGuarded, journaling, retention_removes_marked}

abbrev sha : String
sha = "0123456789abcdef0123456789abcdef0123456789abcdef0123456789abcdef"

abbrev archive : String → String → ℕ → BackupArchiveLifecycle → BackupArchiveRecord
archive id name order lifecycle = record {
  archive_id = id;
  file_name = name;
  confirmation_order = order;
  created_at = 1;
  whole_archive_digest = sha;
  inventory_digest = sha;
  lifecycle = lifecycle;
}

abbrev set_of : List BackupArchiveRecord → Option BackupRemovalState → BackupSetState
set_of archives pending = record {
  schema_version = 1;
  destination_path = "/dst";
  source_path = "/src";
  next_confirmation_order = 4;
  archives = archives;
  pending_removal = pending;
}

abbrev three : BackupSetState
three =
    set_of
      (archive "a" "a.zip" 1 confirmed
        ∷ archive "b" "b.zip" 2 confirmed
        ∷ archive "c" "c.zip" 3 confirmed
        ∷ [])
      none

abbrev first_removal : BackupRemovalState
first_removal = record { archive_id = "a"; file_name = "a.zip"; confirmation_order = 1 }

abbrev marked : BackupSetState
marked =
    set_of
      (archive "a" "a.zip" 1 pending_removal
        ∷ archive "b" "b.zip" 2 confirmed
        ∷ archive "c" "c.zip" 3 confirmed
        ∷ [])
      (some first_removal)

three_validates : validate_backup_set_state three ≡ none
unfolding validate_backup_set_state
three_validates = refl

marked_validates : validate_backup_set_state marked ≡ none
unfolding validate_backup_set_state
marked_validates = refl

three-IsValid : IsValid three
three-IsValid = (validate_iff_IsValid three).0 three_validates

marked-IsValid : IsValid marked
marked-IsValid = (validate_iff_IsValid marked).0 marked_validates

validate_iff_IsValid_example : (validate_backup_set_state three ≡ none) ↔ IsValid three
validate_iff_IsValid_example = validate_iff_IsValid three

finished_state-IsValid_example : IsValid (finished_state marked first_removal)
finished_state-IsValid_example = finished_state-IsValid marked first_removal marked-IsValid refl

plan_keeps_newest_example :
    (expired : List BackupArchiveRecord) × (plan_backup_retention three 2 ≡ ok expired)
    × (expired ++ newest 2 three.archives ≡ three.archives)
    × (length (newest 2 three.archives) ≡ 2)
plan_keeps_newest_example = plan_keeps_newest three 2 three-IsValid refl refl

-- The second save fails, and the first removal finds no file.
abbrev failing : Journal
failing = record {
  save_outcomes = ok tt ∷ err (text "disk full") ∷ [];
  remove_outcomes = err (text "no such file") ∷ [];
  saved = none;
  removals = [];
}

abbrev missing : Error → Bool
missing e = true

retention_removes_marked_example :
    IsGuarded (execute_backup_retention Journal (journaling missing) three 1 failing).0
retention_removes_marked_example =
    retention_removes_marked missing three 1 failing (λ n. absurd (n refl)) tt

-- A store in memory, whose removals succeed.
abbrev memory : Storage (Option BackupSetState)
memory = record {
  save = λ s w. (some s, ok tt);
  remove_archive = λ name w. (w, ok tt);
  is_not_exist = missing;
}

abbrev in_memory : Option BackupSetState → Option BackupSetState
in_memory w = w

memory-IsReliable : IsReliable (Option BackupSetState) memory in_memory
memory-IsReliable = record {
  saves = λ s w h. (some s, refl, refl);
  removes = λ name w. (w, ok tt, refl, tt, refl);
}

retention_completes_example :
    (w : Option BackupSetState) × (execute_backup_retention
        (Option BackupSetState)
        memory
        marked
        1
        (some marked)
      ≡ (w, ok tt))
    × (w ≡ some (tail_state marked (newest 1 (finished_state marked first_removal).archives)))
    × (validate_backup_retention_compliance
          (tail_state marked (newest 1 (finished_state marked first_removal).archives))
          1
        ≡ none)
    × IsValid (tail_state marked (newest 1 (finished_state marked first_removal).archives))
retention_completes_example =
    retention_completes (Option BackupSetState) memory in_memory memory-IsReliable marked 1
      (some marked) marked-IsValid refl refl
