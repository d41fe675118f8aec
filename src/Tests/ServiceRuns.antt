-- ===== src/Tests/ServiceRuns.antt =====
-- The theorems on the service of the configuration and on the verification of an archive at small worlds.
use gosync.Base.{
  ℕ, String, Bool, true, false, Option, List, [], ◌∷◌, if◌then◌else◌, Error, text, ok, err, pos,
  ◌≡◌, refl, sym, ap, none, ◌==◌, string_Eq,
}
use gosync.Os.{Os, FileType, regular_type}
use gosync.Os.Monad.{Io, return, after, within_result, caught_result}
use gosync.Logging.Domain.{LogEvent, LogSeverity}
use gosync.Config.Domain.{ConfigurationSnapshot}
use gosync.Config.Answers.{trim_left, trim_right}
use gosync.Config.Interactive.{Reading, line, Message, run_interactive_configuration}
use gosync.Config.Ownership.{ConfigurationLoadResult, acquire_configuration_ownership}
use gosync.Config.Service.{configure}
use gosync.Config.Service.Configured.{IsSaved, configure-IsSaved}
use gosync.Config.Service.Released.{LockLaws, Left, configure_leaves_no_lock}
use gosync.Backup.Identity.{BackupArchiveIdentity, validate_backup_archive_identity}
use gosync.Backup.Inventory.{BackupLogicalInventory}
use gosync.Backup.Archives.{Archives}
use gosync.Backup.Archives.Verify.{Names, verify_backup_archive}
use gosync.Backup.Archives.Verify.Verified.{IsVerified, verify_backup_archive-IsVerified}
use gosync.Tests.Quiet.{quiet_os}

-- A world is whether the lock file exists.
abbrev lock_path : String
lock_path = "c.json.lock"

abbrev lock_os : Os
lock_os = record (quiet_os Bool) {
  is_exist = λ e. true;
  open_exclusive = λ p m w.
      if p == lock_path
      then (if w then (w, err (text "file exists")) else (true, ok 5))
      else (w, ok 6);
  remove = λ p w. if p == lock_path then (false, ok tt) else (w, ok tt);
}

abbrev quiet_log : LogEvent → LogSeverity → String → Option Error → Io Bool (Unit {0})
quiet_log event severity message e = return tt

abbrev nothing_loaded : Io Bool ConfigurationLoadResult
nothing_loaded = return ConfigurationLoadResult.missing

abbrev told : Error → Io Bool (Unit {0})
told e = return tt

abbrev printed : Message → Io Bool (Unit {0})
printed m = return tt

abbrev kept : ConfigurationSnapshot → Io Bool (Unit {0})
kept c = return tt

abbrev typed : List Reading
typed = line "60\n" ∷ line "BACKUP\n" ∷ line "4\n" ∷ line "yes\n" ∷ []

abbrev four_versions : ConfigurationSnapshot
four_versions = record {
  schema_version = pos 2;
  interval_seconds = pos 60;
  mode = "backup";
  retention_count = pos 4;
}

configured :
    (configure lock_os quiet_log nothing_loaded told printed kept "c.json" typed false).1
    ≡ ok four_versions
unfolding configure after caught_result acquire_configuration_ownership within_result
    run_interactive_configuration trim_right trim_left
configured = refl

configure-IsSaved_example :
    IsSaved lock_os quiet_log nothing_loaded told printed kept "c.json" typed four_versions
configure-IsSaved_example =
    configure-IsSaved lock_os quiet_log nothing_loaded told printed kept "c.json" typed false
      four_versions configured

abbrev NoLock : Bool → Type 0
NoLock w = w ≡ false

refused_free :
    (mode : ℕ) (w v : Bool) (e : Error)
    → lock_os.open_exclusive lock_path mode w ≡ (v, err e)
    → NoLock w
    → NoLock v
refused_free mode true v e h i = cc
refused_free mode false v e h i = absurd cc

removed_free : (w v : Bool) → lock_os.remove lock_path w ≡ (v, ok tt) → NoLock v
removed_free w v h = ap (λ p. p.0) (sym h)

always_removed :
    (w v : Bool) (e : Error)
    → lock_os.remove lock_path w ≡ (v, err e)
    → lock_os.is_not_exist e ≡ true
    → NoLock v
always_removed w v e h k = absurd cc

abbrev lock_laws : LockLaws lock_os quiet_log nothing_loaded told printed kept "c.json" typed NoLock
lock_laws = record {
  logged = λ event severity message e w i. i;
  made = λ directory mode w i. i;
  refused = refused_free;
  removed = removed_free;
  missing = always_removed;
}

configure_leaves_no_lock_example :
    Left lock_os quiet_log nothing_loaded told printed kept "c.json" typed NoLock
      (configure lock_os quiet_log nothing_loaded told printed kept "c.json" typed false).0
configure_leaves_no_lock_example =
    configure_leaves_no_lock lock_os quiet_log nothing_loaded told printed kept "c.json" typed
      NoLock false lock_laws refl

abbrev hex_digest : String
hex_digest = "0123456789abcdef0123456789abcdef0123456789abcdef0123456789abcdef"

abbrev expected_identity : BackupArchiveIdentity
expected_identity = record {
  schema_version = 1;
  archive_id = "i";
  source_path = "src";
  destination_path = "dst";
  created_at = 9;
  confirmation_order = 1;
  inventory_digest = hex_digest;
}

abbrev zip_os : Os
zip_os = quiet_os ℕ

abbrev empty_archive : Archives zip_os
empty_archive = record {
  Reader = ℕ;
  Stream = ℕ;
  open_archive = λ p. return 1;
  comment = λ r. "c";
  files = λ r. [];
  open_file = λ r n. return 1;
  discard = λ s. return tt;
  close_file = λ s. return tt;
  close_archive = λ r. return tt;
  hash_of = λ h. return hex_digest;
  decode_identity = λ s. ok expected_identity;
}

abbrev all_names : Names
all_names = record {
  has_backslash = λ n. false;
  is_rooted = λ n. false;
  leads_up = λ n. false;
  is_absolute = λ n. false;
  ends_in_slash = λ n. false;
  without_slash = λ n. n;
  clean = λ n. n;
}

abbrev of_type : ℕ → String → FileType
of_type r n = regular_type

abbrev hash_one : ℕ → Io ℕ String
hash_one s = return hex_digest

abbrev summed : String → String
summed s = hex_digest

abbrev nothing_archived : BackupLogicalInventory
nothing_archived = record { entries = []; digest = hex_digest }

expected_valid : validate_backup_archive_identity expected_identity "" "" 0 "" ≡ none
unfolding validate_backup_archive_identity
expected_valid = refl

archive_passes :
    (verify_backup_archive zip_os empty_archive all_names of_type hash_one summed "0" "a.zip"
      expected_identity nothing_archived 0).1
    ≡ ok tt
unfolding verify_backup_archive after within_result validate_backup_archive_identity
archive_passes = refl

verify_backup_archive-IsVerified_example :
    IsVerified zip_os empty_archive all_names of_type hash_one summed "0" "a.zip" expected_identity
      nothing_archived 0
verify_backup_archive-IsVerified_example =
    verify_backup_archive-IsVerified zip_os empty_archive all_names of_type hash_one summed "0"
      "a.zip" expected_identity nothing_archived 0 expected_valid archive_passes
