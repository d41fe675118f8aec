-- ===== src/Tests/BackupRuns.antt =====
-- The theorems on the roots, the destination, the confirmation and the cycle of a backup at small worlds.
use gosync.Base.{
  ℕ, suc, ◌<◌, ◌≤◌, ◌^◌, String, true, false, none, [], ◌∷◌, ◌==◌, string_Eq, text, Result, ok, err,
  pos, ◌+◌, ◌≡◌, refl, ◌↔◌, arith, if◌then◌else◌, is_blank, length, take, List, some,
}
use mathlib.Core.Path.{subst}
use gosync.Os.{Os, regular_type}
use gosync.Os.Monad.{Io, return, after, within_result, caught_result, attempt_result}
use gosync.Backup.SetState.{BackupSetState, validate_backup_set_state, is_pending}
use gosync.Backup.SetState.Valid.{IsValid}
use gosync.Backup.SetState.Valid.Sound.{validate-IsValid}
use gosync.Backup.Identity.{BackupArchiveIdentity, validate_backup_archive_identity}
use gosync.Backup.Confirm.{record_of, with_record, confirm_backup_archive}
use gosync.Backup.Confirm.Valid.{with_record-IsValid_iff, record_of-IsFormed}
use gosync.Backup.Confirm.Outcome.{confirm_backup_archive-IsValid}
use gosync.Backup.Policy.{
  Paths, climb, validate_backup_root_paths, BackupPolicySnapshot, directory_destination,
}
use gosync.Backup.Policy.Fuel.{climb_ends}
use gosync.Backup.Policy.Roots.{IsSeparated, validate_backup_root_paths-IsSeparated}
use gosync.Backup.Store.{BackupSetStore, BackupSetLoadResult}
use gosync.Backup.Archives.{Archives}
use gosync.Backup.Archives.Comment.{
  with_comment, word_at, last_signature, comment_length, comment_at, with_comment_reads_back,
}
use gosync.Backup.Destination.{recover_owned_backup_candidates, bound}
use gosync.Backup.Destination.Recovery.{IsRecovery, recover_owned_backup_candidates-IsRecovery}
use gosync.Backup.Inventory.{BackupLogicalInventory, verify_backup_source_stability}
use gosync.Backup.Inventory.Equal.{verify_backup_source_stability_iff}
use gosync.Backup.Cycle.{Services, run_backup_cycle, on_result}
use gosync.Backup.Cycle.Completed.{IsCompleted, run_backup_cycle-IsCompleted}
use gosync.Tests.Quiet.{quiet_os}

abbrev digest : String
digest = "0123456789abcdef0123456789abcdef0123456789abcdef0123456789abcdef"

abbrev identity : BackupArchiveIdentity
identity = record {
  schema_version = 1;
  archive_id = "i";
  source_path = "src";
  destination_path = "dst";
  created_at = 9;
  confirmation_order = 1;
  inventory_digest = digest;
}

abbrev first_state : BackupSetState
first_state = record {
  schema_version = 1;
  destination_path = "dst";
  source_path = "src";
  next_confirmation_order = 1;
  archives = [];
  pending_removal = none;
}

abbrev store : BackupSetStore
store = record {
  application_data_directory = "app";
  destination_path = "dst";
  state_path = "app/s";
}

first_state-IsValid : IsValid first_state
unfolding validate_backup_set_state
first_state-IsValid = validate-IsValid first_state refl

with_record-IsValid_iff_example :
    IsValid (with_record first_state (record_of identity "a.zip" digest)) ↔ 2 < 2 ^ 64
unfolding validate_backup_archive_identity is_pending
with_record-IsValid_iff_example =
    with_record-IsValid_iff first_state (record_of identity "a.zip" digest) first_state-IsValid
      (record_of-IsFormed identity "src" "dst" 1 digest "a.zip" digest refl refl refl) refl refl
      (omega arith) refl

-- The directory of each path is the destination.
abbrev flat_os : Os
flat_os = record (quiet_os ℕ) { dir = λ p. "dst" }

abbrev unchanged : String → Io ℕ String
unchanged p w = (w, ok p)

abbrev saved : BackupSetState → Io ℕ (Unit {0})
saved s w = (suc w, ok tt)

named_here : (p : String) → ◌≡◌ {A = Result String} (ok "a.zip") (ok p) → is_blank p ≡ false
unfolding is_blank
named_here p h = let same : "a.zip" ≡ p = cc in subst (λ x. is_blank x ≡ false) same refl

confirm_backup_archive-IsValid_example :
    IsValid (with_record first_state (record_of identity "a.zip" digest))
    × ((◌≡◌ {A = ℕ} 2 2)
        × ((name : String) × ((record_of identity "a.zip" digest ∷ [])
              ≡ (record_of identity name digest ∷ []))))
unfolding validate_backup_archive_identity confirm_backup_archive after within_result
    validate_backup_set_state
confirm_backup_archive-IsValid_example =
    confirm_backup_archive-IsValid flat_os unchanged saved "dst" first_state identity "a.zip" digest
      0 (with_record first_state (record_of identity "a.zip" digest)) named_here refl (omega arith)
      refl

-- Each path is below the root, and the root is its own parent.
abbrev rooted_os : Os
rooted_os = record (quiet_os ℕ) {
  is_not_exist = λ e. true;
  dir = λ p. "/";
  lstat = λ p w. (w, err (text "no such file"));
}

abbrev depth : String → ℕ
depth p = if "/" == p then 0 else 1

deeper : (p : String) → ("/" == p) ≡ false → 0 < depth p
deeper p h = rw h (omega arith)

abbrev apart : (os : Os) → Paths os
apart os = record {
  absolute = λ p. return p;
  resolve = λ p. return p;
  relative = λ a b. ok "..";
  same_volume = λ a b. true;
  leads_up = λ p. false;
  read_names = λ h. return [];
  is_eof = λ e. false;
}

climb_ends_example : ¬ ((climb rooted_os (apart rooted_os) 2 "/a" [] 0).1 ≡ ok none)
climb_ends_example = climb_ends rooted_os (apart rooted_os) depth 2 "/a" [] 0 deeper (omega arith)

validate_backup_root_paths-IsSeparated_example :
    IsSeparated
      (quiet_os ℕ)
      (apart (quiet_os ℕ))
      unchanged
      (record { source = "src"; destination = "dst" })
      "conf"
unfolding validate_backup_root_paths after within_result caught_result attempt_result
validate_backup_root_paths-IsSeparated_example =
    validate_backup_root_paths-IsSeparated (quiet_os ℕ) (apart (quiet_os ℕ)) unchanged "src" "dst"
      "conf" 0 (record { source = "src"; destination = "dst" }) refl

-- A destination with one archive, which no state records; a world counts the removals.
abbrev candidate_os : Os
candidate_os = record (quiet_os ℕ) {
  lstat = λ p w. (
    w,
    ok (record { type_of = regular_type; permissions = 384; size = 1; modification_time = 7 }),
  );
  read_dir = λ p w. (w, ok ("a.zip" ∷ []));
  remove = λ p w. (suc w, ok tt);
}

abbrev one_archive : Archives candidate_os
one_archive = record {
  Reader = ℕ;
  Stream = ℕ;
  open_archive = λ p. return 1;
  comment = λ r. "c";
  files = λ r. [];
  open_file = λ r n. return 1;
  discard = λ s. return tt;
  close_file = λ s. return tt;
  close_archive = λ r. return tt;
  hash_of = λ h. return digest;
  decode_identity = λ s. ok identity;
}

recover_owned_backup_candidates-IsRecovery_example :
    IsRecovery candidate_os one_archive unchanged
      (λ p. return directory_destination)
      (return BackupSetLoadResult.missing)
      store
      "src"
      0
      1
unfolding recover_owned_backup_candidates after within_result caught_result
    validate_backup_archive_identity
recover_owned_backup_candidates-IsRecovery_example =
    recover_owned_backup_candidates-IsRecovery candidate_os one_archive unchanged
      (λ p. return directory_destination) (return BackupSetLoadResult.missing) store "src" 0 1 refl

abbrev no_files : BackupLogicalInventory
no_files = record { entries = []; digest = digest }

verify_backup_source_stability_iff_example :
    (verify_backup_source_stability no_files no_files (record { entries = []; digest = "other" })
      ≡ none)
    ↔ ((no_files ≡ no_files) × (no_files ≡ record { entries = []; digest = "other" }))
verify_backup_source_stability_iff_example =
    verify_backup_source_stability_iff no_files no_files (record { entries = []; digest = "other" })

-- Every service succeeds; a world counts the changes.
abbrev counting : Services ℕ
counting = record {
  log = λ event severity message e w. (suc w, ok tt);
  validate_backup_source = λ p. return tt;
  inspect_backup_destination = λ p. return directory_destination;
  make_directory = λ p m w. (suc w, ok tt);
  new_backup_set_store_at = λ a d. return store;
  inspect_backup_set_destination =
      λ s p. return (record { status = bound; entries = []; fault = none });
  recover_owned_backup_candidates = λ s p. return tt;
  load = λ s. return (BackupSetLoadResult.valid first_state);
  validate_backup_set_source_binding = λ s p. return tt;
  execute_backup_retention = λ t s n w. (suc w, ok tt);
  build_backup_logical_inventory = λ p. return no_files;
  archive_id = return "i";
  clock = return 9;
  create_backup_archive_candidate = λ d i w. (suc w, ok "t");
  write_backup_archive = λ p r i n w. (suc w, ok tt);
  verify_backup_archive = λ p i n. return tt;
  generate_backup_archive_name = λ n i. ok "a.zip";
  join_path = λ a b. b;
  publish_backup_archive = λ c f w. (suc w, ok tt);
  calculate_backup_archive_digest = λ p. return digest;
  confirm_backup_archive = λ t s i p d w. (suc w, ok (with_record s (record_of i p d)));
  rollback_backup_first_cycle = λ d c w. (suc w, ok tt);
}

abbrev policy : BackupPolicySnapshot
policy = record {
  source_root = "src";
  destination_root = "dst";
  interval_seconds = pos 60;
  retention_count = pos 3;
}

cycle_runs : run_backup_cycle ℕ counting "app" policy 0 ≡ (10, ok tt)
unfolding run_backup_cycle after on_result attempt_result within_result
    verify_backup_source_stability
cycle_runs = refl

run_backup_cycle-IsCompleted_example : IsCompleted ℕ counting "app" policy 0 10
run_backup_cycle-IsCompleted_example =
    run_backup_cycle-IsCompleted ℕ counting "app" policy 0 10 cycle_runs

-- An archive of an end record alone, with no comment yet.
abbrev end_record : List ℕ
end_record =
    0x50 ∷ 0x4b ∷ 5 ∷ 6 ∷ 0 ∷ 0 ∷ 0 ∷ 0 ∷ 0 ∷ 0 ∷ 0 ∷ 0 ∷ 0 ∷ 0 ∷ 0 ∷ 0 ∷ 0 ∷ 0 ∷ 0 ∷ 0 ∷ 0 ∷ 0 ∷ []

abbrev commented : List ℕ
commented =
    0x50 ∷ 0x4b ∷ 5 ∷ 6 ∷ 0 ∷ 0 ∷ 0 ∷ 0 ∷ 0 ∷ 0 ∷ 0 ∷ 0 ∷ 0 ∷ 0 ∷ 0 ∷ 0 ∷ 0 ∷ 0 ∷ 0 ∷ 0 ∷ 2 ∷ 0 ∷ 7
    ∷ 9 ∷ []

with_comment_reads_back_example :
    (end : ℕ) × (last_signature end_record ≡ some end)
    × (end + 22 ≤ length end_record)
    × (take (end + 20) commented ≡ take (end + 20) end_record)
    × (comment_length end commented ≡ 2)
    × (comment_at end commented ≡ 7 ∷ 9 ∷ [])
unfolding with_comment word_at
with_comment_reads_back_example = with_comment_reads_back end_record (7 ∷ 9 ∷ []) commented refl
