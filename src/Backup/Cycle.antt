-- ===== src/Backup/Cycle.antt =====
-- src/backup_cycle.go: one cycle of a backup over the operations of its components.
pub mod Completed
use gosync.Base.{
  ℕ, String, Bool, true, false, not, ◌&&◌, ◌||◌, Option, none, some, List, [], ◌∷◌, ◌==◌, string_Eq,
  any, ltb, length, if◌then◌else◌, Error, text, wrap, Result, ok, err, ℤ, pos, negsuc,
}
use gosync.Os.Monad.{
  Io, after, within_result, attempt_result, caught_result, ◌>>=◌, ◌>>◌, return, throw, within,
  attempt, caught, lift, when, raise,
}
use gosync.Logging.Domain.{LogEvent, LogSeverity}
use gosync.Backup.SetState.{BackupSetState}
use gosync.Backup.Store.{BackupSetStore, BackupSetLoadResult}
use gosync.Backup.Identity.{BackupArchiveIdentity, identity_schema_version}
use gosync.Backup.Policy.{
  BackupPolicySnapshot, BackupDestinationStatus, missing_destination, directory_destination,
}
use gosync.Backup.Destination.{
  DestinationEntry, Inspection, InspectionStatus, empty_unbound, missing, bound, foreign, damaged,
  is_candidate,
}
use gosync.Backup.Inventory.{BackupLogicalInventory, verify_backup_source_stability}

-- What a cycle calls; each field is named for the function of the repository that it stands for.
-- `log` is `logBackupCycle` with the error of its context, and does nothing without a logger.
pub record Services (World : Type 0) : Type 0 where
  pub log : LogEvent → LogSeverity → String → Option Error → Io World (Unit {0})
  pub validate_backup_source : String → Io World (Unit {0})
  pub inspect_backup_destination : String → Io World BackupDestinationStatus
  pub make_directory : String → ℕ → Io World (Unit {0})
  pub new_backup_set_store_at : String → String → Io World BackupSetStore
  pub inspect_backup_set_destination : BackupSetStore → String → Io World Inspection
  pub recover_owned_backup_candidates : BackupSetStore → String → Io World (Unit {0})
  pub load : BackupSetStore → Io World BackupSetLoadResult
  pub validate_backup_set_source_binding : BackupSetState → String → Io World (Unit {0})
  pub execute_backup_retention : BackupSetStore → BackupSetState → ℤ → Io World (Unit {0})
  pub build_backup_logical_inventory : String → Io World BackupLogicalInventory
  pub archive_id : Io World String
  pub clock : Io World ℕ
  pub create_backup_archive_candidate : String → String → Io World String
  pub write_backup_archive :
      String → String → BackupLogicalInventory → BackupArchiveIdentity → Io World (Unit {0})
  pub verify_backup_archive :
      String → BackupArchiveIdentity → BackupLogicalInventory → Io World (Unit {0})
  pub generate_backup_archive_name : ℕ → String → Result String
  pub join_path : String → String → String
  pub publish_backup_archive : String → String → Io World (Unit {0})
  pub calculate_backup_archive_digest : String → Io World String
  pub confirm_backup_archive :
      BackupSetStore
      → BackupSetState
      → BackupArchiveIdentity
      → String
      → String
      → Io World BackupSetState
  pub rollback_backup_first_cycle : String → String → Io World (Unit {0})

-- A running cycle: the world, and the variables that the deferred function reads.
pub record Running (World : Type 0) : Type 0 where
  pub world : World
  pub destination_created : Bool
  pub confirmed : Bool
  pub candidate_path : String

abbrev pub started : {World : Type 0} → World → Running World
started w = record {
  world = w;
  destination_created = false;
  confirmed = false;
  candidate_path = "";
}

unfoldable pub on_result :
    {World A : Type 0} → Running World → World × Result A → Running World × Result A
on_result r (w, x) = (record r { world = w }, x)

-- A call of a service in a running cycle.
abbrev pub on : {World A : Type 0} → Io World A → Io (Running World) A
on m r = on_result r (m r.world)

abbrev pub empty_state : BackupSetStore → BackupSetState
empty_state store = record {
  schema_version = 1;
  destination_path = store.destination_path;
  source_path = "";
  next_confirmation_order = 1;
  archives = [];
  pending_removal = none;
}

-- `state.PendingRemoval != nil || len(state.Archives) > policy.BackupRetentionCount`
unfoldable pub needs_retention : BackupSetState → ℤ → Bool
needs_retention s (negsuc n) = true
needs_retention s (pos n) = elim s.pending_removal [
  | some p ↦ true
  | none ↦ ltb n (length s.archives)
]

-- A destination without a state that was empty or missing.
abbrev pub is_unbound : InspectionStatus → Bool
is_unbound empty_unbound = true
is_unbound missing = true
is_unbound s = false

-- An archive on its way: its identity, the inventory that it was made from, and the candidate's path.
pub record Draft : Type 0 where
  pub store : BackupSetStore
  pub state : BackupSetState
  pub identity : BackupArchiveIdentity
  pub inventory : BackupLogicalInventory
  pub candidate : String

module _ (World : Type 0) (services : Services World) where
  abbrev pub Cycle : Type 0 → Type 0
  Cycle A = Io (Running World) A

  abbrev pub info : LogEvent → String → Cycle (Unit {0})
  info event message = on (services.log event LogSeverity.info message none)

  abbrev pub mark_created : Cycle (Unit {0})
  mark_created r = (record r { destination_created = true }, ok tt)

  abbrev pub mark_confirmed : Cycle (Unit {0})
  mark_confirmed r = (record r { confirmed = true }, ok tt)

  abbrev pub set_candidate : String → Cycle (Unit {0})
  set_candidate path r = (record r { candidate_path = path }, ok tt)

  unfoldable pub ensure_destination : String → BackupDestinationStatus → Cycle (Unit {0})
  ensure_destination destination directory_destination = return tt
  ensure_destination destination missing_destination = do
    within "create backup destination" (on (services.make_directory destination 448))
    mark_created

  -- The recovery's error counts unless the destination was empty or missing.
  unfoldable pub recover : BackupSetStore → String → Inspection → Cycle (Unit {0})
  recover store source inspection = do
    failure ← attempt (on (services.recover_owned_backup_candidates store source))
    raise (if is_unbound inspection.status then none else failure)
    when (any (λ e. is_candidate e.kind) inspection.entries)
        (info LogEvent.backup_candidate_recovered "backup destination inspected")

  unfoldable pub state_of_load :
      BackupPolicySnapshot → BackupSetStore → BackupSetLoadResult → Cycle BackupSetState
  state_of_load policy store (BackupSetLoadResult.io_failure e) = throw e
  state_of_load policy store (BackupSetLoadResult.unsupported e) = throw e
  state_of_load policy store (BackupSetLoadResult.invalid e) = throw e
  state_of_load policy store BackupSetLoadResult.missing = return (empty_state store)
  state_of_load policy store (BackupSetLoadResult.valid s) =
      on (services.validate_backup_set_source_binding s policy.source_root) >> return s

  -- The state that is loaded behind the retention.
  unfoldable pub reloaded : BackupSetLoadResult → Cycle BackupSetState
  reloaded (BackupSetLoadResult.io_failure e) = throw e
  reloaded (BackupSetLoadResult.unsupported e) = throw e
  reloaded (BackupSetLoadResult.invalid e) = throw e
  reloaded BackupSetLoadResult.missing = throw (text "backup state unavailable after retention")
  reloaded (BackupSetLoadResult.valid s) = return s

  unfoldable pub retain_first :
      BackupPolicySnapshot → BackupSetStore → BackupSetState → Cycle BackupSetState
  unfolding needs_retention reloaded
  retain_first policy store s =
      if needs_retention s policy.retention_count
      then (do
        on (services.execute_backup_retention store s policy.retention_count)
        loaded ← on (services.load store)
        reloaded loaded)
      else return s

  -- The first half of a cycle: the destination, its store and its state.
  unfoldable pub prepare : String → BackupPolicySnapshot → Cycle (BackupSetStore × BackupSetState)
  unfolding ensure_destination recover state_of_load retain_first
  prepare application_data policy = do
    on (services.validate_backup_source policy.source_root)
    status ← on (services.inspect_backup_destination policy.destination_root)
    ensure_destination policy.destination_root status
    store ← on (services.new_backup_set_store_at application_data policy.destination_root)
    inspection ← on (services.inspect_backup_set_destination store policy.source_root)
    raise inspection.fault
    recover store policy.source_root inspection
    loaded ← on (services.load store)
    s ← state_of_load policy store loaded
    retained ← retain_first policy store s
    return (store, retained)

  abbrev pub identity_of :
      BackupPolicySnapshot
      → BackupSetStore
      → BackupSetState
      → BackupLogicalInventory
      → String
      → ℕ
      → BackupArchiveIdentity
  identity_of policy store s inventory id now = record {
    schema_version = identity_schema_version;
    archive_id = id;
    source_path = policy.source_root;
    destination_path = store.destination_path;
    created_at = now;
    confirmation_order = s.next_confirmation_order;
    inventory_digest = inventory.digest;
  }

  -- The candidate with the archive of the source as it is now.
  unfoldable pub write_draft : BackupPolicySnapshot → BackupSetStore → BackupSetState → Cycle Draft
  write_draft policy store s = do
    inventory ← on (services.build_backup_logical_inventory policy.source_root)
    id ← within "generate backup archive identifier" (on services.archive_id)
    now ← on services.clock
    candidate ← on (services.create_backup_archive_candidate store.destination_path id)
    set_candidate candidate
    on (
        services.write_backup_archive candidate policy.source_root inventory
          (identity_of policy store s inventory id now))
    return (record {
      store = store;
      state = s;
      identity = identity_of policy store s inventory id now;
      inventory = inventory;
      candidate = candidate;
    })

  -- The candidate becomes an archive of the destination; its path is returned.
  unfoldable pub publish_draft : BackupPolicySnapshot → Draft → Cycle String
  publish_draft policy d = do
    on (services.verify_backup_archive d.candidate d.identity d.inventory)
    info LogEvent.backup_archive_verified "backup archive verified"
    final ← on (services.build_backup_logical_inventory policy.source_root)
    raise (verify_backup_source_stability d.inventory d.inventory final)
    name ← lift (services.generate_backup_archive_name d.identity.created_at d.identity.archive_id)
    on (
        services.publish_backup_archive d.candidate
          (services.join_path d.store.destination_path name))
    set_candidate ""
    return (services.join_path d.store.destination_path name)

  -- The confirmation of a published archive, and the retention behind it.
  unfoldable pub confirm_published : BackupPolicySnapshot → Draft → String → Cycle (Unit {0})
  confirm_published policy d path = do
    digest ← on (services.calculate_backup_archive_digest path)
    s ← on (services.confirm_backup_archive d.store d.state d.identity path digest)
    mark_confirmed
    info LogEvent.backup_archive_confirmed "backup archive confirmed"
    on (services.execute_backup_retention d.store s policy.retention_count)
    info LogEvent.backup_retention_applied "backup retention applied"
    info LogEvent.backup_cycle_completed "backup cycle completed successfully"

  unfoldable pub cycle_body : String → BackupPolicySnapshot → Cycle (Unit {0})
  unfolding prepare write_draft publish_draft confirm_published
  cycle_body application_data policy = do
    prepared ← prepare application_data policy
    draft ← write_draft policy prepared.0 prepared.1
    path ← publish_draft policy draft
    confirm_published policy draft path

  -- An error with the one of a call behind it, `errors.Join(cycleErr, err)` where that fails.
  abbrev pub also : Error → Option Error → Error
  also e none = e
  also e (some f) = Error.join e f

  -- The deferred function.
  unfoldable pub cycle_failed : String → Running World → Error → World × Result (Unit {0})
  cycle_failed destination r e =
      (do
        rollback ←
            (if not r.confirmed && r.destination_created
              then attempt (services.rollback_backup_first_cycle destination r.candidate_path)
              else return none)
        logged ← attempt (
            services.log LogEvent.backup_cycle_failed LogSeverity.error "backup cycle failed"
              (some (also e rollback)))
        throw (also (also e rollback) logged))
        r.world

  unfoldable pub cycle_end : String → Running World × Result (Unit {0}) → World × Result (Unit {0})
  unfolding cycle_failed
  cycle_end destination (r, ok u) = (r.world, ok tt)
  cycle_end destination (r, err e) = cycle_failed destination r e

  unfoldable pub run_backup_cycle : String → BackupPolicySnapshot → Io World (Unit {0})
  unfolding cycle_end cycle_body
  run_backup_cycle application_data policy =
      if application_data == ""
      then throw (text "backup application-data directory is required")
      else (do
        services.log LogEvent.backup_cycle_started LogSeverity.info "backup cycle started" none
        λ w. cycle_end policy.destination_root (cycle_body application_data policy (started w)))
