-- ===== src/Logging/Domain.antt =====
-- src/log_domain.go, src/log_entry.go, and the names of src/log_formatter.go.
use gosync.Base.{ℕ, String, List, Option}

-- The enumerations are uint8 in the source: a value outside the named constants is `unknown`.
pub data LogSeverity : Type 0 where
  debug info warn error : LogSeverity
  unknown : ℕ → LogSeverity

pub data LogEvent : Type 0 where
  synchronization_started synchronization_completed change_synchronized conflict_detected
        retry_started :
      LogEvent
  retry_completed warning_raised operation_failed persistent_destination_failure : LogEvent
  console_destination_failure configuration_started configuration_succeeded : LogEvent
  configuration_cancelled configuration_failed backup_cycle_started backup_archive_verified :
      LogEvent
  backup_archive_confirmed backup_retention_applied backup_candidate_recovered : LogEvent
  backup_cycle_failed backup_cycle_completed backup_ownership_rejected : LogEvent
  unknown : ℕ → LogEvent

-- `Context` is a Go map; nil is `none`.
pub record LogEntry : Type 0 where
  pub timestamp : ℕ
  pub severity : LogSeverity
  pub event : LogEvent
  pub message : String
  pub context : Option (List (String × String))

unfoldable pub log_severity_name : LogSeverity → String
log_severity_name debug = "DEBUG"
log_severity_name info = "INFO"
log_severity_name warn = "WARN"
log_severity_name error = "ERROR"
log_severity_name (LogSeverity.unknown n) = "UNKNOWN"

unfoldable pub log_event_name : LogEvent → String
log_event_name synchronization_started = "synchronization_started"
log_event_name synchronization_completed = "synchronization_completed"
log_event_name change_synchronized = "change_synchronized"
log_event_name conflict_detected = "conflict_detected"
log_event_name retry_started = "retry_started"
log_event_name retry_completed = "retry_completed"
log_event_name warning_raised = "warning_raised"
log_event_name operation_failed = "operation_failed"
log_event_name persistent_destination_failure = "persistent_destination_failure"
log_event_name console_destination_failure = "console_destination_failure"
log_event_name configuration_started = "configuration_started"
log_event_name configuration_succeeded = "configuration_succeeded"
log_event_name configuration_cancelled = "configuration_cancelled"
log_event_name configuration_failed = "configuration_failed"
log_event_name backup_cycle_started = "backup_cycle_started"
log_event_name backup_archive_verified = "backup_archive_verified"
log_event_name backup_archive_confirmed = "backup_archive_confirmed"
log_event_name backup_retention_applied = "backup_retention_applied"
log_event_name backup_candidate_recovered = "backup_candidate_recovered"
log_event_name backup_cycle_failed = "backup_cycle_failed"
log_event_name backup_cycle_completed = "backup_cycle_completed"
log_event_name backup_ownership_rejected = "backup_ownership_rejected"
log_event_name (LogEvent.unknown n) = "unknown_event"
