-- ===== src/Sync/Execution.antt =====
-- src/synchronization_executor.go (executeSynchronizationPlan, retryLockedFile) and
-- src/synchronization_logging.go, over an unknown world. `none` stands for a loop that is still
-- waiting when the fuel ends.
pub mod Retry
pub mod Order
use gosync.Base.{
  ℕ, zero, suc, String, Bool, true, false, Option, none, some, List, [], ◌∷◌, Error, text, wrap_of,
  Result, ok, err, if◌then◌else◌, not, ◌&&◌, ◌<>◌, ◌==◌, string_Eq, nat_Eq,
}
use gosync.Os.Monad.{Io, ◌>>=◌, ◌>>◌, return, throw, after, when}
use gosync.Sync.Domain.{
  SynchronizationAction, SynchronizationActionKind, copy_to_first, copy_to_second,
  delete_from_first, delete_from_second, SynchronizationResult, SynchronizationPlan,
  EntryComparison, EntryKind, kind_eq,
}
use gosync.Logging.Domain.{
  LogEntry, LogSeverity, info, warn, LogEvent, retry_started, retry_completed, warning_raised,
  change_synchronized, conflict_detected,
}

module _ (World : Type 0) where
  -- `Log` of a LoggingCoordinator.
  abbrev pub Logger : Type 0
  Logger = LogEntry → Io World (Unit {0})

  pub record SynchronizationExecutionOptions : Type 0 where
    pub notify : Option (String → World → World)
    pub is_locked_error : Option (Error → Bool)
    pub sleep : Option (World → World)
    pub logger : Option Logger

  unfoldable pub log_retry_event :
      Logger → LogEvent → LogSeverity → String → String → Io World (Unit {0})
  log_retry_event logger event severity file_path message = logger (record {
    timestamp = 0;
    severity = severity;
    event = event;
    message = message;
    context = some (("path", file_path) ∷ []);
  })

  unfoldable pub action_message : SynchronizationActionKind → String
  action_message copy_to_first = "change copied to first directory"
  action_message copy_to_second = "change copied to second directory"
  action_message delete_from_first = "change deleted from first directory"
  action_message delete_from_second = "change deleted from second directory"
  action_message (SynchronizationActionKind.unknown n) = "synchronization change completed"

  -- The number of a kind. (A value past the constants is at least 4.)
  unfoldable pub action_number : SynchronizationActionKind → ℕ
  action_number copy_to_first = 0
  action_number copy_to_second = 1
  action_number delete_from_first = 2
  action_number delete_from_second = 3
  action_number (SynchronizationActionKind.unknown n) = n

  -- `decimal` is `fmt.Sprintf("%d", …)`.
  unfoldable pub log_synchronized_action :
      (ℕ → String) → Logger → SynchronizationAction → Io World (Unit {0})
  unfolding action_message action_number
  log_synchronized_action decimal logger action = logger (record {
    timestamp = 0;
    severity = info;
    event = change_synchronized;
    message = action_message action.kind;
    context =
        some
          (("path", action.relative_path) ∷ ("action", decimal (action_number action.kind)) ∷ []);
  })

  -- A nil logger logs nothing.
  abbrev pub with_logger : Option Logger → (Logger → Io World (Unit {0})) → Io World (Unit {0})
  with_logger none f = return tt
  with_logger (some logger) f = f logger

  -- The default of `notify` does nothing.
  abbrev pub notice : Option (String → World → World) → String → World → World
  notice none message w = w
  notice (some notify) message w = notify message w

  -- The platform's `isLockedFileError` and `time.Sleep(time.Second)`, where the options name none,
  -- and the quoting of `%q`.
  module _ (default_is_locked : Error → Bool) (default_sleep : World → World)
      (quote : String → String) where
    abbrev pub locked_test : Option (Error → Bool) → Error → Bool
    locked_test none = default_is_locked
    locked_test (some is_locked) = is_locked

    abbrev pub pause : Option (World → World) → World → World
    pause none = default_sleep
    pause (some sleep) = sleep

    module _ (options : SynchronizationExecutionOptions) (file_path : String) where
      -- The branch of `err == nil`.
      unfoldable pub finish_retry : Bool → Io World (Unit {0})
      unfolding log_retry_event
      finish_retry false w = (w, ok tt)
      finish_retry true w =
          with_logger options.logger
            (λ logger.
              log_retry_event logger retry_completed info file_path "locked file retry completed")
            (notice options.notify ("File " <> quote file_path <> " synchronized successfully.") w)

      -- What a locked error does before the next attempt.
      unfoldable pub await_unlock : Bool → Io World (Unit {0})
      unfolding log_retry_event
      await_unlock true w = (pause options.sleep w, ok tt)
      await_unlock false w =
          (do
            with_logger options.logger λ logger. do
              log_retry_event logger retry_started warn file_path "locked file retry started"
              log_retry_event logger warning_raised warn file_path
                  "file is locked; retrying synchronization"
            λ w'. (pause options.sleep w', ok tt))
            (notice options.notify
              ("File " <> quote file_path <> " is locked; retrying synchronization.") w)

      -- A failed log entry ends the loop with its error.
      unfoldable pub resume :
          (World → Option (World × Result (Unit {0})))
          → World × Result (Unit {0})
          → Option (World × Result (Unit {0}))
      resume again (w, ok _) = again w
      resume again (w, err e) = some (w, err e)

      -- One round of the loop, on the outcome of the operation.
      unfoldable pub retry_outcome :
          (World → Option (World × Result (Unit {0})))
          → Bool
          → World × Result (Unit {0})
          → Option (World × Result (Unit {0}))
      unfolding finish_retry await_unlock resume
      retry_outcome again sent (w, ok _) = some (finish_retry sent w)
      retry_outcome again sent (w, err e) = elim (locked_test options.is_locked_error e) [
        | false ↦ some (w, err e)
        | true ↦ resume again (await_unlock sent w)
      ]

      unfoldable pub retry_loop :
          ℕ → Io World (Unit {0}) → Bool → World → Option (World × Result (Unit {0}))
      unfolding retry_outcome
      retry_loop zero operation sent w = none
      retry_loop (suc fuel) operation sent w =
          retry_outcome (retry_loop fuel operation true) sent (operation w)

      unfoldable pub retry_locked_file :
          ℕ → Io World (Unit {0}) → World → Option (World × Result (Unit {0}))
      unfolding retry_loop
      retry_locked_file fuel operation w = retry_loop fuel operation false w

    module _ (decimal : ℕ → String) (options : SynchronizationExecutionOptions) (fuel : ℕ)
        (execute_action : SynchronizationAction → Io World (Unit {0})) where
      abbrev pub failed : Error → SynchronizationResult
      failed e = record { completed = false; failure = some e }

      -- The rest of a loop round, behind the retry.
      unfoldable pub log_action :
          SynchronizationAction
          → (World → Option (World × SynchronizationResult))
          → World × Result (Unit {0})
          → Option (World × SynchronizationResult)
      log_action action rest (w, ok _) = rest w
      log_action action rest (w, err e) =
          some (w, failed (wrap_of "log synchronized action for %q" action.relative_path e))

      unfoldable pub after_action :
          SynchronizationAction
          → (World → Option (World × SynchronizationResult))
          → Option (World × Result (Unit {0}))
          → Option (World × SynchronizationResult)
      unfolding log_action log_synchronized_action
      after_action action rest none = none
      after_action action rest (some (w, err e)) =
          some (w, failed (wrap_of "execute action for %q" action.relative_path e))
      after_action action rest (some (w, ok _)) =
          log_action action rest
            (with_logger options.logger (λ logger. log_synchronized_action decimal logger action) w)

      unfoldable pub execute_actions :
          List SynchronizationAction → World → Option (World × SynchronizationResult)
      unfolding after_action retry_locked_file
      execute_actions [] w = some (w, record { completed = true; failure = none })
      execute_actions (action ∷ actions) w =
          after_action action (execute_actions actions)
            (retry_locked_file options action.relative_path fuel (execute_action action) w)

      unfoldable pub execute_synchronization_plan :
          SynchronizationPlan → World → Option (World × SynchronizationResult)
      unfolding execute_actions
      execute_synchronization_plan plan w = execute_actions plan.actions w
