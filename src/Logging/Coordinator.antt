-- ===== src/Logging/Coordinator.antt =====
-- src/logging_coordinator.go: a record goes to the console and to the log file, and a destination that
-- fails is disabled. The destinations, the clock, the sanitizer and the formatter are parameters.
pub mod Availability
use gosync.Base.{
  ℕ, String, Bool, true, false, ◌&&◌, not, Option, none, some, [], ◌∷◌, ◌==◌, string_Eq,
  if◌then◌else◌, Error, text, wrap, join, Result, ok, err,
}
use gosync.Os.Monad.{Io, after, ◌>>=◌, return}
use gosync.Logging.Domain.{LogEntry, LogSeverity, LogEvent}

-- The flags of a coordinator, and the world that its destinations write to.
pub record LoggingCoordinator (World : Type 0) : Type 0 where
  pub console_available : Bool
  pub persistent_available : Bool
  pub world : World

abbrev pub logging_unavailable : Error
logging_unavailable = text "logging unavailable"

-- The options that the construction reads: whether there is a console writer and a file destination.
pub record LoggingCoordinatorOptions : Type 0 where
  pub has_console_writer : Bool
  pub file_directory : String
  pub has_file_destination : Bool

module _ (World : Type 0) (write_console write_file : String → Io World (Unit {0}))
    (clock : World → ℕ) (render : LogEntry → String) (error_message : Error → String) where
  abbrev pub unavailable : LoggingCoordinator World → Bool
  unavailable c = not c.console_available && not c.persistent_available

  abbrev pub without_console : LoggingCoordinator World → LoggingCoordinator World
  without_console c = record c { console_available = false }

  abbrev pub without_file : LoggingCoordinator World → LoggingCoordinator World
  without_file c = record c { persistent_available = false }

  -- What a write of a destination makes of the coordinator, with its error.
  unfoldable pub written :
      LoggingCoordinator World → World × Result (Unit {0}) → LoggingCoordinator World × Option Error
  written c (w, ok u) = (record c { world = w }, none)
  written c (w, err e) = (record c { world = w }, some e)

  abbrev pub failure_record : LogEvent → String → Error → World → String
  failure_record event message e w = render (record {
    timestamp = clock w;
    severity = LogSeverity.error;
    event = event;
    message = message;
    context = some (("error", error_message e) ∷ []);
  })

  unfoldable pub write_persistent_failure :
      Error → LoggingCoordinator World → LoggingCoordinator World × Option Error
  unfolding written
  write_persistent_failure e c =
      if c.console_available
      then written c (
          write_console
            (failure_record LogEvent.persistent_destination_failure
              "persistent logging failed and was disabled" e c.world)
            c.world)
      else (c, some logging_unavailable)

  unfoldable pub write_console_failure :
      Error → LoggingCoordinator World → LoggingCoordinator World × Option Error
  unfolding written
  write_console_failure e c =
      if c.persistent_available
      then written c (
          write_file
            (failure_record LogEvent.console_destination_failure
              "console logging failed and was disabled" e c.world)
            c.world)
      else (c, some logging_unavailable)

  -- A destination whose report of the other one's failure fails is disabled too.
  abbrev pub console_reported : LoggingCoordinator World × Option Error → LoggingCoordinator World
  console_reported (c, none) = c
  console_reported (c, some e) = without_console c

  abbrev pub file_reported : LoggingCoordinator World × Option Error → LoggingCoordinator World
  file_reported (c, none) = c
  file_reported (c, some e) = without_file c

  -- The console's part of `Write`.
  unfoldable pub console_written :
      LoggingCoordinator World × Option Error → LoggingCoordinator World
  unfolding write_console_failure
  console_written (c, none) = c
  console_written (c, some e) =
      if c.persistent_available
      then file_reported (write_console_failure e (without_console c))
      else without_console c

  unfoldable pub console_step : String → LoggingCoordinator World → LoggingCoordinator World
  unfolding written console_written
  console_step formatted_record c =
      if c.console_available
      then console_written (written c (write_console formatted_record c.world))
      else c

  -- The log file's part of `Write`.
  unfoldable pub file_written : LoggingCoordinator World × Option Error → LoggingCoordinator World
  unfolding write_persistent_failure
  file_written (c, none) = c
  file_written (c, some e) =
      if c.console_available
      then console_reported (write_persistent_failure e (without_file c))
      else without_file c

  unfoldable pub file_step : String → LoggingCoordinator World → LoggingCoordinator World
  unfolding written file_written
  file_step formatted_record c =
      if c.persistent_available
      then file_written (written c (write_file formatted_record c.world))
      else c

  -- The last test of `Write`.
  unfoldable pub outcome : LoggingCoordinator World → LoggingCoordinator World × Option Error
  outcome c = (c, if unavailable c then some logging_unavailable else none)

  unfoldable pub write_record :
      String → LoggingCoordinator World → LoggingCoordinator World × Option Error
  unfolding console_step file_step outcome
  write_record formatted_record c =
      if unavailable c
      then (c, some logging_unavailable)
      else outcome (file_step formatted_record (console_step formatted_record c))

  -- `Log`: `render` sanitizes and formats.
  unfoldable pub log_entry :
      LogEntry → LoggingCoordinator World → LoggingCoordinator World × Option Error
  unfolding write_record
  log_entry entry = write_record (render entry)

  module _ (resolve_directory : Io World String)
      (ensure_directory : String → Io World (Unit {0})) where
    -- The console tells that the log file is out of reach; a console that cannot is the end.
    unfoldable pub report_start :
        LoggingCoordinator World × Option Error → World × Result (LoggingCoordinator World)
    report_start (c, none) =
        if unavailable c then (c.world, err logging_unavailable) else (c.world, ok c)
    report_start (c, some e) = (c.world, err (join logging_unavailable e))

    unfoldable pub directory_ensured :
        Bool → World × Result (Unit {0}) → World × Result (LoggingCoordinator World)
    unfolding report_start write_persistent_failure
    directory_ensured console (w, ok u) =
        (w, ok (record { console_available = console; persistent_available = true; world = w }))
    directory_ensured console (w, err e) =
        if not console
        then (w, err (join logging_unavailable e))
        else report_start (
            write_persistent_failure e
              (record { console_available = console; persistent_available = false; world = w }))

    abbrev pub log_directory : String → Io World String
    log_directory directory = if directory == "" then resolve_directory else return directory

    unfoldable pub build_logging_coordinator :
        LoggingCoordinatorOptions → Bool → Io World (LoggingCoordinator World)
    unfolding directory_ensured
    build_logging_coordinator options skip_persistent_destination w =
        if skip_persistent_destination
        then if options.has_console_writer
          then (
            w,
            ok (record { console_available = true; persistent_available = false; world = w }),
          )
          else (w, err logging_unavailable)
        else if options.has_file_destination
        then (
          w,
          ok (record {
            console_available = options.has_console_writer;
            persistent_available = true;
            world = w;
          }),
        )
        else after (log_directory options.file_directory w) (λ directory v.
          directory_ensured options.has_console_writer (ensure_directory directory v))
