-- ===== src/Lib.antt =====
-- gosync: a model of the core of the program in Go under src/, with what makes it correct.
--
-- The program keeps two directories equal, or mirrors one into the other, or archives one into numbered
-- backups. A cycle builds the inventories of the two roots, compares them, makes a plan of actions, runs
-- it, reads the roots again, and saves the confirmed state if they are equal. A configuration says which
-- kind of cycle runs and how often, and a log tells of it on the console and in a file.
--
-- Parts:
--   Base       shared names, Boolean tests, lists, texts, errors and results.
--   Os         the calls of Go's os, io and path/filepath as a record over an unknown world; Os/Monad chains
--              them; Os/Candidate is the replacement of a document by a candidate, which
--              src/config_store.go and src/backup_set_state.go write twice.
--   Logging    src/log_domain.go, src/log_entry.go, the names of src/log_formatter.go (Domain),
--              src/logging_coordinator.go (Coordinator) and src/rotating_file_destination.go (Rotation).
--   Config     src/config_domain.go (Domain), src/config_codec.go (Codec), src/config_interactive.go (Answers,
--              Interactive), src/config_store.go (Store), src/config_ownership.go and
--              src/config_inspector.go (Ownership), src/config_service.go (Service).
--   Sync       src/sync_domain.go (Domain), src/directory_inventory.go (Inventory), src/file_content_conflict.go
--              and src/file_directory_conflict.go (Conflicts), src/change_classification.go,
--              src/synchronization_plan.go, the planners of src/unidirectional_sync.go and
--              src/watch_command.go (Plan), src/synchronization_executor.go and src/synchronization_logging.go
--              (Executor for the file system, Execution for retries and plans), src/confirmed_state_store.go,
--              src/synchronization_verification.go, src/missing_state_recovery.go and the run of
--              src/unidirectional_sync.go (Commit), src/watch_loop.go (Watch), and the synchronization of
--              src/watch_command.go with src/root_creation.go (Run). Effect is a specification: what actions
--              mean on the contents of two roots.
--   Backup     the state and its check (SetState) and the store (Store) of src/backup_set_state.go, and the
--              retention of src/backup_recovery_retention.go (Retention) with its confirmation (Confirm), its
--              inspection and recovery of a destination (Destination), and its candidates (Candidate);
--              src/backup_policy.go (Policy), src/backup_inventory.go (Inventory),
--              src/backup_archive_identity.go (Identity), the digests of src/backup_archive.go (Archives)
--              with its comments and its verification (Archives/Comment, Archives/Verify), and
--              src/backup_cycle.go (Cycle), which takes the operations of the other parts as a record.
--   Remote     the paths of src/watch_endpoint.go and src/remote_contract.go (Paths), and of the latter the
--              inspections, capabilities and errors (Contract) and the scoped destination (Scoped); the endpoint of a
--              URL, with src/remote_watch_policy.go (Endpoint).
--   Command    the arguments of src/command_parser.go, with src/root_paths.go, the tests for a URL of
--              src/watch_endpoint.go, and src/config_root_guard.go.
--   Tests      the theorems at concrete data.
--
-- A Go function is a function of the same name in antt's spelling; its branches that are loops or take
-- several results are helpers beside it. Code that changes the world is a function on worlds, and an error
-- is a value that names its format text without the numbers of the format. A struct is a record, a nil
-- pointer `none`, a map an association list, an enumeration over uint8 has a constructor `unknown`.
--
-- Fuel and bounds: the retry loop of src/synchronization_executor.go waits as long as a file is locked, so it
-- takes fuel, and its theorem asks for more fuel than there are locked attempts. The fuel of a copy is the
-- depth of the tree that is copied, and the fuel of the climb to a parent that exists is the depth of the path.
-- The watch loop has fuel for the rounds that are left until the stop, and the unescaping of a remote path is
-- bounded by its length. The dialogue is structural recursion on the input. Orders and times are
-- numbers; an interval or a count may be negative and is an integer. `strconv.Atoi` refuses
-- what does not fit 64 bits. An interval is between 1 and 86400 and a retention count between 1 and 100.
--
-- Parameters: the JSON library, SHA-256, the clock, quoting, and the operating system. What a theorem asks
-- of one is a record of hypotheses, with an instance in Tests.
--
-- Not modelled: the walk over a directory, which is a library, and the scan for unsupported entries, the
-- dispatch of src/watch_command.go on its arguments, the sanitizer and the console of the log, the command and
-- the location of the configuration, the JSON documents of a backup set state and of an archive's identity,
-- the contents of an archive, which are the library archive/zip's, the locks of a backup's ownership, which are
-- system calls, and the credentials and the sessions of a remote watch, whose transport is a library.
pub mod Base
pub mod Os
pub mod Logging
pub mod Config
pub mod Sync
pub mod Backup
pub mod Remote
pub mod Command
pub mod Tests
