-- ===== src/Tests/Services.antt =====
-- The theorems on the replacement of documents, on the commit of a state and on the log at small worlds.
use gosync.Base.{
  ℕ, String, Bool, true, false, Option, none, some, List, [], ◌∷◌, ◌++◌, ◌≡◌, refl, ◌==◌, string_Eq,
  if◌then◌else◌, Error, text, Result, ok, err, inl, inr, beq_self,
}
use gosync.Os.{Os, FileInfo, regular_type}
use gosync.Os.Monad.{
  Io, return, after, within_result, attempt_result, ignored_result, caught_result,
}
use gosync.Os.Candidate.{replace_document}
use gosync.Os.Candidate.Outcome.{Documents, Outcome, replace_document-Outcome}
use gosync.Config.Store.{messages}
use gosync.Sync.Domain.{EntryKind, SynchronizationResult}
use gosync.Sync.Executor.{RootPaths}
use gosync.Sync.Inventory.{DirectoryInventory, inventories_have_equivalent_contents}
use gosync.Sync.Commit.{
  ConfirmedSynchronizationState, ConfirmedStateStore, verify_and_commit_synchronization, save,
}
use gosync.Sync.Commit.Verified.{IsVerified, verify_and_commit_synchronization-IsVerified}
use gosync.Logging.Domain.{LogEntry}
use gosync.Logging.Coordinator.{LoggingCoordinator, write_record}
use gosync.Logging.Coordinator.Availability.{
  IsWorn, write_record-IsWorn, IsTold, write_record-IsTold,
}

-- The content of each path. No document can be renamed.
abbrev Files : Type 0
Files = String → Option String

abbrev no_error : Error → Bool
no_error e = false

abbrev information : FileInfo
information = record { type_of = regular_type; permissions = 420; size = 1; modification_time = 7 }

abbrev stuck_os : Os
stuck_os = record {
  World = Files;
  Handle = ℕ;
  is_not_exist = no_error;
  is_exist = no_error;
  base = λ a. a;
  extension = λ a. a;
  open_exclusive = λ p m w. (w, err (text "file exists"));
  open_append = λ p m w. (w, err (text "access is denied"));
  write_bytes = λ h s w. (w, (0, none));
  join_path = λ a b. a;
  dir = λ a. "conf";
  clean = λ a. a;
  lstat = λ p. return information;
  stat = λ p. return information;
  mkdir_all = λ p m. return tt;
  remove_all = λ p. return tt;
  remove = λ p w. ((λ q. if q == p then none else w q), ok tt);
  rename = λ p q w. (w, err (text "access is denied"));
  read_dir = λ p. return [];
  read_file = λ p. return "";
  open_read = λ p. return 5;
  open_write = λ p m. return 5;
  copy = λ d s. return tt;
  create_temp = λ d p. return (5, "t");
  chmod = λ h m. return tt;
  write = λ h s. return tt;
  close = λ h. return tt;
}

removed_here : (p : String) (w : Files) → (if p == p then none else w p) ≡ none
removed_here p w = rw (beq_self p) refl

removed_elsewhere :
    (p : String) (w : Files) (q : String) → (q == p) ≡ false → (if q == p then none else w q) ≡ w q
removed_elsewhere p w q h = rw h refl

stuck_documents : Documents stuck_os
stuck_documents = record {
  content = λ w. w;
  stat_keeps = λ p w. refl;
  rename_effect = λ p q w. inr (text "access is denied", (refl, refl));
  remove_effect = λ p w. inl (refl, (removed_here p w, removed_elsewhere p w));
}

abbrev two_documents : Files
two_documents p = if p == "config.json" then some "old" else if p == "t" then some "new" else none

replace_document-Outcome_example :
    Outcome stuck_os messages stuck_documents "config.json" "t" two_documents
      (replace_document stuck_os messages "config.json" "t" two_documents)
replace_document-Outcome_example =
    replace_document-Outcome stuck_os messages stuck_documents "config.json" "t" two_documents refl

-- Both roots hold one file.
abbrev inventory : DirectoryInventory
inventory =
    (
      "a",
      record {
        relative_path = "a";
        kind = EntryKind.file;
        content_digest = "1";
        modification_time = 7;
      },
    )
    ∷ []

abbrev encode_state : ConfirmedSynchronizationState → Result String
encode_state s = ok "{}"

abbrev decode_state : String → Result ConfirmedSynchronizationState
decode_state s = err (text "unexpected end of JSON input")

abbrev both : RootPaths
both = record { first = "/a"; second = "/b" }

abbrev state_store : ConfirmedStateStore
state_store = record { directory = "/state" }

abbrev complete : SynchronizationResult
complete = record { completed = true; failure = none }

-- A world in which every rename succeeds.
abbrev working_os : Os
working_os = record stuck_os { rename = λ p q w. (w, ok tt) }

committed :
    (verify_and_commit_synchronization working_os encode_state decode_state
      (λ r. "0")
      (λ w. 9)
      (λ p. return inventory)
      both
      state_store
      complete
      two_documents).1
    ≡ ok tt
unfolding verify_and_commit_synchronization after within_result attempt_result ignored_result
    caught_result inventories_have_equivalent_contents save
committed = refl

verify_and_commit_synchronization-IsVerified_example :
    IsVerified working_os encode_state decode_state
      (λ r. "0")
      (λ w. 9)
      (λ p. return inventory)
      both
      state_store
      complete
      two_documents
verify_and_commit_synchronization-IsVerified_example =
    verify_and_commit_synchronization-IsVerified working_os encode_state decode_state (λ r. "0")
      (λ w. 9) (λ p. return inventory) both state_store complete two_documents committed

-- A console that fails, and a log file that keeps the records.
abbrev broken_console : String → Io (List String) (Unit {0})
broken_console s w = (w, err (text "broken pipe"))

abbrev log_file : String → Io (List String) (Unit {0})
log_file s w = (w ++ s ∷ [], ok tt)

abbrev message_of : LogEntry → String
message_of e = e.message

abbrev error_text : Error → String
error_text e = "error"

abbrev fresh : LoggingCoordinator (List String)
fresh = record { console_available = true; persistent_available = true; world = [] }

abbrev written_once : LoggingCoordinator (List String) × Option Error
written_once =
    write_record (List String) broken_console log_file (λ w. 0) message_of error_text "hello" fresh

write_record-IsWorn_example : IsWorn fresh written_once.0
write_record-IsWorn_example =
    write_record-IsWorn (List String) broken_console log_file (λ w. 0) message_of error_text "hello"
      fresh

write_record-IsTold_example :
    IsTold
      (List String)
      broken_console
      log_file
      (λ w. 0)
      message_of
      error_text
      "hello"
      fresh
      written_once
write_record-IsTold_example =
    write_record-IsTold (List String) broken_console log_file (λ w. 0) message_of error_text "hello"
      fresh
