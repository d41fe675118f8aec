-- ===== src/Tests/Runs.antt =====
-- The theorems on the watch loop, the log file and a whole synchronization at small worlds.
use gosync.Base.{
  List, ◌∷◌, ℕ, suc, ◌+◌, ◌-◌, ◌≤◌, ◌<◌, String, Bool, true, false, none, some, [], ◌==◌, nat_Eq,
  Error, text, Result, ok, err, pos, ◌≡◌, refl, ◌⊎◌, arith, ap,
}
use gosync.Os.{Os, regular_type, FileInfo}
use gosync.Os.Monad.{
  Io, return, after, within_result, caught_result, attempt_result, ignored_result,
}
use gosync.Sync.Watch.{run_watch_loop}
use gosync.Sync.Watch.Stops.{Coming, Ends, run_watch_loop_ends}
use gosync.Logging.Rotation.{
  write_log_file, log_maximum_active_file_size, size_of_entry, write_sized,
  get_active_log_file_size, append_to_active_log_file, append_fault, exceeds,
  rotate_active_log_file, shift_archives,
}
use gosync.Logging.Rotation.Bounds.{Sizes, write_log_file_bound}
use gosync.Sync.Domain.{
  SynchronizationAction, SynchronizationPlan, SynchronizationResult, first_side,
}
use gosync.Sync.Execution.{
  SynchronizationExecutionOptions, execute_actions, execute_synchronization_plan, retry_locked_file,
}
use gosync.Sync.Inventory.{
  DirectoryInventory, compare_directory_inventories, inventories_have_equivalent_contents,
}
use gosync.Sync.Plan.{generate_synchronization_plan}
use gosync.Sync.Executor.{RootPaths}
use gosync.Sync.Commit.{
  ConfirmedSynchronizationState, ConfirmedStateStore, load, recover_from_missing_confirmed_state,
  verify_and_commit_synchronization, save,
}
use gosync.Sync.Run.{Answers, synchronize_directories}
use gosync.Sync.Run.Synchronized.{IsSynchronized, synchronize_directories-IsSynchronized}
use gosync.Tests.Quiet.{quiet_os}

-- A world of rounds that are left.
abbrev at_zero : ℕ → ℕ × Bool
at_zero w = (w, w == 0)

abbrev never : ℕ → ℕ → ℕ × Bool
never n w = (w, false)

abbrev count_down : Io ℕ (Unit {0})
count_down w = (w - 1, ok tt)

fewer : (w v : ℕ) → count_down w ≡ (v, ok tt) → v ≤ w - 1
fewer w v h = omega (arith, ap (λ p. p.0) h)

not_zero : (w : ℕ) → (w == 0) ≡ false → 0 < w
not_zero w h = ground arith

no_more : (w : ℕ) → w ≤ w
no_more w = omega arith

abbrev countdown : Coming ℕ at_zero never count_down
countdown = record {
  left = λ w. w;
  polled = not_zero;
  poll_keeps = no_more;
  wait_keeps = λ n w. no_more w;
  synchronized = fewer;
}

run_watch_loop_ends_example :
    Ends ℕ at_zero never count_down (run_watch_loop ℕ at_zero never (some count_down) (pos 7) 4 3)
run_watch_loop_ends_example =
    run_watch_loop_ends ℕ at_zero never count_down countdown (pos 7) 4 3 (omega arith)

-- A world is the size of the log file.
abbrev sized_information : ℕ → FileInfo
sized_information n = record {
  type_of = regular_type;
  permissions = 384;
  size = n;
  modification_time = 7;
}

abbrev log_os : Os
log_os = record (quiet_os ℕ) {
  stat = λ p w. (w, ok (sized_information w));
  rename = λ p q w. (0, ok tt);
  write_bytes = λ h s w. (w + 3, (3, none));
}

abbrev three : String → ℕ
three s = 3

abbrev digits : ℕ → String
digits n = "n"

told_size : (w n : ℕ) → size_of_entry (λ e. false) (ok (sized_information w)) ≡ ok n → w ≡ n
unfolding size_of_entry
told_size w n h = cc

renamed_size : (w v : ℕ) → ◌≡◌ {A = ℕ × Result (Unit {0})} (0, ok tt) (v, ok tt) → v ≡ 0
renamed_size w v h = omega (arith, ap (λ p. p.0) h)

appended_size : (w v h : ℕ) → ◌≡◌ {A = ℕ × Result ℕ} (w, ok 5) (v, ok h) → v + 3 ≤ w + 3
appended_size w v h e = omega (arith, ap (λ p. p.0) e)

abbrev log_sizes : Sizes log_os three digits "gosync.log"
log_sizes = record {
  size = λ w. w;
  told = told_size;
  renamed = λ t w v h. renamed_size w v h;
  appended = λ s w v h e. appended_size w v h e;
}

write_log_file_bound_example :
    (log_sizes.size 3 ≤ log_maximum_active_file_size) ⊎ (log_sizes.size 3 ≤ 3)
unfolding write_log_file get_active_log_file_size size_of_entry write_sized exceeds
    rotate_active_log_file shift_archives append_to_active_log_file append_fault after within_result
    caught_result attempt_result
write_log_file_bound_example =
    write_log_file_bound log_os three digits "d" "abc" log_sizes 10000000 3 refl

-- Roots that are empty, and no confirmed state.
abbrev empty_os : Os
empty_os = record (quiet_os ℕ) {
  is_not_exist = λ e. true;
  read_file = λ p w. (w, err (text "no such file"));
}

abbrev encoded : ConfirmedSynchronizationState → Result String
encoded s = ok "state"

abbrev undecoded : String → Result ConfirmedSynchronizationState
undecoded s = err (text "no state")

abbrev hashed : RootPaths → String
hashed r = "digest"

abbrev no_entries : String → Io ℕ DirectoryInventory
no_entries root w = (suc w, ok [])

abbrev scanned : RootPaths → Io ℕ (Unit {0})
scanned roots w = (suc w, ok tt)

abbrev executed : SynchronizationPlan → ℕ → ℕ × SynchronizationResult
executed plan w = (w, record { completed = true; failure = none })

abbrev message_of : Error → String
message_of e = "error"

abbrev first_prevails : Answers
first_prevails = record {
  prevailing = ok first_side;
  prompts = record { file_side = none; item_side = none };
}

abbrev two_roots : RootPaths
two_roots = record { first = "a"; second = "b" }

abbrev state_store : ConfirmedStateStore
state_store = record { directory = "s" }

-- Each action succeeds at once.
abbrev at_once : SynchronizationAction → Io ℕ (Unit {0})
at_once action = return tt

abbrev unlocked : Error → Bool
unlocked e = false

abbrev no_options : SynchronizationExecutionOptions ℕ
no_options = record { notify = none; is_locked_error = none; sleep = none; logger = none }

all_executed :
    (actions : List SynchronizationAction) (w : ℕ)
    → execute_actions ℕ unlocked (λ v. v) (λ s. s) (λ n. "0") no_options 1 at_once actions w
      ≡ some (w, record { completed = true; failure = none })
unfolding execute_actions retry_locked_file
all_executed [] w = refl
all_executed (a ∷ rest) w = all_executed rest w

plans_executed :
    (plan : SynchronizationPlan) (w : ℕ)
    → execute_synchronization_plan ℕ unlocked
        (λ v. v)
        (λ s. s)
        (λ n. "0")
        no_options
        1
        at_once
        plan
        w
      ≡ some (executed plan w)
unfolding execute_synchronization_plan
plans_executed plan w = all_executed plan.actions w

synchronized_here :
    (synchronize_directories empty_os encoded undecoded hashed
      (λ w. w)
      no_entries
      scanned
      executed
      message_of
      none
      first_prevails
      two_roots
      state_store
      0).1
    ≡ ok tt
unfolding synchronize_directories after caught_result within_result load
    compare_directory_inventories recover_from_missing_confirmed_state
    inventories_have_equivalent_contents generate_synchronization_plan
    verify_and_commit_synchronization save ignored_result attempt_result
synchronized_here = refl

synchronize_directories-IsSynchronized_example :
    IsSynchronized empty_os encoded undecoded hashed
      (λ w. w)
      no_entries
      scanned
      executed
      message_of
      none
      first_prevails
      unlocked
      (λ v. v)
      (λ s. s)
      (λ n. "0")
      no_options
      1
      at_once
      two_roots
      state_store
      0
synchronize_directories-IsSynchronized_example =
    synchronize_directories-IsSynchronized empty_os encoded undecoded hashed (λ w. w) no_entries
      scanned executed message_of none first_prevails unlocked (λ v. v) (λ s. s) (λ n. "0")
      no_options 1 at_once two_roots state_store 0 plans_executed synchronized_here
