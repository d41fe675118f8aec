-- ===== src/Sync/Run/Synchronized.antt =====
-- What a synchronization of src/watch_command.go has done when it returns no error.
use gosync.Base.{
  ℕ, String, Bool, true, false, not, Option, none, some, if◌then◌else◌, Error, Result, ok, err, [],
  ◌∷◌, ◌≡◌, refl, ap, ◌∙◌,
}
use gosync.Os.{Os}
use gosync.Os.Monad.{Io, after_ok, after_pair, raise, caught_result}
use gosync.Os.Monad.Holds.{after_holds, caught_world}
use gosync.Logging.Domain.{LogEntry, info, synchronization_started}
use gosync.Sync.Execution.{SynchronizationExecutionOptions, execute_synchronization_plan}
use gosync.Sync.Execution.Order.{
  Done, Outcome, execute_actions-Outcome, Outcome-fails, Outcome-Done,
}
use gosync.Sync.Domain.{SynchronizationAction, SynchronizationPlan, SynchronizationResult}
use gosync.Sync.Inventory.{DirectoryInventory, compare_directory_inventories}
use gosync.Sync.Executor.{RootPaths}
use gosync.Sync.Commit.{
  ConfirmedSynchronizationState, ConfirmedStateStore, load, verify_and_commit_synchronization,
}
use gosync.Sync.Commit.Verified.{IsVerified, verify_and_commit_synchronization-IsVerified}
use gosync.Sync.Run.{
  Answers, attach_confirmed_entries, choose_plan, conclude, carry_out, ensure_root_directories,
  log_synchronization_conflicts, perform_synchronization, reported, synchronize_directories, log_to,
  entry_of,
}

module _ (os : Os) (encode : ConfirmedSynchronizationState → Result String)
    (decode : String → Result ConfirmedSynchronizationState) (digest : RootPaths → String)
    (now : os.World → ℕ) (build_inventory : String → Io os.World DirectoryInventory)
    (scan_roots : RootPaths → Io os.World (Unit {0}))
    (execute : SynchronizationPlan → os.World → os.World × SynchronizationResult)
    (error_message : Error → String) (logger : Option (LogEntry → Io os.World (Unit {0})))
    (answers : Answers) (default_is_locked : Error → Bool) (default_sleep : os.World → os.World)
    (quote : String → String) (decimal : ℕ → String)
    (options : SynchronizationExecutionOptions os.World) (fuel : ℕ)
    (execute_action : SynchronizationAction → Io os.World (Unit {0})) where
  -- The executor of the run is that of src/synchronization_executor.go, which ends within the fuel.
  abbrev pub Executes : Type 0
  Executes =
      (plan : SynchronizationPlan) (w : os.World)
      → execute_synchronization_plan os.World default_is_locked default_sleep quote decimal options
          fuel execute_action plan w
        ≡ some (execute plan w)

  -- From `start` on, each where the one before has ended: the log entry of the start, the scan of the roots,
  -- their creation, both inventories, the confirmed state, the log of conflicts, the choice of the plan
  -- for these, and its actions, which are all done, with the result verified and committed behind them.
  pub record IsSynchronized (roots : RootPaths) (store : ConfirmedStateStore) (start : os.World)
      : Type 0 where
    pub begun : os.World
    pub scanned : os.World
    pub made : os.World
    pub read_first : os.World
    pub read_second : os.World
    pub read_state : os.World
    pub told : os.World
    pub ready : os.World
    pub first : DirectoryInventory
    pub second : DirectoryInventory
    pub state : Option ConfirmedSynchronizationState
    pub plan : SynchronizationPlan
    pub beginning :
        log_to os.World logger
          (entry_of os.World info synchronization_started "synchronization started"
            (some (("first_root", roots.first) ∷ ("second_root", roots.second) ∷ [])))
          start
        ≡ (begun, ok tt)
    pub scan : scan_roots roots begun ≡ (scanned, ok tt)
    pub making :
        ensure_root_directories os encode decode digest now build_inventory scan_roots execute
          error_message logger answers roots scanned
        ≡ (made, ok tt)
    pub reading_first : build_inventory roots.first made ≡ (read_first, ok first)
    pub reading_second : build_inventory roots.second read_first ≡ (read_second, ok second)
    pub reading_state :
        load os encode decode digest now store roots read_second ≡ (read_state, ok state)
    pub telling :
        log_synchronization_conflicts os.World logger
          (attach_confirmed_entries (compare_directory_inventories first second) state)
          read_state
        ≡ (told, ok tt)
    pub chosen :
        choose_plan os encode decode digest now build_inventory scan_roots execute error_message
          logger answers first second state
          (attach_confirmed_entries (compare_directory_inventories first second) state)
          told
        ≡ (ready, ok plan)
    pub performed :
        Done os.World default_is_locked default_sleep quote decimal options fuel execute_action
          plan.actions ready
          (execute plan ready).0
    pub verified :
        IsVerified os encode decode digest now build_inventory roots store
          (execute plan ready).1
          (execute plan ready).0

  abbrev Concluded : RootPaths → ConfirmedStateStore → SynchronizationResult → os.World → Type 0
  Concluded roots store result w =
      (result.completed ≡ true)
      × IsVerified os encode decode digest now build_inventory roots store result w

  executed :
      (plan : SynchronizationPlan) (w : os.World)
      → Executes
      → Outcome os.World default_is_locked default_sleep quote decimal options fuel execute_action
          plan.actions w
          (execute plan w)
  unfolding execute_synchronization_plan
  executed plan w runs =
      execute_actions-Outcome os.World default_is_locked default_sleep quote decimal options fuel
        execute_action plan.actions w (execute plan w) (runs plan w)

  concluded :
      (roots : RootPaths) (store : ConfirmedStateStore) (plan : SynchronizationPlan) (w : os.World)
      → Executes
      → (carry_out os encode decode digest now build_inventory scan_roots execute error_message
          logger answers roots store plan w).1
        ≡ ok tt
      → Concluded roots store (execute plan w).1 (execute plan w).0
  unfolding carry_out conclude
  concluded roots store plan w runs = split (execute plan w).1.completed refl
    where
      raised_none : (o : Option Error) (v : os.World) → (raise o v).1 ≡ ok tt → o ≡ none
      raised_none none v h = refl
      raised_none (some e) v h = cc

      split :
          (b : Bool)
          → (execute plan w).1.completed ≡ b
          → ((if not b
                then raise (execute plan w).1.failure
                else verify_and_commit_synchronization os encode decode digest now build_inventory
                    roots store
                    (execute plan w).1)
              (execute plan w).0).1
            ≡ ok tt
          → Concluded roots store (execute plan w).1 (execute plan w).0
      split true c h = (
        c,
        verify_and_commit_synchronization-IsVerified os encode decode digest now build_inventory
            roots store (execute plan w).1 (execute plan w).0 h,
      )
      split false c h = absurd (
          Outcome-fails os.World default_is_locked default_sleep quote decimal options fuel
            execute_action plan.actions w (execute plan w) (executed plan w runs) c
            (raised_none (execute plan w).1.failure (execute plan w).0 h))

  performed :
      (roots : RootPaths) (store : ConfirmedStateStore) (start w v : os.World)
      → Executes
      → log_to os.World logger
          (entry_of os.World info synchronization_started "synchronization started"
            (some (("first_root", roots.first) ∷ ("second_root", roots.second) ∷ [])))
          start
        ≡ (w, ok tt)
      → perform_synchronization os encode decode digest now build_inventory scan_roots execute
          error_message logger answers roots store w
        ≡ (v, ok tt)
      → IsSynchronized roots store start
  unfolding perform_synchronization
  performed roots store start w v runs beginning h =
      let (_, (w1, (e1, h))) = after_pair (scan_roots roots w) _ v tt h in
      let (_, (w2, (e2, h))) =
        after_pair
          (ensure_root_directories os encode decode digest now build_inventory scan_roots execute
            error_message logger answers roots w1)
          _ v tt h in
      let (first, (w3, (e3, h))) = after_pair (build_inventory roots.first w2) _ v tt h in
      let (second, (w4, (e4, h))) = after_pair (build_inventory roots.second w3) _ v tt h in
      let (state, (w5, (e5, h))) =
        after_pair (load os encode decode digest now store roots w4) _ v tt h in
      let cs = attach_confirmed_entries (compare_directory_inventories first second) state in
      let (_, (w6, (e6, h))) =
        after_pair (log_synchronization_conflicts os.World logger cs w5) _ v tt h in
      let (plan, (w7, (e7, h))) =
        after_pair
          (choose_plan os encode decode digest now build_inventory scan_roots execute error_message
            logger answers first second state cs w6)
          _ v tt h in
      let (done, commit) = concluded roots store plan w7 runs (ap (λ p. p.1) h) in
      record {
        begun = w;
        scanned = w1;
        made = w2;
        read_first = w3;
        read_second = w4;
        read_state = w5;
        told = w6;
        ready = w7;
        first = first;
        second = second;
        state = state;
        plan = plan;
        beginning = beginning;
        scan = e1;
        making = e2;
        reading_first = e3;
        reading_second = e4;
        reading_state = e5;
        telling = e6;
        chosen = e7;
        performed =
            Outcome-Done os.World default_is_locked default_sleep quote decimal options fuel
              execute_action plan.actions w7 (execute plan w7) (executed plan w7 runs) done;
        verified = commit;
      }

  reported_ok :
      (r : Result (Unit {0})) (w : os.World)
      → (reported os encode decode digest now build_inventory scan_roots execute error_message
          logger answers r w).1
        ≡ ok tt
      → r ≡ ok tt
  unfolding reported
  reported_ok (ok u) w h = refl
  reported_ok (err e) w h =
      absurd (after_holds (λ _. ⊥) _ _ (λ _ v. after_holds (λ _. ⊥) _ _ (λ _ u b k. cc)) tt h)

  -- If a synchronization returns no error, with a logger or without, and its executor is the one for plans,
  -- with enough fuel, then it has, each where the one before has ended, scanned and made the roots, read both
  -- inventories and the confirmed state, chosen the plan for them, done and logged each of its actions,
  -- and committed a state that it had verified against both roots behind the actions.
  pub synchronize_directories-IsSynchronized :
      (roots : RootPaths) (store : ConfirmedStateStore) (w : os.World)
      → Executes
      → (synchronize_directories os encode decode digest now build_inventory scan_roots execute
          error_message logger answers roots store w).1
        ≡ ok tt
      → IsSynchronized roots store w
  unfolding synchronize_directories
  synchronize_directories-IsSynchronized roots store w runs h =
      let (_, (w1, (beginning, h))) = after_ok (log_to os.World logger _ w) _ tt h in
      let (outcome, (w2, (ran, h))) =
        after_ok
          (caught_result (
            perform_synchronization os encode decode digest now build_inventory scan_roots execute
              error_message logger answers roots store w1))
          _ tt h in
      let (same_world, same) =
        caught_world
          (perform_synchronization os encode decode digest now build_inventory scan_roots execute
            error_message logger answers roots store w1)
          w2 outcome ran in
      performed roots store w w1 w2 runs beginning (
        pair
          (perform_synchronization os encode decode digest now build_inventory scan_roots execute
            error_message logger answers roots store w1)
          same_world (same ∙ reported_ok outcome w2 h))
    where
      pair :
          (x : os.World × Result (Unit {0})) {v : os.World} {r : Result (Unit {0})}
          → x.0 ≡ v
          → x.1 ≡ r
          → x ≡ (v, r)
      pair (v, r) e k = cc
