-- ===== src/Sync/Execution/Order.antt =====
-- How the execution of a plan in src/synchronization_executor.go ends.
use gosync.Base.{
  ℕ, String, Bool, true, false, Option, none, some, List, [], ◌∷◌, ◌++◌, Error, wrap_of, Result, ok,
  err, ◌≡◌, refl, ap,
}
use mathlib.Core.Path.{subst}
use gosync.Os.Monad.{Io}
use gosync.Sync.Domain.{SynchronizationAction, SynchronizationResult}
use gosync.Sync.Execution.{
  SynchronizationExecutionOptions, execute_actions, after_action, log_action, retry_locked_file,
  with_logger, log_synchronized_action, failed,
}

module _ (World : Type 0) (default_is_locked : Error → Bool) (default_sleep : World → World)
    (quote : String → String) (decimal : ℕ → String)
    (options : SynchronizationExecutionOptions World) (fuel : ℕ)
    (execute_action : SynchronizationAction → Io World (Unit {0})) where
  abbrev execute : List SynchronizationAction → World → Option (World × SynchronizationResult)
  execute =
      execute_actions World default_is_locked default_sleep quote decimal options fuel
        execute_action

  -- An action with its retries, and the log entry behind it.
  abbrev pub try_action : SynchronizationAction → World → Option (World × Result (Unit {0}))
  try_action action =
      retry_locked_file World default_is_locked default_sleep quote options action.relative_path
        fuel (execute_action action)

  abbrev pub tell_action : SynchronizationAction → Io World (Unit {0})
  tell_action action =
      with_logger World options.logger
        (λ logger. log_synchronized_action World decimal logger action)

  abbrev failure : Error → SynchronizationResult
  failure = failed World default_is_locked default_sleep quote decimal options fuel execute_action

  -- Actions that have succeeded and are logged, each where the one before has ended.
  pub data Done : List SynchronizationAction → World → World → Type 0 where
    nothing : (w : World) → Done [] w w
    done :
        (action : SynchronizationAction) (actions : List SynchronizationAction) (u v x w : World)
        → try_action action u ≡ some (v, ok tt)
        → tell_action action v ≡ (x, ok tt)
        → Done actions x w
        → Done (action ∷ actions) u w

  -- All actions are done, or those before one that has failed or that could not be logged, whose world is the last.
  pub data Outcome (actions : List SynchronizationAction) (u : World)
      : World × SynchronizationResult → Type 0 where
    complete :
        (w : World)
        → Done actions u w
        → Outcome actions u (w, record { completed = true; failure = none })
    refused :
        (before : List SynchronizationAction) (action : SynchronizationAction)
        (behind : List SynchronizationAction) (v w : World) (e : Error)
        → actions ≡ before ++ (action ∷ behind)
        → Done before u v
        → try_action action v ≡ some (w, err e)
        → Outcome actions u (w, failure (wrap_of "execute action for %q" action.relative_path e))
    unlogged :
        (before : List SynchronizationAction) (action : SynchronizationAction)
        (behind : List SynchronizationAction) (v x w : World) (e : Error)
        → actions ≡ before ++ (action ∷ behind)
        → Done before u v
        → try_action action v ≡ some (x, ok tt)
        → tell_action action x ≡ (w, err e)
        → Outcome actions u
            (w, failure (wrap_of "log synchronized action for %q" action.relative_path e))

  behind_done :
      (action : SynchronizationAction) (actions : List SynchronizationAction) (u v x : World)
      (r : World × SynchronizationResult)
      → try_action action u ≡ some (v, ok tt)
      → tell_action action v ≡ (x, ok tt)
      → Outcome actions x r
      → Outcome (action ∷ actions) u r
  behind_done action actions u v x r e k (complete w d) =
      complete w (done action actions u v x w e k d)
  behind_done action actions u v x r e k (refused before a behind v' w f same d t) =
      refused (action ∷ before) a behind v' w f (ap (◌∷◌ action) same)
        (done action before u v x v' e k d) t
  behind_done action actions u v x r e k (unlogged before a behind v' x' w f same d t l) =
      unlogged (action ∷ before) a behind v' x' w f (ap (◌∷◌ action) same)
        (done action before u v x v' e k d) t l

  returned :
      {a b : World × SynchronizationResult}
      → ◌≡◌ {A = Option (World × SynchronizationResult)} (some a) (some b)
      → a ≡ b
  returned h = cc

  -- An execution that ends has either done and logged all actions in their order, and is complete, or has
  -- failed at one of them, in its execution or in its log entry: then it has done those before it in their
  -- order, ends where that one has ended, so that none behind it was tried, and has the failure that names it.
  pub execute_actions-Outcome :
      (actions : List SynchronizationAction) (u : World) (r : World × SynchronizationResult)
      → execute actions u ≡ some r
      → Outcome actions u r
  unfolding execute_actions after_action log_action
  execute_actions-Outcome [] u r h = subst (Outcome [] u) (returned h) (complete u (nothing u))
  execute_actions-Outcome (action ∷ actions) u r h =
      tried (execute_actions-Outcome actions) (try_action action u) refl h
    where
      told :
          (v : World)
          → try_action action u ≡ some (v, ok tt)
          → ((x : World) (r : World × SynchronizationResult)
              → execute actions x ≡ some r
              → Outcome actions x r)
          → (y : World × Result (Unit {0})) → tell_action action v ≡ y
          → log_action World default_is_locked default_sleep quote decimal options fuel
              execute_action action
              (execute actions)
              y
            ≡ some r
          → Outcome (action ∷ actions) u r
      told v e ih (x, ok t) k h = behind_done action actions u v x r e k (ih x r h)
      told v e ih (x, err f) k h =
          subst (Outcome (action ∷ actions) u) (returned h)
            (unlogged [] action actions u v x f refl (nothing u) e k)

      tried :
          ((x : World) (r : World × SynchronizationResult)
            → execute actions x ≡ some r
            → Outcome actions x r)
          → (y : Option (World × Result (Unit {0}))) → try_action action u ≡ y
          → after_action World default_is_locked default_sleep quote decimal options fuel
              execute_action action
              (execute actions)
              y
            ≡ some r
          → Outcome (action ∷ actions) u r
      tried ih none e h = cc
      tried ih (some (v, ok t)) e h = told v e ih (tell_action action v) refl h
      tried ih (some (w, err f)) e h =
          subst (Outcome (action ∷ actions) u) (returned h)
            (refused [] action actions u w f refl (nothing u) e)

  -- An outcome that is not complete has a failure.
  pub Outcome-fails :
      (actions : List SynchronizationAction) (u : World) (r : World × SynchronizationResult)
      → Outcome actions u r
      → r.1.completed ≡ false
      → ¬ (r.1.failure ≡ none)
  Outcome-fails actions u r (complete w d) h = λ k. cc
  Outcome-fails actions u r (refused before a behind v w f same d t) h = λ k. cc
  Outcome-fails actions u r (unlogged before a behind v x w f same d t l) h = λ k. cc

  -- An outcome that is complete has done all actions.
  pub Outcome-Done :
      (actions : List SynchronizationAction) (u : World) (r : World × SynchronizationResult)
      → Outcome actions u r
      → r.1.completed ≡ true
      → Done actions u r.0
  Outcome-Done actions u r (complete w d) h = d
  Outcome-Done actions u r (refused before a behind v w f same d t) h = absurd cc
  Outcome-Done actions u r (unlogged before a behind v x w f same d t l) h = absurd cc
