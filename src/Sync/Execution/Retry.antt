-- ===== src/Sync/Execution/Retry.antt =====
-- The retry loop of src/synchronization_executor.go in a world that scripts the operation.
use native.Mathlib.Nat.{add-zero}
use gosync.Base.{
  ℕ, zero, suc, ◌+◌, ◌<◌, String, ◌<>◌, Bool, true, false, Option, none, some, List, [], ◌∷◌, ◌++◌,
  Error, Result, ok, err, ◌≡◌, refl, arith, ◌∙◌, ap, append-nil,
}
use gosync.Os.Monad.{Io, after}
use gosync.Logging.Domain.{LogEvent, retry_started, retry_completed, warning_raised}
use gosync.Sync.Execution.{SynchronizationExecutionOptions, retry_locked_file, retry_loop}

-- A world that scripts the operation and records what the loop does. An operation past the script
-- succeeds.
pub record Trial : Type 0 where
  pub outcomes : List (Option Error)
  pub notices : List String
  pub events : List LogEvent
  pub pauses : ℕ

abbrev pub result_of : Option Error → Result (Unit {0})
result_of none = ok tt
result_of (some e) = err e

abbrev pub outcome_of : List (Option Error) → Option Error
outcome_of [] = none
outcome_of (o ∷ os) = o

abbrev pub outcomes_left : List (Option Error) → List (Option Error)
outcomes_left [] = []
outcomes_left (o ∷ os) = os

abbrev pub scripted : Io Trial (Unit {0})
scripted t = (record t { outcomes = outcomes_left t.outcomes }, result_of (outcome_of t.outcomes))

abbrev pub recording : (Error → Bool) → SynchronizationExecutionOptions Trial
recording is_locked = record {
  notify = some (λ message t. record t { notices = t.notices ++ message ∷ [] });
  is_locked_error = some is_locked;
  sleep = some (λ t. record t { pauses = t.pauses + 1 });
  logger = some (λ entry t. (record t { events = t.events ++ entry.event ∷ [] }, ok tt));
}

-- `e` as the outcome of `k` attempts, before the others.
abbrev pub locked_for : ℕ → Error → List (Option Error) → List (Option Error)
locked_for zero e rest = rest
locked_for (suc k) e rest = some e ∷ locked_for k e rest

-- What follows the last attempt once a lock was reported.
abbrev pub final_notices : (String → String) → String → Option Error → List String
final_notices quote path none = ("File " <> quote path <> " synchronized successfully.") ∷ []
final_notices quote path (some e) = []

abbrev pub final_events : Option Error → List LogEvent
final_events none = retry_completed ∷ []
final_events (some e) = []

abbrev pub expected_notices : (String → String) → String → ℕ → Option Error → List String
expected_notices quote path zero r = []
expected_notices quote path (suc k) r =
    ("File " <> quote path <> " is locked; retrying synchronization.") ∷ final_notices quote path r

abbrev pub expected_events : ℕ → Option Error → List LogEvent
expected_events zero r = []
expected_events (suc k) r = retry_started ∷ warning_raised ∷ final_events r

-- A last outcome that ends the loop.
abbrev pub IsFinal : (Error → Bool) → Option Error → Type 0
IsFinal is_locked none = Unit
IsFinal is_locked (some e) = is_locked e ≡ false

module _ (default_is_locked : Error → Bool) (default_sleep : Trial → Trial)
    (quote : String → String) (is_locked : Error → Bool) (path : String) (e : Error)
    (locked : is_locked e ≡ true) where
  -- After the first report the loop only waits, and reports the end.
  retry_loop_reported :
      (r : Option Error) (k fuel : ℕ) (rest : List (Option Error)) (t : Trial)
      → IsFinal is_locked r
      → k < fuel
      → retry_loop Trial default_is_locked default_sleep quote
          (recording is_locked)
          path
          fuel
          scripted
          true
          (record t { outcomes = locked_for k e (r ∷ rest) })
        ≡ some (
          record {
            outcomes = rest;
            notices = t.notices ++ final_notices quote path r;
            events = t.events ++ final_events r;
            pauses = t.pauses + k;
          },
          result_of r,
        )
  unfolding retry_loop after
  retry_loop_reported r k zero rest t f h = absurd (omega arith)
  retry_loop_reported none zero (suc fuel) rest t f h = ground arith
  retry_loop_reported (some x) zero (suc fuel) rest t f h = rw f (simp (append-nil, add-zero))
  retry_loop_reported r (suc k) (suc fuel) rest t f h = rw locked (
      retry_loop_reported r k fuel rest (record t { pauses = t.pauses + 1 }) f (omega arith)
      ∙ ap
          (λ (n : ℕ). some (
            record {
              outcomes = rest;
              notices = t.notices ++ final_notices quote path r;
              events = t.events ++ final_events r;
              pauses = n;
            },
            result_of r,
          ))
          (omega arith))

  -- A file that is locked for `k` attempts, and whose next attempt succeeds or fails otherwise: with
  -- more fuel than `k` the loop waits `k` times, returns that outcome and makes no further attempt.
  -- It notifies and logs the lock once, if `k` is not 0, and then the success, if there is one.
  pub retry_locked_file_outcome :
      (r : Option Error) (k fuel : ℕ) (rest : List (Option Error))
      → IsFinal is_locked r
      → k < fuel
      → retry_locked_file Trial default_is_locked default_sleep quote
          (recording is_locked)
          path
          fuel
          scripted
          (record { outcomes = locked_for k e (r ∷ rest); notices = []; events = []; pauses = 0 })
        ≡ some (
          record {
            outcomes = rest;
            notices = expected_notices quote path k r;
            events = expected_events k r;
            pauses = k;
          },
          result_of r,
        )
  unfolding retry_locked_file after
  retry_locked_file_outcome r k zero rest f h = absurd (omega arith)
  retry_locked_file_outcome none zero (suc fuel) rest f h = refl
  retry_locked_file_outcome (some x) zero (suc fuel) rest f h = rw f
  retry_locked_file_outcome r (suc k) (suc fuel) rest f h = rw locked (
      retry_loop_reported r k fuel rest
        (record {
          outcomes = [];
          notices = ("File " <> quote path <> " is locked; retrying synchronization.") ∷ [];
          events = retry_started ∷ warning_raised ∷ [];
          pauses = 1;
        })
        f (omega arith)
      ∙ ap
          (λ (n : ℕ). some (
            record {
              outcomes = rest;
              notices = expected_notices quote path (suc k) r;
              events = expected_events (suc k) r;
              pauses = n;
            },
            result_of r,
          ))
          (omega arith))
