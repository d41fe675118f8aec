-- ===== src/Sync/Watch.antt =====
-- src/watch_loop.go: the loop that synchronizes until it is stopped. The channel `Stop` is polled by
-- `is_stopped`; `wait` waits for an interval, and tells whether the stop came while it waited, which a
-- given `Wait` never does.
pub mod Stops
use gosync.Base.{
  ℕ, zero, suc, Bool, true, false, Option, none, some, if◌then◌else◌, Error, text, Result, ok, err,
  ℤ, pos, negsuc,
}
use gosync.Os.Monad.{Io}

-- In nanoseconds, as `time.Duration`.
abbrev pub watch_check_interval : ℕ
watch_check_interval = 5000000000

-- `if interval <= 0 { interval = watchCheckInterval }`
abbrev pub effective_interval : ℤ → ℕ
effective_interval (pos zero) = watch_check_interval
effective_interval (pos (suc n)) = suc n
effective_interval (negsuc n) = watch_check_interval

module _ (World : Type 0) (is_stopped : World → World × Bool)
    (wait : ℕ → World → World × Bool) where
  -- What a run of the loop gives; `none` means that the fuel has run out.
  abbrev pub Outcome : Type 0
  Outcome = World × Option (Result (Unit {0}))

  abbrev pub finished : World → Result (Unit {0}) → Outcome
  finished w r = (w, some r)

  -- Behind a synchronization: its error ends the loop.
  unfoldable pub continued : (World → Outcome) → World × Result (Unit {0}) → Outcome
  continued loop (w, err e) = finished w (err e)
  continued loop (w, ok u) = loop w

  -- Behind a poll or a wait: a stop ends the loop without an error.
  unfoldable pub unless_stopped : (World → Outcome) → World × Bool → Outcome
  unless_stopped next (w, true) = finished w (ok tt)
  unless_stopped next (w, false) = next w

  -- The parts of a round from its end to its start; `rest` are the rounds behind it.
  abbrev pub from_synchronization : Io World (Unit {0}) → (World → Outcome) → World → Outcome
  from_synchronization synchronize rest w = continued rest (synchronize w)

  abbrev pub from_second_poll : Io World (Unit {0}) → (World → Outcome) → World → Outcome
  from_second_poll synchronize rest w =
      unless_stopped (from_synchronization synchronize rest) (is_stopped w)

  abbrev pub from_wait : Io World (Unit {0}) → ℕ → (World → Outcome) → World → Outcome
  from_wait synchronize interval rest w =
      unless_stopped (from_second_poll synchronize rest) (wait interval w)

  unfoldable pub watch_rounds : Io World (Unit {0}) → ℕ → ℕ → World → Outcome
  unfolding continued unless_stopped
  watch_rounds synchronize interval zero w = (w, none)
  watch_rounds synchronize interval (suc n) w =
      unless_stopped (from_wait synchronize interval (watch_rounds synchronize interval n))
        (is_stopped w)

  unfoldable pub run_watch_loop : Option (Io World (Unit {0})) → ℤ → ℕ → World → Outcome
  unfolding watch_rounds
  run_watch_loop none interval n w =
      finished w (err (text "watch synchronization function is required"))
  run_watch_loop (some synchronize) interval n w =
      continued (watch_rounds synchronize (effective_interval interval) n) (synchronize w)
