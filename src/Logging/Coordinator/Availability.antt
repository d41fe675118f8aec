-- ===== src/Logging/Coordinator/Availability.antt =====
-- The flags of the coordinator of src/logging_coordinator.go over its writes.
use gosync.Base.{
  Bool-cases, inl, inr, ℕ, String, Bool, true, false, Option, none, some, if◌then◌else◌, Error,
  Result, ok, err, ◌≡◌, ◌⊎◌, not, ◌&&◌, refl, ap, arith,
}
use gosync.Os.Monad.{Io}
use gosync.Logging.Domain.{LogEntry}
use gosync.Logging.Coordinator.{
  console_reported, file_reported, logging_unavailable, LoggingCoordinator, unavailable, written,
  write_console_failure, write_persistent_failure, console_written, console_step, file_written,
  file_step, outcome, write_record, without_file, without_console,
}

-- No flag of the second coordinator is set that the first one has cleared.
abbrev pub IsWorn : {World : Type 0} → LoggingCoordinator World → LoggingCoordinator World → Type 0
IsWorn c d =
    ((d.console_available ≡ true) → (c.console_available ≡ true))
    × ((d.persistent_available ≡ true) → (c.persistent_available ≡ true))

IsWorn-trans : {W : Type 0} (c d e : LoggingCoordinator W) → IsWorn c d → IsWorn d e → IsWorn c e
IsWorn-trans c d e h k = (λ x. h.0 (k.0 x), λ x. h.1 (k.1 x))

IsWorn-refl : {W : Type 0} (c : LoggingCoordinator W) → IsWorn c c
IsWorn-refl c = (λ h. h, λ h. h)

if_IsWorn :
    {W : Type 0} (c : LoggingCoordinator W) (b : Bool) (d e : LoggingCoordinator W)
    → IsWorn c d
    → IsWorn c e
    → IsWorn c (if b then d else e)
if_IsWorn c true d e h k = h
if_IsWorn c false d e h k = k

branch-IsWorn :
    {W : Type 0} (c : LoggingCoordinator W) (b : Bool) (p q : LoggingCoordinator W × Option Error)
    → IsWorn c p.0
    → IsWorn c q.0
    → IsWorn c (if b then p else q).0
branch-IsWorn c true p q h k = h
branch-IsWorn c false p q h k = k

module _ (World : Type 0) (write_console write_file : String → Io World (Unit {0}))
    (clock : World → ℕ) (render : LogEntry → String) (error_message : Error → String) where
  written-IsWorn :
      (c : LoggingCoordinator World) (x : World × Result (Unit {0}))
      → IsWorn c (written World write_console write_file clock render error_message c x).0
  unfolding written
  written-IsWorn c (w, ok u) = (λ h. h, λ h. h)
  written-IsWorn c (w, err e) = (λ h. h, λ h. h)

  console_reported-IsWorn :
      (p : LoggingCoordinator World × Option Error)
      → IsWorn p.0 (console_reported World write_console write_file clock render error_message p)
  console_reported-IsWorn (c, none) = (λ h. h, λ h. h)
  console_reported-IsWorn (c, some e) = (λ h. absurd cc, λ h. h)

  file_reported-IsWorn :
      (p : LoggingCoordinator World × Option Error)
      → IsWorn p.0 (file_reported World write_console write_file clock render error_message p)
  file_reported-IsWorn (c, none) = (λ h. h, λ h. h)
  file_reported-IsWorn (c, some e) = (λ h. h, λ h. absurd cc)

  persistent_failure-IsWorn :
      (e : Error) (c : LoggingCoordinator World)
      → IsWorn c
          (write_persistent_failure World write_console write_file clock render error_message e c).0
  unfolding write_persistent_failure
  persistent_failure-IsWorn e c =
      branch-IsWorn c c.console_available _ _ (written-IsWorn c _) (IsWorn-refl c)

  console_failure-IsWorn :
      (e : Error) (c : LoggingCoordinator World)
      → IsWorn c
          (write_console_failure World write_console write_file clock render error_message e c).0
  unfolding write_console_failure
  console_failure-IsWorn e c =
      branch-IsWorn c c.persistent_available _ _ (written-IsWorn c _) (IsWorn-refl c)

  console_written-IsWorn :
      (p : LoggingCoordinator World × Option Error)
      → IsWorn p.0 (console_written World write_console write_file clock render error_message p)
  unfolding console_written
  console_written-IsWorn (c, none) = IsWorn-refl c
  console_written-IsWorn (c, some e) =
      if_IsWorn c c.persistent_available
        (file_reported World write_console write_file clock render error_message p) d
        (IsWorn-trans c d
          (file_reported World write_console write_file clock render error_message p) cleared
          (IsWorn-trans d p.0
            (file_reported World write_console write_file clock render error_message p)
            (console_failure-IsWorn e d) (file_reported-IsWorn p)))
        cleared
    where
      d : LoggingCoordinator World
      d = without_console World write_console write_file clock render error_message c

      p : LoggingCoordinator World × Option Error
      p = write_console_failure World write_console write_file clock render error_message e d

      cleared : IsWorn c d
      cleared = (λ h. absurd cc, λ h. h)

  file_written-IsWorn :
      (p : LoggingCoordinator World × Option Error)
      → IsWorn p.0 (file_written World write_console write_file clock render error_message p)
  unfolding file_written
  file_written-IsWorn (c, none) = IsWorn-refl c
  file_written-IsWorn (c, some e) =
      if_IsWorn c c.console_available
        (console_reported World write_console write_file clock render error_message p) d
        (IsWorn-trans c d
          (console_reported World write_console write_file clock render error_message p) cleared
          (IsWorn-trans d p.0
            (console_reported World write_console write_file clock render error_message p)
            (persistent_failure-IsWorn e d) (console_reported-IsWorn p)))
        cleared
    where
      d : LoggingCoordinator World
      d = without_file World write_console write_file clock render error_message c

      p : LoggingCoordinator World × Option Error
      p = write_persistent_failure World write_console write_file clock render error_message e d

      cleared : IsWorn c d
      cleared = (λ h. h, λ h. absurd cc)

  console_step-IsWorn :
      (s : String) (c : LoggingCoordinator World)
      → IsWorn c (console_step World write_console write_file clock render error_message s c)
  unfolding console_step
  console_step-IsWorn s c =
      if_IsWorn c c.console_available _ _
        (IsWorn-trans c p.0
          (console_written World write_console write_file clock render error_message p)
          (written-IsWorn c (write_console s c.world)) (console_written-IsWorn p))
        (IsWorn-refl c)
    where
      p : LoggingCoordinator World × Option Error
      p =
          written World write_console write_file clock render error_message c
            (write_console s c.world)

  file_step-IsWorn :
      (s : String) (c : LoggingCoordinator World)
      → IsWorn c (file_step World write_console write_file clock render error_message s c)
  unfolding file_step
  file_step-IsWorn s c =
      if_IsWorn c c.persistent_available _ _
        (IsWorn-trans c p.0
          (file_written World write_console write_file clock render error_message p)
          (written-IsWorn c (write_file s c.world)) (file_written-IsWorn p))
        (IsWorn-refl c)
    where
      p : LoggingCoordinator World × Option Error
      p = written World write_console write_file clock render error_message c (write_file s c.world)

  -- A write never makes a destination available that was not available before.
  pub write_record-IsWorn :
      (s : String) (c : LoggingCoordinator World)
      → IsWorn c (write_record World write_console write_file clock render error_message s c).0
  unfolding write_record outcome
  write_record-IsWorn s c =
      branch-IsWorn c (unavailable World write_console write_file clock render error_message c) _ _
        (IsWorn-refl c)
        (IsWorn-trans c (console_step World write_console write_file clock render error_message s c)
          (file_step World write_console write_file clock render error_message s
            (console_step World write_console write_file clock render error_message s c))
          (console_step-IsWorn s c)
          (file_step-IsWorn s
            (console_step World write_console write_file clock render error_message s c)))

  -- If the console is still available, it has taken the record, and so for the log file.
  abbrev ConsoleTaken : String → LoggingCoordinator World → LoggingCoordinator World → Type 0
  ConsoleTaken s c d = (d.console_available ≡ true) → (write_console s c.world).1 ≡ ok tt

  abbrev FileTaken : String → LoggingCoordinator World → LoggingCoordinator World → Type 0
  FileTaken s c d = (d.persistent_available ≡ true) → (write_file s c.world).1 ≡ ok tt

  -- What the result of a write from `c` says: a destination that is left has taken the record, the console
  -- at once and the log file behind the console's part, or that none is left.
  abbrev pub IsTold :
      String → LoggingCoordinator World → LoggingCoordinator World × Option Error → Type 0
  IsTold s c (d, none) =
      ((d.console_available ≡ true) × ((write_console s c.world).1 ≡ ok tt))
      ⊎ ((d.persistent_available ≡ true)
          × ((write_file s
                (console_step World write_console write_file clock render error_message s
                  c).world).1
              ≡ ok tt))
  IsTold s c (d, some e) = (d.console_available ≡ false) × (d.persistent_available ≡ false)

  console_step-ConsoleTaken :
      (s : String) (c : LoggingCoordinator World)
      → ConsoleTaken s c
          (console_step World write_console write_file clock render error_message s c)
  unfolding console_step console_written written
  console_step-ConsoleTaken s c = stepped c.console_available refl
    where
      reported :
          (e : Error) (d : LoggingCoordinator World) (b : Bool)
          → ConsoleTaken s c (
              if b
              then file_reported World write_console write_file clock render error_message (
                  write_console_failure World write_console write_file clock render error_message e
                    (without_console World write_console write_file clock render error_message d))
              else without_console World write_console write_file clock render error_message d)
      reported e d false = λ k. absurd cc
      reported e d true = λ k.
          let p =
            write_console_failure World write_console write_file clock render error_message e
              (without_console World write_console write_file clock render error_message d) in
          let worn =
            IsWorn-trans
              (without_console World write_console write_file clock render error_message d) p.0
              (file_reported World write_console write_file clock render error_message p)
              (console_failure-IsWorn e
                (without_console World write_console write_file clock render error_message d))
              (file_reported-IsWorn p) in
          let back : ◌≡◌ {A = Bool} false true = worn.0 k in absurd cc

      taken :
          (x : World × Result (Unit {0}))
          → write_console s c.world ≡ x
          → ConsoleTaken s c (
              console_written World write_console write_file clock render error_message
                (written World write_console write_file clock render error_message c x))
      taken (w, ok u) e = λ k. ap (λ p. p.1) e
      taken (w, err f) e = reported f (record c { world = w }) c.persistent_available

      stepped :
          (b : Bool)
          → c.console_available ≡ b
          → ConsoleTaken s c (
              if b
              then console_written World write_console write_file clock render error_message (
                  written World write_console write_file clock render error_message c
                    (write_console s c.world))
              else c)
      stepped true e = taken (write_console s c.world) refl
      stepped false e = λ k. absurd cc

  file_step-FileTaken :
      (s : String) (c : LoggingCoordinator World)
      → FileTaken s c (file_step World write_console write_file clock render error_message s c)
  unfolding file_step file_written written
  file_step-FileTaken s c = stepped c.persistent_available refl
    where
      reported :
          (e : Error) (d : LoggingCoordinator World) (b : Bool)
          → FileTaken s c (
              if b
              then console_reported World write_console write_file clock render error_message (
                  write_persistent_failure World write_console write_file clock render error_message
                    e
                    (without_file World write_console write_file clock render error_message d))
              else without_file World write_console write_file clock render error_message d)
      reported e d false = λ k. absurd cc
      reported e d true = λ k.
          let p =
            write_persistent_failure World write_console write_file clock render error_message e
              (without_file World write_console write_file clock render error_message d) in
          let worn =
            IsWorn-trans (without_file World write_console write_file clock render error_message d)
              p.0 (console_reported World write_console write_file clock render error_message p)
              (persistent_failure-IsWorn e
                (without_file World write_console write_file clock render error_message d))
              (console_reported-IsWorn p) in
          let back : ◌≡◌ {A = Bool} false true = worn.1 k in absurd cc

      taken :
          (x : World × Result (Unit {0}))
          → write_file s c.world ≡ x
          → FileTaken s c (
              file_written World write_console write_file clock render error_message
                (written World write_console write_file clock render error_message c x))
      taken (w, ok u) e = λ k. ap (λ p. p.1) e
      taken (w, err f) e = reported f (record c { world = w }) c.console_available

      stepped :
          (b : Bool)
          → c.persistent_available ≡ b
          → FileTaken s c (
              if b
              then file_written World write_console write_file clock render error_message (
                  written World write_console write_file clock render error_message c
                    (write_file s c.world))
              else c)
      stepped true e = taken (write_file s c.world) refl
      stepped false e = λ k. absurd cc

  outcome-IsTold :
      (s : String) (c d : LoggingCoordinator World)
      → ConsoleTaken s c d
      → FileTaken s (console_step World write_console write_file clock render error_message s c) d
      → IsTold s c (outcome World write_console write_file clock render error_message d)
  unfolding outcome
  outcome-IsTold s c d console file = told d.console_available d.persistent_available refl refl
    where
      told :
          (b f : Bool)
          → d.console_available ≡ b
          → d.persistent_available ≡ f
          → IsTold s c (d, if not b && not f then some logging_unavailable else none)
      told true f e k = inl (e, console e)
      told false true e k = inr (k, file k)
      told false false e k = (e, k)

  -- A write that returns no error was taken, the record itself, by a destination that is still available;
  -- a write that returns an error leaves no destination available.
  pub write_record-IsTold :
      (s : String) (c : LoggingCoordinator World)
      → IsTold s c (write_record World write_console write_file clock render error_message s c)
  unfolding write_record
  write_record-IsTold s c =
      elim (Bool-cases (unavailable World write_console write_file clock render error_message c)) [
        | inl h ↦ rw h (ground arith, ground arith)
        | inr h ↦
            let d = console_step World write_console write_file clock render error_message s c in
            rw h (
              outcome-IsTold s c
                (file_step World write_console write_file clock render error_message s d)
                (λ k. console_step-ConsoleTaken s c ((file_step-IsWorn s d).0 k))
                (file_step-FileTaken s d))
      ]
