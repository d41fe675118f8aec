-- ===== src/Config/Service.antt =====
-- src/config_service.go: a configuration under its ownership, from the load to the save. `tell` prints that
-- the existing configuration is invalid, and `log` is `logLifecycleEvent` with the error of its context.
pub mod Configured
pub mod Released
use gosync.Base.{
  String, Bool, true, false, ◌||◌, Option, none, some, List, ◌==◌, string_Eq, if◌then◌else◌, Error,
  text, text_of, wrap, wrap_of, Result, ok, err,
}
use gosync.Os.{Os}
use gosync.Os.Monad.{Io, after, caught_result, ◌>>=◌, ◌>>◌, return, throw, caught}
use gosync.Logging.Domain.{
  LogEvent, LogSeverity, configuration_started, configuration_succeeded, configuration_failed,
}
use gosync.Config.Domain.{ConfigurationSnapshot}
use gosync.Config.Interactive.{Reading, Message, run_interactive_configuration}
use gosync.Config.Ownership.{
  ConfigurationLoadResult, ConfigurationOwnership, acquire_configuration_ownership,
  release_ownership,
}

-- `errors.Is(err, ErrConfigurationCancelled)`, through what an error wraps.
unfoldable pub is_cancelled : Error → Bool
is_cancelled (text s) = s == "configuration cancelled"
is_cancelled (text_of s v) = false
is_cancelled (wrap s e) = is_cancelled e
is_cancelled (wrap_of s v e) = is_cancelled e
is_cancelled (Error.join e f) = is_cancelled e || is_cancelled f

-- `defer ownership.Release()`, whose error is not looked at.
unfoldable pub then_released :
    {A W : Type 0} → (W → W × Result (Unit {0})) → W × Result A → W × Result A
then_released release (w, r) = ((release w).0, r)

module _ (os : Os) (log : LogEvent → LogSeverity → String → Option Error → Io os.World (Unit {0}))
    (load : Io os.World ConfigurationLoadResult) (tell : Error → Io os.World (Unit {0}))
    (print : Message → Io os.World (Unit {0}))
    (save : ConfigurationSnapshot → Io os.World (Unit {0})) (path : String)
    (reader : List Reading) where
  unfoldable pub fail_configuration : Error → Io os.World ConfigurationSnapshot
  fail_configuration e = do
    log configuration_failed LogSeverity.error "configuration failed" (some e)
    throw e

  -- A result, whose error is logged as a failure.
  unfoldable pub or_failed :
      {A : Type 0}
      → (A → Io os.World ConfigurationSnapshot)
      → Result A
      → Io os.World ConfigurationSnapshot
  unfolding fail_configuration
  or_failed next (ok a) = next a
  or_failed next (err e) = fail_configuration e

  unfoldable pub save_configuration : ConfigurationSnapshot → Io os.World ConfigurationSnapshot
  unfolding or_failed
  save_configuration c = do
    stored ← caught (save c)
    or_failed
        (λ _.
          log configuration_succeeded LogSeverity.info "configuration saved successfully" none
          >> return c)
        stored

  -- Behind the dialogue.
  unfoldable pub finish_dialogue : Result ConfigurationSnapshot → Io os.World ConfigurationSnapshot
  unfolding save_configuration fail_configuration is_cancelled
  finish_dialogue (ok c) = save_configuration c
  finish_dialogue (err e) =
      if is_cancelled e
      then log LogEvent.configuration_cancelled LogSeverity.warn "configuration cancelled" none
        >> throw e
      else fail_configuration e

  unfoldable pub hold_dialogue : Io os.World ConfigurationSnapshot
  unfolding finish_dialogue
  hold_dialogue = do
    answer ← caught (run_interactive_configuration os.World print reader)
    finish_dialogue answer

  -- Behind the load: a configuration that is invalid is told of and replaced.
  unfoldable pub continue_configuration :
      ConfigurationLoadResult → Io os.World ConfigurationSnapshot
  unfolding hold_dialogue fail_configuration or_failed
  continue_configuration ConfigurationLoadResult.missing = hold_dialogue
  continue_configuration (ConfigurationLoadResult.valid c) = hold_dialogue
  continue_configuration (ConfigurationLoadResult.unsupported e) = fail_configuration e
  continue_configuration (ConfigurationLoadResult.io_failure e) = fail_configuration e
  continue_configuration (ConfigurationLoadResult.invalid e) = do
    told ← caught (tell e)
    or_failed (λ _. hold_dialogue) told

  unfoldable pub configure_owned : Io os.World ConfigurationSnapshot
  unfolding continue_configuration
  configure_owned = do loaded ← load; continue_configuration loaded

  -- Behind the attempt to acquire the ownership.
  unfoldable pub configure_acquired :
      Result (ConfigurationOwnership os) → Io os.World ConfigurationSnapshot
  unfolding configure_owned then_released fail_configuration
  configure_acquired (ok ownership) w =
      then_released (release_ownership os ownership) (configure_owned w)
  configure_acquired (err e) w = fail_configuration e w

  unfoldable pub configure : Io os.World ConfigurationSnapshot
  unfolding configure_acquired
  configure = do
    log configuration_started LogSeverity.info "configuration started" none
    acquired ← caught (acquire_configuration_ownership os path)
    configure_acquired acquired
