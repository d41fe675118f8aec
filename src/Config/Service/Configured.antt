-- ===== src/Config/Service/Configured.antt =====
-- What a run of the service of src/config_service.go has done.
use gosync.Base.{
  String, Option, none, some, List, Error, Result, ok, err, ◌≡◌, refl, ◌∙◌, Bool-cases, inl, inr,
}
use gosync.Os.{Os}
use gosync.Os.Monad.{Io, caught_result, ◌>>◌, return}
use gosync.Os.Monad.Holds.{after_holds, after_from, ok_holds, caught_value}
use gosync.Logging.Domain.{
  LogEvent, LogSeverity, configuration_started, configuration_succeeded, configuration_failed,
}
use gosync.Config.Domain.{ConfigurationSnapshot, validate_configuration_snapshot}
use gosync.Config.Interactive.{Reading, Message, run_interactive_configuration}
use gosync.Config.Interactive.Valid.{run_interactive_configuration_valid}
use gosync.Config.Ownership.{
  ConfigurationLoadResult, ConfigurationOwnership, acquire_configuration_ownership,
  release_ownership,
}
use gosync.Config.Service.{
  is_cancelled, then_released, fail_configuration, or_failed, save_configuration, finish_dialogue,
  hold_dialogue, continue_configuration, configure_owned, configure_acquired, configure,
}

module _ (os : Os) (log : LogEvent → LogSeverity → String → Option Error → Io os.World (Unit {0}))
    (load : Io os.World ConfigurationLoadResult) (tell : Error → Io os.World (Unit {0}))
    (print : Message → Io os.World (Unit {0}))
    (save : ConfigurationSnapshot → Io os.World (Unit {0})) (path : String)
    (reader : List Reading) where
  -- A configuration that passes the validation, and the world that its save met.
  pub record IsSaved (c : ConfigurationSnapshot) : Type 0 where
    pub valid : validate_configuration_snapshot c ≡ none
    pub world : os.World
    pub stored : (save c world).1 ≡ ok tt

  failed_no :
      (e : Error) (w : os.World) (c : ConfigurationSnapshot)
      → (fail_configuration os log load tell print save path reader e w).1 ≡ ok c
      → IsSaved c
  unfolding fail_configuration
  failed_no e w =
      after_holds IsSaved
        (log configuration_failed LogSeverity.error "configuration failed" (some e) w) _
        (λ _ v c h. cc)

  saved :
      (c : ConfigurationSnapshot) (w : os.World) (d : ConfigurationSnapshot)
      → validate_configuration_snapshot c ≡ none
      → (save_configuration os log load tell print save path reader c w).1 ≡ ok d
      → IsSaved d
  unfolding save_configuration or_failed
  saved c w d valid =
      after_from IsSaved (caught_result (save c w)) _
        (λ stored v e d. stored_saved stored v d (caught_value (save c w) stored e)) d
    where
      stored_saved :
          (stored : Result (Unit {0})) (v : os.World) (d : ConfigurationSnapshot)
          → (save c w).1 ≡ stored
          → (or_failed os log load tell print save path reader
              (λ _.
                log configuration_succeeded LogSeverity.info "configuration saved successfully" none
                >> return c)
              stored
              v).1
            ≡ ok d
          → IsSaved d
      stored_saved (ok u) v d e h =
          after_holds IsSaved
            (log configuration_succeeded LogSeverity.info "configuration saved successfully" none v)
            _ (λ _ x d k. ok_holds IsSaved (record { valid = valid; world = w; stored = e }) k) d h
      stored_saved (err f) v d e h = failed_no f v d h

  finished :
      (r : Result ConfigurationSnapshot) (w : os.World) (d : ConfigurationSnapshot)
      → ((c : ConfigurationSnapshot) → r ≡ ok c → validate_configuration_snapshot c ≡ none)
      → (finish_dialogue os log load tell print save path reader r w).1 ≡ ok d
      → IsSaved d
  unfolding finish_dialogue
  finished (ok c) w d valid h = saved c w d (valid c refl) h
  finished (err e) w d valid h = elim (Bool-cases (is_cancelled e)) [
    | inl b ↦
        after_holds IsSaved
          (log LogEvent.configuration_cancelled LogSeverity.warn "configuration cancelled" none w) _
          (λ _ v c k. cc) d (rw b at h)
    | inr b ↦ failed_no e w d (rw b at h)
  ]

  held :
      (w : os.World) (d : ConfigurationSnapshot)
      → (hold_dialogue os log load tell print save path reader w).1 ≡ ok d
      → IsSaved d
  unfolding hold_dialogue
  held w =
      after_from IsSaved (caught_result (run_interactive_configuration os.World print reader w)) _
        (λ answer v e d. finished answer v d (λ c same.
          run_interactive_configuration_valid os.World print reader w c
            (caught_value (run_interactive_configuration os.World print reader w) answer e ∙ same)))

  continued :
      (loaded : ConfigurationLoadResult) (w : os.World) (d : ConfigurationSnapshot)
      → (continue_configuration os log load tell print save path reader loaded w).1 ≡ ok d
      → IsSaved d
  unfolding continue_configuration or_failed
  continued ConfigurationLoadResult.missing w d h = held w d h
  continued (ConfigurationLoadResult.valid c) w d h = held w d h
  continued (ConfigurationLoadResult.unsupported e) w d h = failed_no e w d h
  continued (ConfigurationLoadResult.io_failure e) w d h = failed_no e w d h
  continued (ConfigurationLoadResult.invalid e) w d h =
      after_holds IsSaved (caught_result (tell e w)) _ (λ told v x k. told_saved told v x k) d h
    where
      told_saved :
          (told : Result (Unit {0})) (v : os.World) (x : ConfigurationSnapshot)
          → (or_failed os log load tell print save path reader
              (λ _. hold_dialogue os log load tell print save path reader)
              told
              v).1
            ≡ ok x
          → IsSaved x
      told_saved (ok u) v x k = held v x k
      told_saved (err f) v x k = failed_no f v x k

  released_value :
      {A : Type 0} (release : Io os.World (Unit {0})) (x : os.World × Result A) (a : A)
      → (then_released release x).1 ≡ ok a
      → x.1 ≡ ok a
  unfolding then_released
  released_value release (w, r) a h = h

  acquired_saved :
      (r : Result (ConfigurationOwnership os)) (w : os.World) (d : ConfigurationSnapshot)
      → (configure_acquired os log load tell print save path reader r w).1 ≡ ok d
      → IsSaved d
  unfolding configure_acquired configure_owned
  acquired_saved (err e) w d h = failed_no e w d h
  acquired_saved (ok o) w d h =
      after_holds IsSaved (load w) _ (λ loaded v. continued loaded v) d
        (released_value (release_ownership os o)
          (configure_owned os log load tell print save path reader w) d h)

  -- A configuration that the service returns is valid and has been saved.
  pub configure-IsSaved :
      (w : os.World) (c : ConfigurationSnapshot)
      → (configure os log load tell print save path reader w).1 ≡ ok c
      → IsSaved c
  unfolding configure
  configure-IsSaved w =
      after_holds IsSaved
        (log configuration_started LogSeverity.info "configuration started" none w) _
        (λ _ v.
          after_holds IsSaved (caught_result (acquire_configuration_ownership os path v)) _
            (λ acquired u. acquired_saved acquired u))
