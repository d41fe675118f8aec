-- ===== src/Config/Service/Released.antt =====
-- The ownership that a run of the service of src/config_service.go gives back.
use gosync.Base.{
  ℕ, String, true, false, Option, some, none, List, Error, Result, ok, err, ◌<>◌, ◌≡◌, ◌⊎◌, inl,
  inr, refl, sym, Bool-cases,
}
use mathlib.Core.Path.{subst}
use gosync.Os.{Os}
use gosync.Os.Monad.{
  Io, after, ◌>>=◌, attempt, attempt_result, caught, caught_result, within_result, raise, error_of,
}
use gosync.Os.Monad.Holds.{after_keeps}
use gosync.Logging.Domain.{LogEvent, LogSeverity, configuration_started, configuration_failed}
use gosync.Config.Domain.{ConfigurationSnapshot}
use gosync.Config.Interactive.{Reading, Message}
use gosync.Config.Ownership.{
  ConfigurationLoadResult, ConfigurationOwnership, acquire_configuration_ownership,
  release_ownership, release_fault, opened_lock,
}
use gosync.Config.Service.{
  then_released, fail_configuration, configure_owned, configure_acquired, configure,
}

module _ (os : Os) (log : LogEvent → LogSeverity → String → Option Error → Io os.World (Unit {0}))
    (load : Io os.World ConfigurationLoadResult) (tell : Error → Io os.World (Unit {0}))
    (print : Message → Io os.World (Unit {0}))
    (save : ConfigurationSnapshot → Io os.World (Unit {0})) (path : String)
    (reader : List Reading) where
  abbrev pub lock : String
  lock = path <> ".lock"

  -- Worlds without the lock file: the log, the creation of directories and a creation of the lock file that
  -- is refused bring none, and its removal, or a removal that does not find it, leaves none.
  pub record LockLaws (Free : os.World → Type 0) : Type 0 where
    pub logged :
        (event : LogEvent) (severity : LogSeverity) (message : String) (e : Option Error)
        (w : os.World)
        → Free w
        → Free (log event severity message e w).0
    pub made :
        (directory : String) (mode : ℕ) (w : os.World)
        → Free w
        → Free (os.mkdir_all directory mode w).0
    pub refused :
        (mode : ℕ) (w v : os.World) (e : Error)
        → os.open_exclusive lock mode w ≡ (v, err e)
        → Free w
        → Free v
    pub removed : (w v : os.World) → os.remove lock w ≡ (v, ok tt) → Free v
    pub missing :
        (w v : os.World) (e : Error)
        → os.remove lock w ≡ (v, err e)
        → os.is_not_exist e ≡ true
        → Free v

  -- The world is one without the lock file, or what a removal of it has left that has failed.
  abbrev pub Left : (os.World → Type 0) → os.World → Type 0
  Left Free v =
      Free v
      ⊎ ((u : os.World) × ((e : Error) × ((os.remove lock u ≡ (v, err e))
              × (os.is_not_exist e ≡ false))))

  raised-Left :
      (Free : os.World → Type 0) (o : Option Error) (v : os.World)
      → Left Free v
      → Left Free (raise o v).0
  raised-Left Free none v l = l
  raised-Left Free (some e) v l = l

  removed-Left :
      (Free : os.World → Type 0) (laws : LockLaws Free) (closed : Option Error) (w : os.World)
      (x : os.World × Result (Unit {0}))
      → os.remove lock w ≡ x
      → Left Free (after (attempt_result x) (λ removal. raise (release_fault os closed removal))).0
  unfolding after attempt_result
  removed-Left Free laws closed w (v, ok tt) e = raised-Left Free _ v (inl (laws.removed w v e))
  removed-Left Free laws closed w (v, err x) e =
      raised-Left Free _ v (elim (Bool-cases (os.is_not_exist x)) [
        | inl b ↦ inl (laws.missing w v x e b)
        | inr b ↦ inr (w, (x, (e, b)))
      ])

  released-Left :
      (Free : os.World → Type 0) (laws : LockLaws Free) (o : ConfigurationOwnership os)
      (w : os.World)
      → o.lock_path ≡ lock
      → Left Free (release_ownership os o w).0
  unfolding release_ownership after attempt_result
  released-Left Free laws o w same = closed_first (os.close o.lock_file w)
    where
      closed_first :
          (y : os.World × Result (Unit {0}))
          → Left Free
              (after (attempt_result y) (λ closed. attempt (os.remove o.lock_path) >>= λ removal.
                raise (release_fault os closed removal))).0
      closed_first (v, r) =
          subst
            (λ p.
              Left Free
                (after (attempt_result (os.remove p v))
                  (λ removal. raise (release_fault os (error_of r) removal))).0)
            (sym same) (removed-Left Free laws (error_of r) v (os.remove lock v) refl)

  -- An ownership that is acquired is of the lock file, and a failure brings none.
  abbrev Acquired : (os.World → Type 0) → os.World × Result (ConfigurationOwnership os) → Type 0
  Acquired Free (v, ok o) = o.lock_path ≡ lock
  Acquired Free (v, err e) = Free v

  opened-Acquired :
      (Free : os.World → Type 0) (laws : LockLaws Free) (w : os.World)
      (x : os.World × Result os.Handle)
      → os.open_exclusive lock 384 w ≡ x
      → Free w
      → Acquired Free (after (caught_result x) (opened_lock os lock))
  unfolding after caught_result opened_lock
  opened-Acquired Free laws w (v, ok handle) e i = refl
  opened-Acquired Free laws w (v, err x) e i = elim (Bool-cases (os.is_exist x)) [
    | inl b ↦ rw b (laws.refused 384 w v x e i)
    | inr b ↦ rw b (laws.refused 384 w v x e i)
  ]

  acquired :
      (Free : os.World → Type 0) (laws : LockLaws Free) (w : os.World)
      → Free w
      → Acquired Free (acquire_configuration_ownership os path w)
  unfolding acquire_configuration_ownership after within_result
  acquired Free laws w i =
      made_first (os.mkdir_all (os.dir path) 448 w) (laws.made (os.dir path) 448 w i)
    where
      made_first :
          (y : os.World × Result (Unit {0}))
          → Free y.0
          → Acquired Free (
              after
                (within_result "create configuration ownership directory" y)
                (λ _. caught (os.open_exclusive lock 384) >>= λ handle. opened_lock os lock handle))
      made_first (v, err e) j = j
      made_first (v, ok u) j = opened-Acquired Free laws v (os.open_exclusive lock 384 v) refl j

  then_released-Left :
      (Free : os.World → Type 0) (laws : LockLaws Free) (o : ConfigurationOwnership os)
      (x : os.World × Result ConfigurationSnapshot)
      → o.lock_path ≡ lock
      → Left Free (then_released (release_ownership os o) x).0
  unfolding then_released
  then_released-Left Free laws o (w, r) same = released-Left Free laws o w same

  attempted-Left :
      (Free : os.World → Type 0) (laws : LockLaws Free)
      (x : os.World × Result (ConfigurationOwnership os))
      → Acquired Free x
      → Left Free
          (after (caught_result x) (configure_acquired os log load tell print save path reader)).0
  unfolding after caught_result configure_acquired fail_configuration
  attempted-Left Free laws (u, ok o) same =
      then_released-Left Free laws o (configure_owned os log load tell print save path reader u)
        same
  attempted-Left Free laws (u, err f) i =
      after_keeps (Left Free)
        (log configuration_failed LogSeverity.error "configuration failed" (some f) u) _
        (inl
          (laws.logged configuration_failed LogSeverity.error "configuration failed" (some f) u i))
        (λ _ x _ y. y)

  -- If the system's calls treat the lock file as `LockLaws` says, and the log does not make one, then a run
  -- of the service that starts without the lock file ends without it, whether with a configuration, a
  -- failure or a cancellation, unless its removal was the last call and has failed.
  pub configure_leaves_no_lock :
      (Free : os.World → Type 0) (w : os.World)
      → LockLaws Free
      → Free w
      → Left Free (configure os log load tell print save path reader w).0
  unfolding configure after
  configure_leaves_no_lock Free w laws i =
      started (log configuration_started LogSeverity.info "configuration started" none w)
        (laws.logged configuration_started LogSeverity.info "configuration started" none w i)
    where
      started :
          (y : os.World × Result (Unit {0}))
          → Free y.0
          → Left Free
              (after y (λ _. caught (acquire_configuration_ownership os path) >>= λ r.
                configure_acquired os log load tell print save path reader r)).0
      started (v, err e) j = inl j
      started (v, ok u) j =
          attempted-Left Free laws (acquire_configuration_ownership os path v)
            (acquired Free laws v j)
