-- ===== src/Backup/Confirm/Outcome.antt =====
-- What a confirmation of src/backup_recovery_retention.go has done when it returns a state.
use gosync.Base.{
  ◌+◌, ◌^◌, ◌<◌, String, true, false, not, ◌||◌, none, [], ◌∷◌, ◌++◌, ◌==◌, string_Eq, nat_Eq, any,
  text, ok, is_blank, ◌≡◌, refl, ap, sym, ◌∙◌, arith, inl, inr, Bool-cases,
}
use mathlib.Core.Path.{subst}
use gosync.Os.{Os}
use gosync.Os.Monad.{Io, after, within_result, ◌>>=◌, within, after_ok, within_value, guard_ok}
use gosync.Backup.SetState.{BackupSetState, is_backup_sha256_digest, is_pending}
use gosync.Backup.SetState.Valid.{IsValid}
use gosync.Backup.SetState.Valid.Sound.{validate-IsValid}
use gosync.Backup.Identity.{BackupArchiveIdentity, validate_backup_archive_identity}
use gosync.Backup.Confirm.{
  is_confirmed_already, record_of, with_record, appended_state, bound_state, bind_backup_set_source,
  commit_confirmation, confirm_canonical, confirm_formed, confirm_backup_archive,
}
use gosync.Backup.Confirm.Valid.{record_of-IsFormed, with_record-IsValid}

-- The state is bound to the source, and nothing else of it changes.
pub bound_state_lem :
    (s : BackupSetState) (source : String) (t : BackupSetState)
    → bound_state s source ≡ ok t
    → (t ≡ record s { source_path = source }) × IsValid (record s { source_path = source })
unfolding bound_state
bound_state_lem s source t h =
    (ground arith, validate-IsValid (record s { source_path = source }) (ground arith))

appended_state_lem :
    (s : BackupSetState) (i : BackupArchiveIdentity) (name digest : String) (t : BackupSetState)
    → appended_state s i name digest ≡ ok t
    → (any (is_confirmed_already i.archive_id name) s.archives ≡ false)
      × (t ≡ with_record s (record_of i name digest))
unfolding appended_state
appended_state_lem s i name digest t h =
    elim (Bool-cases (any (is_confirmed_already i.archive_id name) s.archives)) [
      | inl e ↦ ground arith
      | inr e ↦ ground arith
    ]

module _ (os : Os) (canonicalize : String → Io os.World String)
    (save : BackupSetState → Io os.World (Unit {0})) where
  -- The source and the name of the file are canonical; `u` and `v` are worlds that the calls meet.
  pub record IsConfirmed (destination : String) (s : BackupSetState) (i : BackupArchiveIdentity)
      (archive_path digest : String) (w : os.World) (t : BackupSetState) : Type 0 where
    pub path : String
    pub source : String
    pub canonical_path : (canonicalize archive_path w).1 ≡ ok path
    pub beside : (os.clean (os.dir path) == os.clean destination) ≡ true
    pub bound : IsValid (record s { source_path = source })
    pub fresh : any (is_confirmed_already i.archive_id (os.base path)) s.archives ≡ false
    pub in_order : (i.confirmation_order == s.next_confirmation_order) ≡ true
    pub digest_formed : is_backup_sha256_digest digest ≡ true
    pub result :
        t ≡ with_record (record s { source_path = source }) (record_of i (os.base path) digest)
    pub world : os.World
    pub saved : (save t world).1 ≡ ok tt

  committed :
      (b : BackupSetState) (i : BackupArchiveIdentity) (name digest : String) (w : os.World)
      (t : BackupSetState)
      → (commit_confirmation os canonicalize save b i name digest w).1 ≡ ok t
      → (appended_state b i name digest ≡ ok t) × ((v : os.World) × ((save t v).1 ≡ ok tt))
  unfolding commit_confirmation after within_result
  committed b i name digest w t h =
      let (u, (v, (first, rest))) =
        after_ok (w, appended_state b i name digest)
          (λ t. within "commit backup archive confirmation" (save t) >>= λ _ x. (x, ok t)) t h in
      let (_, (_, (stored, last))) =
        after_ok (within_result "commit backup archive confirmation" (save u v)) (λ _ x. (x, ok u))
          t rest in
      (cc, (v, within_value "commit backup archive confirmation" (save t v) tt (cc)))

  bound_source :
      (s b : BackupSetState) (source : String) (w : os.World)
      → (bind_backup_set_source os canonicalize s source w).1 ≡ ok b
      → (found : String) × ((b ≡ record s { source_path = found })
          × IsValid (record s { source_path = found }))
  unfolding bind_backup_set_source
  bound_source s b source w h =
      let (found, (v, (_, rest))) =
        after_ok (canonicalize source w) (λ c x. (x, bound_state s c)) b h in
      (found, bound_state_lem s found b rest)

  bound_and_committed :
      (destination : String) (s : BackupSetState) (i : BackupArchiveIdentity) (digest path : String)
      (w : os.World) (t : BackupSetState)
      → (confirm_canonical os canonicalize save destination s i digest path w).1 ≡ ok t
      → ((os.clean (os.dir path) == os.clean destination) ≡ true)
        × ((source : String) × (IsValid (record s { source_path = source })
              × ((appended_state (record s { source_path = source }) i (os.base path) digest ≡ ok t)
                  × ((v : os.World) × ((save t v).1 ≡ ok tt)))))
  unfolding confirm_canonical
  bound_and_committed destination s i digest path w t h =
      let (beside, h) =
        guard_ok (not (os.clean (os.dir path) == os.clean destination))
          (text "backup archive confirmation path is outside destination")
          (bind_backup_set_source os canonicalize s i.source_path >>= λ b.
            commit_confirmation os canonicalize save b i (os.base path) digest)
          w t h in
      let (b, (v, (first, h))) =
        after_ok (bind_backup_set_source os canonicalize s i.source_path w)
          (λ b. commit_confirmation os canonicalize save b i (os.base path) digest) t h in
      let (source, (e, valid)) = bound_source s b i.source_path w (ap (λ x. x.1) first) in
      let (appended, stored) = committed b i (os.base path) digest v t h in
      (ground arith, (source, (valid, (cc, stored))))

  -- If a confirmation returns a state, then the digest and the order of the identity were those
  -- of an unconfirmed archive beside the state, the given state was valid with the source that it is
  -- bound to, and the state returned is that one with the new record at its end, and was saved.
  pub confirm_backup_archive-IsConfirmed :
      (destination : String) (s : BackupSetState) (i : BackupArchiveIdentity)
      (archive_path digest : String) (w : os.World) (t : BackupSetState)
      → (confirm_backup_archive os canonicalize save destination s i archive_path digest w).1 ≡ ok t
      → IsConfirmed destination s i archive_path digest w t
  unfolding confirm_backup_archive confirm_formed
  confirm_backup_archive-IsConfirmed destination s i archive_path digest w t h =
      let (named, h) =
        guard_ok
          (not (i.destination_path == destination)
            || not (i.confirmation_order == s.next_confirmation_order))
          (text "backup archive confirmation identity does not match state")
          (confirm_formed os canonicalize save destination s i archive_path digest) w t h in
      let (formed, h) =
        guard_ok (not (is_backup_sha256_digest digest))
          (text "backup archive confirmation digest is invalid")
          (within "canonicalize backup archive confirmation path" (canonicalize archive_path)
            >>= λ path. confirm_canonical os canonicalize save destination s i digest path)
          w t h in
      let (path, (u, (first, h))) =
        after_ok
          (within_result "canonicalize backup archive confirmation path"
            (canonicalize archive_path w))
          (λ path. confirm_canonical os canonicalize save destination s i digest path) t h in
      let (at, (source, (valid, (appended, (v, stored))))) =
        bound_and_committed destination s i digest path u t h in
      let (new, equation) =
        appended_state_lem (record s { source_path = source }) i (os.base path) digest t appended in
      record {
        path = path;
        source = source;
        canonical_path =
            within_value "canonicalize backup archive confirmation path"
              (canonicalize archive_path w) path (ap (λ x. x.1) first);
        beside = at;
        bound = valid;
        fresh = new;
        in_order = ground arith;
        digest_formed = ground arith;
        result = equation;
        world = v;
        saved = stored;
      }

  -- A confirmation that returns a state returns a valid one, with the new archive last and the next order
  -- one higher, for an identity that was validated, a name that is not blank and a next order below the last of 64 bits.
  pub confirm_backup_archive-IsValid :
      (destination : String) (s : BackupSetState) (i : BackupArchiveIdentity)
      (archive_path digest : String) (w : os.World) (t : BackupSetState)
      → ((p : String) → (canonicalize archive_path w).1 ≡ ok p → is_blank (os.base p) ≡ false)
      → validate_backup_archive_identity i i.source_path destination i.confirmation_order
          i.inventory_digest
        ≡ none
      → s.next_confirmation_order + 1 < 2 ^ 64
      → (confirm_backup_archive os canonicalize save destination s i archive_path digest w).1 ≡ ok t
      → IsValid t
        × ((t.next_confirmation_order ≡ s.next_confirmation_order + 1)
            × ((name : String) × (t.archives ≡ s.archives ++ record_of i name digest ∷ [])))
  unfolding is_pending
  confirm_backup_archive-IsValid destination s i archive_path digest w t named valid small h =
      let c = confirm_backup_archive-IsConfirmed destination s i archive_path digest w t h in
      let bound = record s { source_path = c.source } in
      let r = record_of i (os.base c.path) digest in
      (
        subst IsValid (sym c.result) (
            with_record-IsValid bound r c.bound
              (record_of-IsFormed i i.source_path destination i.confirmation_order
                i.inventory_digest (os.base c.path) digest valid (named c.path c.canonical_path)
                c.digest_formed)
              refl (ground (arith, c.in_order)) small c.fresh),
        (
          ap (λ x. x.next_confirmation_order) c.result ∙ omega arith,
          (os.base c.path, ap (λ x. x.archives) c.result),
        ),
      )
