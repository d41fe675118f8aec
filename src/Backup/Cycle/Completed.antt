-- ===== src/Backup/Cycle/Completed.antt =====
-- What a cycle of src/backup_cycle.go has done when it returns no error.
use gosync.Base.{
  ℕ, Bool, true, false, if◌then◌else◌, String, none, ◌==◌, string_Eq, Error, text, Result, ok, err,
  ◌≡◌, refl, ap, sym, ◌∙◌,
}
use mathlib.Core.Path.{subst}
use gosync.Os.Monad.{throw, within_ok, within_result, ◌>>◌, raise, after_pair}
use gosync.Os.Monad.Holds.{after_holds, raise_pair}
use gosync.Logging.Domain.{LogEvent, LogSeverity}
use gosync.Backup.SetState.{BackupSetState}
use gosync.Backup.Store.{BackupSetStore}
use gosync.Backup.Policy.{BackupPolicySnapshot}
use gosync.Backup.Inventory.{verify_backup_source_stability}
use gosync.Backup.Inventory.Equal.{verify_backup_source_stability_iff}
use gosync.Backup.Cycle.{
  Services, Running, on, on_result, Draft, info, mark_confirmed, set_candidate, identity_of,
  prepare, write_draft, publish_draft, confirm_published, cycle_body, cycle_end, cycle_failed,
  run_backup_cycle, started,
}

on_pair :
    {World A : Type 0} (r r' : Running World) (x : World × Result A) (a : A)
    → on_result r x ≡ (r', ok a)
    → x ≡ (r'.world, ok a)
unfolding on_result
on_pair r r' (w, x) a h = ap (λ p. (p.0.world, p.1)) h

on_value :
    {World A : Type 0} (r : Running World) (x : World × Result A) (a : A)
    → (on_result r x).1 ≡ ok a
    → x.1 ≡ ok a
unfolding on_result
on_value r (w, x) a h = h

ok_value : {A W : Type 0} (w w' : W) (a b : A) → ◌≡◌ {A = W × Result A} (w, ok a) (w', ok b) → a ≡ b
ok_value w w' a b h = cc

given_pair :
    {A W : Type 0} (b : Bool) (e : Error) (m : W → W × Result A) (w w' : W) {a : A}
    → (if b then throw e else m) w ≡ (w', ok a)
    → m w ≡ (w', ok a)
given_pair true e m w w' k = cc
given_pair false e m w w' k = k

module _ (World : Type 0) (services : Services World) where
  -- Behind the preparation, at `start`: the source is scanned, an identifier, a time and a candidate's path
  -- are taken, and the archive of the scanned inventory is written, for the next order of the state.
  pub record IsDrafted (policy : BackupPolicySnapshot) (store : BackupSetStore) (s : BackupSetState)
      (d : Draft) (start end : World) : Type 0 where
    pub of_store : d.store ≡ store
    pub of_state : d.state ≡ s
    pub id : String
    pub now : ℕ
    pub scanned : World
    pub identified : World
    pub timed : World
    pub created : World
    pub scan :
        services.build_backup_logical_inventory policy.source_root start ≡ (scanned, ok d.inventory)
    pub identifying : services.archive_id scanned ≡ (identified, ok id)
    pub timing : services.clock identified ≡ (timed, ok now)
    pub creation :
        services.create_backup_archive_candidate store.destination_path id timed
        ≡ (created, ok d.candidate)
    pub of_inventory : d.identity ≡ identity_of World services policy store s d.inventory id now
    pub written :
        services.write_backup_archive d.candidate policy.source_root d.inventory d.identity created
        ≡ (end, ok tt)

  -- Where the archive was written, it is verified, the source is scanned again, with the same inventory,
  -- and the candidate is renamed to `path`.
  pub record IsPublished (policy : BackupPolicySnapshot) (d : Draft) (path : String)
      (start end : World) : Type 0 where
    pub checked : World
    pub told : World
    pub scanned : World
    pub verified :
        services.verify_backup_archive d.candidate d.identity d.inventory start ≡ (checked, ok tt)
    pub telling :
        services.log LogEvent.backup_archive_verified LogSeverity.info "backup archive verified"
          none checked
        ≡ (told, ok tt)
    pub unchanged :
        services.build_backup_logical_inventory policy.source_root told ≡ (scanned, ok d.inventory)
    pub renamed : services.publish_backup_archive d.candidate path scanned ≡ (end, ok tt)

  -- Confirmed by its digest where it was renamed, and the retention on the state confirmed, with the log
  -- entries of the cycle's end.
  pub record IsConfirmed (policy : BackupPolicySnapshot) (d : Draft) (path : String)
      (start end : World) : Type 0 where
    pub digest : String
    pub state : BackupSetState
    pub digested : World
    pub confirmed : World
    pub told : World
    pub retained : World
    pub told_retention : World
    pub hashing : services.calculate_backup_archive_digest path start ≡ (digested, ok digest)
    pub recording :
        services.confirm_backup_archive d.store d.state d.identity path digest digested
        ≡ (confirmed, ok state)
    pub telling :
        services.log LogEvent.backup_archive_confirmed LogSeverity.info "backup archive confirmed"
          none confirmed
        ≡ (told, ok tt)
    pub retention :
        services.execute_backup_retention d.store state policy.retention_count told
        ≡ (retained, ok tt)
    pub telling_retention :
        services.log LogEvent.backup_retention_applied LogSeverity.info "backup retention applied"
          none retained
        ≡ (told_retention, ok tt)
    pub telling_end :
        services.log LogEvent.backup_cycle_completed LogSeverity.info
          "backup cycle completed successfully" none told_retention
        ≡ (end, ok tt)

  -- The log entry of the start, the preparation, and the three parts, each where the one before has ended.
  pub record IsCompleted (application_data : String) (policy : BackupPolicySnapshot)
      (start end : World) : Type 0 where
    pub begun : World
    pub ready : Running World
    pub store : BackupSetStore
    pub state : BackupSetState
    pub draft : Draft
    pub path : String
    pub written : World
    pub renamed : World
    pub beginning :
        services.log LogEvent.backup_cycle_started LogSeverity.info "backup cycle started" none
          start
        ≡ (begun, ok tt)
    pub prepared :
        prepare World services application_data policy (started begun) ≡ (ready, ok (store, state))
    pub drafted : IsDrafted policy store state draft ready.world written
    pub published : IsPublished policy draft path written renamed
    pub confirmed : IsConfirmed policy draft path renamed end

  write_draft-IsDrafted :
      (policy : BackupPolicySnapshot) (store : BackupSetStore) (s : BackupSetState)
      (r r' : Running World) (d : Draft)
      → write_draft World services policy store s r ≡ (r', ok d)
      → IsDrafted policy store s d r.world r'.world
  unfolding write_draft
  write_draft-IsDrafted policy store s r r' d h =
      let (inventory, (r1, (scan, h))) =
        after_pair (on (services.build_backup_logical_inventory policy.source_root) r) _ r' d h in
      let (id, (r2, (identifying, h))) =
        after_pair (within_result "generate backup archive identifier" (on services.archive_id r1))
          _ r' d h in
      let (now, (r3, (timing, h))) = after_pair (on services.clock r2) _ r' d h in
      let (candidate, (r4, (creation, h))) =
        after_pair (on (services.create_backup_archive_candidate store.destination_path id) r3) _ r'
          d h in
      let (_, (r5, (placed, h))) =
        after_pair (set_candidate World services candidate r4) _ r' d h in
      let (_, (r6, (written, h))) =
        after_pair
          (on
            (services.write_backup_archive candidate policy.source_root inventory
              (identity_of World services policy store s inventory id now))
            r5)
          _ r' d h in
      let made : Draft = record {
        store = store;
        state = s;
        identity = identity_of World services policy store s inventory id now;
        inventory = inventory;
        candidate = candidate;
      } in
      let same_world : r6.world ≡ r'.world = ap (λ p. p.0.world) h in
      let same_place : r4.world ≡ r5.world = ap (λ p. p.0.world) placed in
      subst (λ d. IsDrafted policy store s d r.world r'.world) (ok_value _ _ made d h)
        (record {
          of_store = refl;
          of_state = refl;
          id = id;
          now = now;
          scanned = r1.world;
          identified = r2.world;
          timed = r3.world;
          created = r4.world;
          scan = on_pair r r1 _ inventory scan;
          identifying = on_pair r1 r2 _ id (
              within_ok "generate backup archive identifier" (on services.archive_id r1) r2 id
                identifying);
          timing = on_pair r2 r3 _ now timing;
          creation = on_pair r3 r4 _ candidate creation;
          of_inventory = refl;
          written =
              ap
                (services.write_backup_archive candidate policy.source_root inventory made.identity)
                same_place
              ∙ on_pair r5 r6 _ tt written
              ∙ ap (λ w. (w, ok tt)) same_world;
        })

  publish_draft-IsPublished :
      (policy : BackupPolicySnapshot) (d : Draft) (r r' : Running World) (path : String)
      → publish_draft World services policy d r ≡ (r', ok path)
      → IsPublished policy d path r.world r'.world
  unfolding publish_draft
  publish_draft-IsPublished policy d r r' path h =
      let (_, (r1, (checked, h))) =
        after_pair (on (services.verify_backup_archive d.candidate d.identity d.inventory) r) _ r'
          path h in
      let (_, (r2, (telling, h))) =
        after_pair
          (info World services LogEvent.backup_archive_verified "backup archive verified" r1) _ r'
          path h in
      let (final, (r3, (scan, h))) =
        after_pair (on (services.build_backup_logical_inventory policy.source_root) r2) _ r' path
          h in
      let (_, (r4, (stable, h))) =
        after_pair (raise (verify_backup_source_stability d.inventory d.inventory final) r3) _ r'
          path h in
      let (name, (r5, (named, h))) =
        after_pair
          (r4, services.generate_backup_archive_name d.identity.created_at d.identity.archive_id) _
          r' path h in
      let (_, (r6, (moved, h))) =
        after_pair
          (on
            (services.publish_backup_archive d.candidate
              (services.join_path d.store.destination_path name))
            r5)
          _ r' path h in
      let (_, (r7, (cleared, h))) = after_pair (set_candidate World services "" r6) _ r' path h in
      let (none_raised, same34) =
        raise_pair (verify_backup_source_stability d.inventory d.inventory final) r3 r4 stable in
      let same45 : r4 ≡ r5 = ap (λ p. p.0) named in
      let same67 : r6.world ≡ r7.world = ap (λ p. p.0.world) cleared in
      let same7 : r7 ≡ r' = ap (λ p. p.0) h in
      let located : services.join_path d.store.destination_path name ≡ path =
        ok_value _ _ _ path h in
      let unmoved : d.inventory ≡ final =
        ((verify_backup_source_stability_iff d.inventory d.inventory final).0 none_raised).1 in
      record {
        checked = r1.world;
        told = r2.world;
        scanned = r3.world;
        verified = on_pair r r1 _ tt checked;
        telling = on_pair r1 r2 _ tt telling;
        unchanged = on_pair r2 r3 _ final scan ∙ ap (λ i. (r3.world, ok i)) (sym unmoved);
        renamed =
            subst (λ p. services.publish_backup_archive d.candidate p r3.world ≡ (r'.world, ok tt))
              located
              (subst
                (λ x.
                  services.publish_backup_archive d.candidate
                    (services.join_path d.store.destination_path name) x
                  ≡ (r'.world, ok tt))
                (ap (λ r. r.world) (sym (same34 ∙ same45)))
                (on_pair r5 r6 _ tt moved
                  ∙ ap (λ w. (w, ok tt)) (same67 ∙ ap (λ r. r.world) same7)));
      }

  confirm_published-IsConfirmed :
      (policy : BackupPolicySnapshot) (d : Draft) (path : String) (r r' : Running World)
      → confirm_published World services policy d path r ≡ (r', ok tt)
      → IsConfirmed policy d path r.world r'.world
  unfolding confirm_published
  confirm_published-IsConfirmed policy d path r r' h =
      let (digest, (r1, (hashed, h))) =
        after_pair (on (services.calculate_backup_archive_digest path) r) _ r' tt h in
      let (s, (r2, (recorded, h))) =
        after_pair (on (services.confirm_backup_archive d.store d.state d.identity path digest) r1)
          _ r' tt h in
      let (_, (r3, (marked, h))) = after_pair (mark_confirmed World services r2) _ r' tt h in
      let (_, (r4, (telling, h))) =
        after_pair
          (info World services LogEvent.backup_archive_confirmed "backup archive confirmed" r3) _ r'
          tt h in
      let (_, (r5, (retained, h))) =
        after_pair (on (services.execute_backup_retention d.store s policy.retention_count) r4) _ r'
          tt h in
      let (_, (r6, (applied, h))) =
        after_pair
          (info World services LogEvent.backup_retention_applied "backup retention applied" r5) _ r'
          tt h in
      let same : r2.world ≡ r3.world = ap (λ p. p.0.world) marked in
      record {
        digest = digest;
        state = s;
        digested = r1.world;
        confirmed = r2.world;
        told = r4.world;
        retained = r5.world;
        told_retention = r6.world;
        hashing = on_pair r r1 _ digest hashed;
        recording = on_pair r1 r2 _ s recorded;
        telling =
            ap
              (services.log LogEvent.backup_archive_confirmed LogSeverity.info
                "backup archive confirmed" none)
              same
            ∙ on_pair r3 r4 _ tt telling;
        retention = on_pair r4 r5 _ tt retained;
        telling_retention = on_pair r5 r6 _ tt applied;
        telling_end = on_pair r6 r' _ tt h;
      }

  also_failed :
      (destination : String) (r : Running World) (e : Error)
      → (cycle_failed World services destination r e).1 ≡ ok tt
      → ⊥
  unfolding cycle_failed
  also_failed destination r e h =
      after_holds (λ _. ⊥) _ _ (λ rollback v. after_holds (λ _. ⊥) _ _ (λ logged u b k. cc)) tt h

  ended :
      (destination : String) (x : Running World × Result (Unit {0})) (w : World)
      → cycle_end World services destination x ≡ (w, ok tt)
      → (r : Running World) × ((x ≡ (r, ok tt)) × (r.world ≡ w))
  unfolding cycle_end
  ended destination (r, ok u) w h = (r, (refl, ap (λ p. p.0) h))
  ended destination (r, err e) w h = absurd (also_failed destination r e (ap (λ p. p.1) h))

  -- A cycle that returns no error has, each where the one before has ended: logged its start, prepared the
  -- destination and its state, scanned the source, written the archive of that inventory, verified it, found
  -- the same inventory again, renamed the archive, taken the digest of the renamed file, confirmed it as
  -- the next one of the state, applied the retention to the state confirmed, and logged its end.
  pub run_backup_cycle-IsCompleted :
      (application_data : String) (policy : BackupPolicySnapshot) (w w' : World)
      → run_backup_cycle World services application_data policy w ≡ (w', ok tt)
      → IsCompleted application_data policy w w'
  unfolding run_backup_cycle cycle_body
  run_backup_cycle-IsCompleted application_data policy w w' h =
      let h =
        given_pair (application_data == "") (text "backup application-data directory is required")
          (services.log LogEvent.backup_cycle_started LogSeverity.info "backup cycle started" none
            >> λ v.
                cycle_end World services policy.destination_root
                  (cycle_body World services application_data policy (started v)))
          w w' h in
      let (_, (v, (begun, ending))) =
        after_pair
          (services.log LogEvent.backup_cycle_started LogSeverity.info "backup cycle started" none
            w)
          _ w' tt h in
      let (r', (body, same)) =
        ended policy.destination_root
          (cycle_body World services application_data policy (started v)) w' ending in
      let (prepared, (r1, (first, h))) =
        after_pair (prepare World services application_data policy (started v)) _ r' tt body in
      let (d, (r2, (drafted, h))) =
        after_pair (write_draft World services policy prepared.0 prepared.1 r1) _ r' tt h in
      let (path, (r3, (published, h))) =
        after_pair (publish_draft World services policy d r2) _ r' tt h in
      record {
        begun = v;
        ready = r1;
        store = prepared.0;
        state = prepared.1;
        draft = d;
        path = path;
        written = r2.world;
        renamed = r3.world;
        beginning = begun;
        prepared = first;
        drafted = write_draft-IsDrafted policy prepared.0 prepared.1 r1 r2 d drafted;
        published = publish_draft-IsPublished policy d r2 r3 path published;
        confirmed =
            subst (IsConfirmed policy d path r3.world) same
              (confirm_published-IsConfirmed policy d path r3 r' h);
      }
