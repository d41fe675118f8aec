-- ===== src/Backup/Destination/Recovery.antt =====
-- What the recovery of candidates in src/backup_recovery_retention.go removes.
use gosync.Base.{
  String, false, none, List, [], ◌∷◌, contains, string_Eq, if◌then◌else◌, ok, All, ◌≡◌, ap, ◌∙◌,
  sym, Bool-cases, inl, inr,
}
use mathlib.Core.Path.{subst}
use gosync.Os.{Os}
use gosync.Os.Monad.{Io, after, within_result, ◌>>=◌, after_pair, within_ok, raise}
use gosync.Os.Monad.Holds.{raise_pair}
use gosync.Backup.Store.{BackupSetStore, BackupSetLoadResult}
use gosync.Backup.Archives.{Archives}
use gosync.Backup.Policy.{BackupDestinationStatus, missing_destination, directory_destination}
use gosync.Backup.Destination.{
  DestinationEntry, Inspection, is_candidate, missing, inspect_loaded, inspect_present,
  inspect_backup_set_destination, remove_candidates, recover_owned_backup_candidates,
}
use gosync.Backup.Destination.Entries.{recorded_names, Spares, inspect_loaded-Spares}

unfoldable pub candidate_names : List DestinationEntry → List String
candidate_names [] = []
candidate_names (e ∷ es) =
    let rest = candidate_names es in if is_candidate e.kind then e.name ∷ rest else rest

candidate_names-spared :
    (known : List String) (es : List DestinationEntry)
    → All (Spares known) es
    → All (λ name. contains name known ≡ false) (candidate_names es)
unfolding candidate_names
candidate_names-spared known [] a = tt
candidate_names-spared known (e ∷ es) a = elim (Bool-cases (is_candidate e.kind)) [
  | inl b ↦ rw b (a.0 b, candidate_names-spared known es a.1)
  | inr b ↦ rw b (candidate_names-spared known es a.1)
]

module _ (os : Os) where
  -- Removals of the named files one behind the other, with the worlds before and after.
  pub data Removed (destination : String) : List String → os.World → os.World → Type 0 where
    nothing : (w : os.World) → Removed destination [] w w
    removed :
        (name : String) (names : List String) (u v w : os.World)
        → os.remove (os.join_path destination name) u ≡ (v, ok tt)
        → Removed destination names v w
        → Removed destination (name ∷ names) u w

  module _ (archives : Archives os) (canonicalize : String → Io os.World String)
      (inspect_destination : String → Io os.World BackupDestinationStatus)
      (load : Io os.World BackupSetLoadResult) where
    -- A recovery from a world to a world behind it: an inspection that finds no destination; or one that
    -- lists the destination, loads the state and reports its entries without a fault, and then, right behind
    -- it, the removal of exactly the candidates among the entries, which no record of the state names.
    pub data IsRecovery (store : BackupSetStore) (source_root : String) (start w : os.World)
        : Type 0 where
      absent :
          inspect_destination store.destination_path start ≡ (w, ok missing_destination)
          → IsRecovery store source_root start w
      recovered :
          (listing loading classifying removing : os.World) (found : List String)
          (loaded : BackupSetLoadResult) (i : Inspection)
          → inspect_destination store.destination_path start ≡ (listing, ok directory_destination)
          → os.read_dir store.destination_path listing ≡ (loading, ok found)
          → load loading ≡ (classifying, ok loaded)
          → inspect_loaded os archives canonicalize inspect_destination load source_root
              store.destination_path found loaded classifying
            ≡ (removing, ok i)
          → i.fault ≡ none
          → Removed store.destination_path (candidate_names i.entries) removing w
          → All (λ name. contains name (recorded_names loaded) ≡ false) (candidate_names i.entries)
          → IsRecovery store source_root start w

    abbrev removals : String → List DestinationEntry → Io os.World (Unit {0})
    removals = remove_candidates os archives canonicalize inspect_destination load

    remove_candidates-Removed :
        (destination : String) (es : List DestinationEntry) (u w : os.World)
        → removals destination es u ≡ (w, ok tt)
        → Removed destination (candidate_names es) u w
    unfolding remove_candidates candidate_names
    remove_candidates-Removed destination [] u w h =
        subst (λ x. Removed destination [] u x) (ap (λ x. x.0) h) (nothing u)
    remove_candidates-Removed destination (e ∷ es) u w h = elim (Bool-cases (is_candidate e.kind)) [
      | inl b ↦ rw b (first_removed (λ v. remove_candidates-Removed destination es v w) (rw b at h))
      | inr b ↦ rw b (remove_candidates-Removed destination es u w (rw b at h))
    ]
      where
        first_removed :
            ((v : os.World)
              → removals destination es v ≡ (w, ok tt)
              → Removed destination (candidate_names es) v w)
            → after
                (within_result "remove owned backup candidate %q"
                  (os.remove (os.join_path destination e.name) u))
                (λ _. removals destination es)
              ≡ (w, ok tt)
            → Removed destination (e.name ∷ candidate_names es) u w
        first_removed later k =
            let (t, (v, (gone, rest))) =
              after_pair
                (within_result "remove owned backup candidate %q"
                  (os.remove (os.join_path destination e.name) u))
                (λ _. removals destination es) w tt k in
            removed e.name (candidate_names es) u v w
              (within_ok "remove owned backup candidate %q"
                (os.remove (os.join_path destination e.name) u) v tt gone)
              (later v rest)

    abbrev empty_inspection : Inspection
    empty_inspection = record { status = missing; entries = []; fault = none }

    -- What an inspection that succeeds has done.
    data Inspected (store : BackupSetStore) (source_root : String) (u v : os.World) (i : Inspection)
        : Type 0 where
      nowhere :
          inspect_destination store.destination_path u ≡ (v, ok missing_destination)
          → i ≡ empty_inspection
          → Inspected store source_root u v i
      listed :
          (t x y : os.World) (found : List String) (loaded : BackupSetLoadResult)
          → inspect_destination store.destination_path u ≡ (t, ok directory_destination)
          → os.read_dir store.destination_path t ≡ (x, ok found)
          → load x ≡ (y, ok loaded)
          → inspect_loaded os archives canonicalize inspect_destination load source_root
              store.destination_path found loaded y
            ≡ (v, ok i)
          → Inspected store source_root u v i

    Inspected-present :
        (store : BackupSetStore) (source_root : String) (status : BackupDestinationStatus)
        (u t v : os.World) (i : Inspection)
        → inspect_destination store.destination_path u ≡ (t, ok status)
        → inspect_present os archives canonicalize inspect_destination load store source_root status
            t
          ≡ (v, ok i)
        → Inspected store source_root u v i
    unfolding inspect_present
    Inspected-present store source_root missing_destination u t v i e h =
        let here : inspect_destination store.destination_path u ≡ (v, ok missing_destination) =
          cc in
        let same : i ≡ empty_inspection = cc in nowhere here same
    Inspected-present store source_root directory_destination u t v i e h =
        let (found, (x, (read, h))) =
          after_pair
            (within_result "read backup destination entries" (os.read_dir store.destination_path t))
            (λ names. load >>= λ loaded.
              inspect_loaded os archives canonicalize inspect_destination load source_root
                store.destination_path names loaded)
            v i h in
        let (loaded, (y, (got, h))) =
          after_pair (load x)
            (λ loaded.
              inspect_loaded os archives canonicalize inspect_destination load source_root
                store.destination_path found loaded)
            v i h in
        listed t x y found loaded e
          (within_ok "read backup destination entries" (os.read_dir store.destination_path t) x
            found read)
          got h

    inspected :
        (store : BackupSetStore) (source_root : String) (u v : os.World) (i : Inspection)
        → inspect_backup_set_destination os archives canonicalize inspect_destination load store
            source_root u
          ≡ (v, ok i)
        → Inspected store source_root u v i
    unfolding inspect_backup_set_destination
    inspected store source_root u v i h =
        let (status, (t, (e, h))) =
          after_pair (inspect_destination store.destination_path u)
            (inspect_present os archives canonicalize inspect_destination load store source_root) v
            i h in
        Inspected-present store source_root status u t v i e h

    concluded-IsRecovery :
        (store : BackupSetStore) (source_root : String) (u v v' w : os.World) (i : Inspection)
        → Inspected store source_root u v i
        → raise i.fault v ≡ (v', ok tt)
        → removals store.destination_path i.entries v' ≡ (w, ok tt)
        → IsRecovery store source_root u w
    unfolding remove_candidates
    concluded-IsRecovery store source_root u v v' w i (nowhere e same) sound h = absent (
        e
        ∙ ap (λ x. (x, ok missing_destination))
            (ap (λ p. p.0) (subst (λ i. raise i.fault v ≡ (v', ok tt)) same sound)
              ∙ ap (λ p. p.0)
                  (subst (λ i. removals store.destination_path i.entries v' ≡ (w, ok tt)) same h)))
    concluded-IsRecovery store source_root u v v' w i (listed t x y found loaded e read got k) sound
          h =
        let (faultless, same) = raise_pair i.fault v v' sound in
        recovered t x y v found loaded i e read got k faultless
          (subst (λ z. Removed store.destination_path (candidate_names i.entries) z w) (sym same)
            (remove_candidates-Removed store.destination_path i.entries v' w h))
          (candidate_names-spared (recorded_names loaded) i.entries (
            inspect_loaded-Spares os archives canonicalize inspect_destination load source_root
              store.destination_path found loaded y i (ap (λ p. p.1) k)))

    -- If a recovery succeeds, then either the destination was missing and nothing was removed, or the
    -- destination was listed, the state loaded and an inspection made without a fault; then exactly the
    -- candidates that it reports were removed, one behind the other, and no record of the state names one of them.
    pub recover_owned_backup_candidates-IsRecovery :
        (store : BackupSetStore) (source_root : String) (u w : os.World)
        → recover_owned_backup_candidates os archives canonicalize inspect_destination load store
            source_root u
          ≡ (w, ok tt)
        → IsRecovery store source_root u w
    unfolding recover_owned_backup_candidates
    recover_owned_backup_candidates-IsRecovery store source_root u w h =
        let (i, (v, (inspection, h))) =
          after_pair
            (inspect_backup_set_destination os archives canonicalize inspect_destination load store
              source_root u)
            (λ i. raise i.fault >>= λ _. removals store.destination_path i.entries) w tt h in
        let (_, (v', (sound, h))) =
          after_pair (raise i.fault v) (λ _. removals store.destination_path i.entries) w tt h in
        concluded-IsRecovery store source_root u v v' w i
          (inspected store source_root u v i inspection) sound h
