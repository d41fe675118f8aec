-- ===== src/Backup/Destination/Entries.antt =====
-- The entries that an inspection of src/backup_recovery_retention.go reports.
use gosync.Base.{
  String, true, false, none, some, List, [], ◌∷◌, ◌++◌, map, contains, any, str_ltb, Error, Option,
  ok, All, All-append, ◌≡◌, string_Eq, arith, Bool-cases, inl, inr,
}
use gosync.Os.{Os}
use gosync.Os.Monad.{Io, caught_result, attempt_result, ◌>>=◌}
use gosync.Os.Monad.Holds.{after_holds, after_from, ok_holds}
use gosync.Backup.SetState.{BackupArchiveRecord, is_pending}
use gosync.Backup.Store.{BackupSetLoadResult}
use gosync.Backup.Archives.{Archives}
use gosync.Backup.Policy.{BackupDestinationStatus}
use gosync.Backup.Destination.{
  DestinationEntry, Inspection, is_candidate, is_foreign, insert_by_name, sort_by_name, concluded,
  inspect_records, inspect_names, inspect_entries, inspect_loaded, inspect_bound, with_entry,
  is_owned_backup_candidate, entry_of_record, kind_of,
}

-- The file names of the records that a load gives.
abbrev pub recorded_names : BackupSetLoadResult → List String
recorded_names (BackupSetLoadResult.valid s) = map (λ r. r.file_name) s.archives
recorded_names other = []

-- A candidate's name is none of the known ones.
abbrev pub Spares : List String → DestinationEntry → Type 0
Spares known e = is_candidate e.kind ≡ true → contains e.name known ≡ false

insert_by_name-All :
    (P : DestinationEntry → Type 0) (e : DestinationEntry) (es : List DestinationEntry)
    → P e
    → All P es
    → All P (insert_by_name e es)
unfolding insert_by_name
insert_by_name-All P e [] p a = (p, tt)
insert_by_name-All P e (x ∷ xs) p a = elim (Bool-cases (str_ltb e.name x.name)) [
  | inl b ↦ rw b (p, a)
  | inr b ↦ rw b (a.0, insert_by_name-All P e xs p a.1)
]

pub sort_by_name-All :
    (P : DestinationEntry → Type 0) (es : List DestinationEntry)
    → All P es
    → All P (sort_by_name es)
unfolding sort_by_name
sort_by_name-All P [] a = tt
sort_by_name-All P (e ∷ es) a =
    insert_by_name-All P e (sort_by_name es) a.0 (sort_by_name-All P es a.1)

concluded-All :
    (P : DestinationEntry → Type 0) (o : Option Error) (es : List DestinationEntry)
    → All P es
    → All P (concluded o es).entries
unfolding concluded
concluded-All P (some e) es a = sort_by_name-All P es a
concluded-All P none es a = elim (Bool-cases (any (λ e. is_foreign e.kind) es)) [
  | inl b ↦ rw b (sort_by_name-All P es a)
  | inr b ↦ rw b (sort_by_name-All P es a)
]

record_spared : (known : List String) (r : BackupArchiveRecord) → Spares known (entry_of_record r)
record_spared known r h = elim (Bool-cases (is_pending r.lifecycle)) [
  | inl b ↦ absurd (ground arith)
  | inr b ↦ absurd (ground arith)
]

with_entry-Spares :
    (known : List String) (damage : Option Error) (r : BackupArchiveRecord)
    (es : List DestinationEntry)
    → All (Spares known) es
    → All (Spares known) (with_entry damage r es)
unfolding with_entry
with_entry-Spares known none r es a = (record_spared known r, a)
with_entry-Spares known (some e) r es a = a

module _ (os : Os) (archives : Archives os) where
  inspect_records-Spares :
      (known : List String) (source destination : String) (rs : List BackupArchiveRecord)
      (w : os.World) (x : List DestinationEntry × Option Error)
      → (inspect_records os archives source destination rs w).1 ≡ ok x
      → All (Spares known) x.0
  unfolding inspect_records
  inspect_records-Spares known source destination [] w x h =
      ok_holds (λ y. All (Spares known) y.0) tt h
  inspect_records-Spares known source destination (r ∷ rs) w x h =
      after_holds (λ y. All (Spares known) y.0) _ _
        (λ damage v.
          after_from (λ y. All (Spares known) y.0)
            (inspect_records os archives source destination rs v) _
            (λ rest u e y h.
              ok_holds (λ y. All (Spares known) y.0)
                (with_entry-Spares known damage r rest.0
                  (inspect_records-Spares known source destination rs v rest e))
                h))
        x h

  inspect_names-Spares :
      (source destination : String) (known names : List String) (w : os.World)
      (es : List DestinationEntry)
      → (inspect_names os archives source destination known names w).1 ≡ ok es
      → All (Spares known) es
  unfolding inspect_names
  inspect_names-Spares source destination known [] w es h = ok_holds (All (Spares known)) tt h
  inspect_names-Spares source destination known (name ∷ names) w es h =
      elim (Bool-cases (contains name known)) [
        | inl b ↦ inspect_names-Spares source destination known names w es (rw b at h)
        | inr b ↦
            after_holds (All (Spares known))
              (caught_result (
                is_owned_backup_candidate os archives (os.join_path destination name) source
                  destination w))
              (λ candidate. inspect_names os archives source destination known names >>= λ rest x.
                (x, ok (record { name = name; kind = kind_of os archives candidate } ∷ rest)))
              (λ candidate v.
                after_from (All (Spares known))
                  (inspect_names os archives source destination known names v) _
                  (λ rest u e y k.
                    ok_holds (All (Spares known))
                      ((λ _. b), inspect_names-Spares source destination known names v rest e) k))
              es (rw b at h)
      ]

  module _ (canonicalize : String → Io os.World String)
      (inspect_destination : String → Io os.World BackupDestinationStatus)
      (load : Io os.World BackupSetLoadResult) where
    inspect_entries-Spares :
        (bound_source source destination : String) (rs : List BackupArchiveRecord)
        (names : List String) (w : os.World) (i : Inspection)
        → (inspect_entries os archives canonicalize inspect_destination load bound_source source
            destination rs names w).1
          ≡ ok i
        → All (Spares (map (λ r. r.file_name) rs)) i.entries
    unfolding inspect_entries
    inspect_entries-Spares bound_source source destination rs names w =
        after_from P (inspect_records os archives bound_source destination rs w) _ (λ found u e.
          after_from P
            (inspect_names os archives source destination (map (λ r. r.file_name) rs) names u) _
            (λ others v e' y h.
              ok_holds P
                (concluded-All (Spares (map (λ r. r.file_name) rs)) found.1 (found.0 ++ others) (
                  All-append (Spares (map (λ r. r.file_name) rs)) found.0 others
                    (inspect_records-Spares (map (λ r. r.file_name) rs) bound_source destination rs
                      w found e)
                    (inspect_names-Spares source destination (map (λ r. r.file_name) rs) names u
                      others e')))
                h))
      where
        P : Inspection → Type 0
        P i = All (Spares (map (λ r. r.file_name) rs)) i.entries

    -- No candidate of an inspection bears the file name of a record.
    pub inspect_loaded-Spares :
        (source_root destination : String) (names : List String) (loaded : BackupSetLoadResult)
        (w : os.World) (i : Inspection)
        → (inspect_loaded os archives canonicalize inspect_destination load source_root destination
            names loaded w).1
          ≡ ok i
        → All (Spares (recorded_names loaded)) i.entries
    unfolding inspect_loaded inspect_bound
    inspect_loaded-Spares source_root destination names (BackupSetLoadResult.io_failure e) w i h =
        ok_holds (λ i. All (Spares []) i.entries) tt h
    inspect_loaded-Spares source_root destination names (BackupSetLoadResult.unsupported e) w i h =
        ok_holds (λ i. All (Spares []) i.entries) tt h
    inspect_loaded-Spares source_root destination names (BackupSetLoadResult.invalid e) w i h =
        ok_holds (λ i. All (Spares []) i.entries) tt h
    inspect_loaded-Spares source_root destination [] BackupSetLoadResult.missing w i h =
        ok_holds (λ i. All (Spares []) i.entries) tt h
    inspect_loaded-Spares source_root destination (name ∷ names) BackupSetLoadResult.missing w i h =
        after_holds (λ i. All (Spares []) i.entries) (canonicalize source_root w) _
          (λ source v. inspect_entries-Spares "" source destination [] (name ∷ names) v) i h
    inspect_loaded-Spares source_root destination names (BackupSetLoadResult.valid s) w i h =
        after_holds P (canonicalize source_root w) _
          (λ source v.
            after_holds P (attempt_result _) _ (λ mismatch u. compared source mismatch u))
          i h
      where
        P : Inspection → Type 0
        P i = All (Spares (map (λ r. r.file_name) s.archives)) i.entries

        compared :
            (source : String) (mismatch : Option Error) (u : os.World) (i : Inspection)
            → (inspect_bound os archives canonicalize inspect_destination load s source destination
                names mismatch u).1
              ≡ ok i
            → P i
        compared source (some e) u i h = ok_holds P tt h
        compared source none u i h =
            inspect_entries-Spares s.source_path source destination s.archives names u i h
