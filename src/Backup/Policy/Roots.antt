-- ===== src/Backup/Policy/Roots.antt =====
-- The roots that `validateBackupRootPaths` of src/backup_policy.go accepts.
use gosync.Base.{
  String, false, ◌||◌, List, [], ◌∷◌, if◌then◌else◌, Error, text_of, text, ok, ◌≡◌, arith, ap, All,
}
use mathlib.Core.Path.{subst}
use gosync.Os.{Os}
use gosync.Os.Monad.{
  Io, within_result, throw, return, ◌>>=◌, lift, after_ok, guard_ok, within_value,
}
use gosync.Os.Monad.Holds.{after_holds}
use gosync.Backup.Policy.{
  Paths, BackupRootPaths, root_contains, reject_configuration, outside_configuration,
  separate_roots, validate_backup_root_paths, derive_backup_root_paths, validate_backup_source,
  inspect_backup_destination,
}

abbrev nested : Error
nested = text "backup roots must be distinct and not nested"

module _ (os : Os) (paths : Paths os) (canonicalize : String → Io os.World String) where
  -- The canonical path of the configuration is `configuration`.
  pub record IsSeparated (roots : BackupRootPaths) (configuration_path : String) : Type 0 where
    pub destination_outside : root_contains paths roots.source roots.destination ≡ ok false
    pub source_outside : root_contains paths roots.destination roots.source ≡ ok false
    pub configuration : String
    pub world : os.World
    pub canonical : (canonicalize configuration_path world).1 ≡ ok configuration
    pub configuration_outside :
        (root_contains paths roots.source configuration ≡ ok false)
        × (root_contains paths roots.destination configuration ≡ ok false)

  rejected_none :
      (path : String) (roots : List String) (w : os.World)
      → (reject_configuration os paths canonicalize path roots w).1 ≡ ok tt
      → All (λ root. root_contains paths root path ≡ ok false) roots
  unfolding reject_configuration
  rejected_none path [] w h = tt
  rejected_none path (root ∷ roots) w h =
      let (inside, (v, (e, h))) =
        after_ok (w, root_contains paths root path)
          (λ b.
            if b
            then throw (text_of "configuration path %q is inside backup root %q" root)
            else reject_configuration os paths canonicalize path roots)
          tt h in
      let (out, h) =
        guard_ok inside (text_of "configuration path %q is inside backup root %q" root)
          (reject_configuration os paths canonicalize path roots) v tt h in
      (cc, rejected_none path roots v h)

  separated :
      (roots : BackupRootPaths) (configuration_path : String) (w : os.World) (r : BackupRootPaths)
      → (separate_roots os paths canonicalize roots configuration_path w).1 ≡ ok r
      → IsSeparated r configuration_path
  unfolding separate_roots outside_configuration
  separated roots configuration_path w r h =
      let (first, (w1, (e1, h))) =
        after_ok (w, root_contains paths roots.source roots.destination)
          (λ b. lift (root_contains paths roots.destination roots.source) >>= λ c.
            if b || c
            then throw nested
            else outside_configuration os paths canonicalize roots configuration_path)
          r h in
      let (second, (w2, (e2, h))) =
        after_ok (w1, root_contains paths roots.destination roots.source)
          (λ c.
            if first || c
            then throw nested
            else outside_configuration os paths canonicalize roots configuration_path)
          r h in
      let (apart, h) =
        guard_ok (first || second) nested
          (outside_configuration os paths canonicalize roots configuration_path) w2 r h in
      let (c, (w3, (e3, h))) =
        after_ok
          (within_result "canonicalize configuration path" (canonicalize configuration_path w2))
          (λ c.
            (reject_configuration os paths canonicalize c (roots.source ∷ roots.destination ∷ []))
            >>= λ _. return roots)
          r h in
      let (_, (w4, (e4, h))) =
        after_ok
          (reject_configuration os paths canonicalize c (roots.source ∷ roots.destination ∷ []) w3)
          (λ _. return roots) r h in
      let out = rejected_none c (roots.source ∷ roots.destination ∷ []) w3 (ap (λ x. x.1) e4) in
      let same : roots ≡ r = cc in
      subst (λ r. IsSeparated r configuration_path) same
        (record {
          destination_outside = ground arith;
          source_outside = ground arith;
          configuration = c;
          world = w2;
          canonical =
              within_value "canonicalize configuration path" (canonicalize configuration_path w2) c
                (ap (λ x. x.1) e3);
          configuration_outside = (out.0, out.1.0);
        })

  -- Roots that are accepted contain neither each other nor the canonical path of the configuration.
  pub validate_backup_root_paths-IsSeparated :
      (source_root destination_root configuration_path : String) (w : os.World)
      (r : BackupRootPaths)
      → (validate_backup_root_paths os paths canonicalize source_root destination_root
          configuration_path w).1
        ≡ ok r
      → IsSeparated r configuration_path
  unfolding validate_backup_root_paths
  validate_backup_root_paths-IsSeparated source_root destination_root configuration_path w =
      after_holds P (validate_backup_source os paths source_root w) _ (λ _ v.
        after_holds P (inspect_backup_destination os paths destination_root v) _ (λ _ u.
          after_holds P
            (derive_backup_root_paths os paths canonicalize source_root destination_root u) _
            (λ roots x r. separated roots configuration_path x r)))
    where
      P : BackupRootPaths → Type 0
      P r = IsSeparated r configuration_path
