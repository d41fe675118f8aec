-- ===== src/Backup/Identity/Same.antt =====
-- The identities that the validation of src/backup_archive_identity.go takes for an expected one.
use gosync.Base.{
  ℕ, String, Bool, true, false, ◌&&◌, ◌||◌, not, Option, none, some, ◌==◌, string_Eq, nat_Eq,
  if◌then◌else◌, is_blank, Error, ◌≡◌, refl, arith, Bool-cases, inl, inr,
}
use mathlib.Core.Path.{subst}
use gosync.Backup.SetState.{is_backup_sha256_digest}
use gosync.Backup.Identity.{
  BackupArchiveIdentity, identity_schema_version, differs_from, validate_backup_archive_identity,
}

passed :
    (b : Bool) (e : Error) (rest : Option Error)
    → (if b then some e else rest) ≡ none
    → (b ≡ false) × (rest ≡ none)
passed true e rest h = cc
passed false e rest h = (refl, h)

-- The tests that an accepted identity has passed.
record Tests (i : BackupArchiveIdentity) (source destination : String) (order : ℕ) (digest : String)
    : Type 0 where
  version : not (i.schema_version == identity_schema_version) ≡ false
  texts : (is_blank i.archive_id || is_blank i.source_path || is_blank i.destination_path) ≡ false
  values :
      (i.created_at == 0
        || i.confirmation_order == 0
        || not (is_backup_sha256_digest i.inventory_digest))
      ≡ false
  of_source : differs_from source i.source_path ≡ false
  of_destination : differs_from destination i.destination_path ≡ false
  of_order : (not (order == 0) && not (i.confirmation_order == order)) ≡ false
  of_digest : differs_from digest i.inventory_digest ≡ false

tests :
    (i : BackupArchiveIdentity) (source destination : String) (order : ℕ) (digest : String)
    → validate_backup_archive_identity i source destination order digest ≡ none
    → Tests i source destination order digest
unfolding validate_backup_archive_identity
tests i source destination order digest h =
    let (a, h) = passed (not (i.schema_version == identity_schema_version)) _ _ h in
    let (b, h) =
      passed (is_blank i.archive_id || is_blank i.source_path || is_blank i.destination_path) _ _
        h in
    let (c, h) =
      passed
        (i.created_at == 0
          || i.confirmation_order == 0
          || not (is_backup_sha256_digest i.inventory_digest))
        _ _ h in
    let (d, h) = passed (differs_from source i.source_path) _ _ h in
    let (e, h) = passed (differs_from destination i.destination_path) _ _ h in
    let (f, h) = passed (not (order == 0) && not (i.confirmation_order == order)) _ _ h in
    let (g, h) = passed (differs_from digest i.inventory_digest) _ _ h in
    record {
      version = a;
      texts = b;
      values = c;
      of_source = d;
      of_destination = e;
      of_order = f;
      of_digest = g;
    }

not_empty : (s : String) → is_blank s ≡ false → (s == "") ≡ false
unfolding is_blank
not_empty s h = elim (Bool-cases (s == "")) [
  | inl b ↦ absurd (blank (subst (λ x. is_blank x ≡ false) ((string_Eq.beq_iff s "").0 b) h))
  | inr b ↦ b
]
  where
    blank : is_blank "" ≡ false → ⊥
    blank k = cc

digest_not_empty : (s : String) → not (is_backup_sha256_digest s) ≡ false → (s == "") ≡ false
unfolding is_backup_sha256_digest
digest_not_empty s h = elim (Bool-cases (s == "")) [
  | inl b ↦ absurd (
      no_digest
        (subst (λ x. not (is_backup_sha256_digest x) ≡ false) ((string_Eq.beq_iff s "").0 b) h))
  | inr b ↦ b
]
  where
    no_digest : not (is_backup_sha256_digest "") ≡ false → ⊥
    no_digest k = cc

same_text :
    (expected value : String)
    → (expected == "") ≡ false
    → differs_from expected value ≡ false
    → value ≡ expected
same_text expected value given h = (string_Eq.beq_iff value expected).0 (ground arith)

-- If an expected identity is itself valid, then no other one is accepted for it with its identifier
-- and its time.
pub expected_identity_lem :
    (i expected : BackupArchiveIdentity)
    → validate_backup_archive_identity expected "" "" 0 "" ≡ none
    → validate_backup_archive_identity i expected.source_path expected.destination_path
        expected.confirmation_order expected.inventory_digest
      ≡ none
    → i.archive_id ≡ expected.archive_id
    → i.created_at ≡ expected.created_at
    → i ≡ expected
expected_identity_lem i expected valid h same_id same_time =
    let k = tests expected "" "" 0 "" valid in
    let t =
      tests i expected.source_path expected.destination_path expected.confirmation_order
        expected.inventory_digest h in
    let version : i.schema_version ≡ expected.schema_version =
      ground (arith, k.version, t.version) in
    let source =
      same_text expected.source_path i.source_path
        (not_empty expected.source_path (ground (arith, k.texts))) t.of_source in
    let destination =
      same_text expected.destination_path i.destination_path
        (not_empty expected.destination_path (ground (arith, k.texts))) t.of_destination in
    let order : i.confirmation_order ≡ expected.confirmation_order =
      ground (arith, k.values, t.of_order) in
    let digest =
      same_text expected.inventory_digest i.inventory_digest
        (digest_not_empty expected.inventory_digest (ground (arith, k.values))) t.of_digest in
    cc
