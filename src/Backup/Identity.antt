-- ===== src/Backup/Identity.antt =====
-- src/backup_archive_identity.go: the identity that an archive carries. Its document is read by `decode`
-- where another module needs it.
pub mod Same
use gosync.Base.{
  ℕ, String, Bool, ◌&&◌, ◌||◌, not, Option, none, some, ◌==◌, string_Eq, nat_Eq, codes, any,
  if◌then◌else◌, is_blank, Error, text, Result, ok, err, ◌<>◌,
}
use gosync.Backup.SetState.{is_backup_sha256_digest}

-- `CreatedAt` is a number, and 0 the zero time.
pub record BackupArchiveIdentity : Type 0 where
  pub schema_version : ℕ
  pub archive_id : String
  pub source_path : String
  pub destination_path : String
  pub created_at : ℕ
  pub confirmation_order : ℕ
  pub inventory_digest : String

abbrev pub identity_schema_version : ℕ
identity_schema_version = 1

-- An expected value that is empty or 0 is not compared.
abbrev pub differs_from : String → String → Bool
differs_from expected value = not (expected == "") && not (value == expected)

unfoldable pub validate_backup_archive_identity :
    BackupArchiveIdentity → String → String → ℕ → String → Option Error
unfolding is_blank is_backup_sha256_digest
validate_backup_archive_identity i source destination order digest =
    if not (i.schema_version == identity_schema_version)
    then some (text "unsupported backup archive identity schema version %d")
    else if is_blank i.archive_id || is_blank i.source_path || is_blank i.destination_path
    then some (text "backup archive identity requires archive and root paths")
    else if i.created_at == 0
        || i.confirmation_order == 0
        || not (is_backup_sha256_digest i.inventory_digest)
    then some (text "backup archive identity contains invalid values")
    else if differs_from source i.source_path
    then some (text "backup archive identity source does not match")
    else if differs_from destination i.destination_path
    then some (text "backup archive identity destination does not match")
    else if not (order == 0) && not (i.confirmation_order == order)
    then some (text "backup archive identity confirmation order does not match")
    else if differs_from digest i.inventory_digest
    then some (text "backup archive identity inventory digest does not match")
    else none

-- `strings.ContainsAny` of the path separators.
abbrev pub has_separator : String → Bool
has_separator s = any (λ c. c == b'/' || c == b'\\') (codes s)

-- `stamp` formats an instant as 20060102T150405Z.
unfoldable pub generate_backup_archive_name : (ℕ → String) → ℕ → String → Result String
generate_backup_archive_name stamp now id =
    if id == "" || has_separator id || id == "." || id == ".."
    then err (text "backup archive identifier is invalid")
    else ok (stamp now <> "-" <> id <> ".zip")
