-- ===== src/Backup/Archives.antt =====
-- What the backup code uses to read archives: Go's packages `archive/zip` and `crypto/sha256`, and
-- the path and identity functions of the repository. And of src/backup_archive.go the digest of an
-- archive and its comparison.
pub mod Comment
pub mod Verify
use gosync.Base.{
  String, not, List, ◌==◌, string_Eq, if◌then◌else◌, Option, none, some, Error, text, wrap, Result,
  ok, err,
}
use gosync.Os.{Os}
use gosync.Os.Monad.{Io, ◌>>=◌, return, throw, within, caught, attempt}
use gosync.Backup.SetState.{is_backup_sha256_digest}
use gosync.Backup.Identity.{BackupArchiveIdentity}

-- `zip.OpenReader` gives the comment of an archive, and its files by their names.
pub record Archives (os : Os) : Type 1 where
  pub Reader : Type 0
  pub Stream : Type 0
  pub open_archive : String → Io os.World Reader
  pub comment : Reader → String
  pub files : Reader → List String
  pub open_file : Reader → String → Io os.World Stream
  -- `io.Copy(io.Discard, stream)`
  pub discard : Stream → Io os.World (Unit {0})
  pub close_file : Stream → Io os.World (Unit {0})
  pub close_archive : Reader → Io os.World (Unit {0})
  -- `io.Copy` into a SHA-256 hash, and the hash in hexadecimal digits.
  pub hash_of : os.Handle → Io os.World String
  pub decode_identity : String → Result BackupArchiveIdentity

-- `defer close()`: the close's error is not looked at.
unfoldable pub then_closed : {A W : Type 0} → Io W (Unit {0}) → W × Result A → W × Result A
then_closed close (w, r) = ((close w).0, r)

abbrev pub deferring : {A W : Type 0} → Io W (Unit {0}) → Io W A → Io W A
deferring close m w = then_closed close (m w)

-- What a copy gives, or the first error of the copy and of the close that follows it in any case.
unfoldable pub copied_and_closed :
    {A W : Type 0} → String → String → Result A → Option Error → Io W A
copied_and_closed copying closing (err e) closed = throw (wrap copying e)
copied_and_closed copying closing (ok a) (some e) = throw (wrap closing e)
copied_and_closed copying closing (ok a) none = return a

module _ (os : Os) (archives : Archives os) where
  unfoldable pub calculate_backup_archive_digest : String → Io os.World String
  unfolding copied_and_closed
  calculate_backup_archive_digest path = do
    file ← within "open backup archive for digest" (os.open_read path)
    digest ← caught (archives.hash_of file)
    closed ← attempt (os.close file)
    copied_and_closed "read backup archive for digest" "close backup archive for digest" digest
        closed

  unfoldable pub verify_backup_archive_digest : String → String → Io os.World (Unit {0})
  unfolding calculate_backup_archive_digest
  verify_backup_archive_digest path expected =
      if not (is_backup_sha256_digest expected)
      then throw (text "expected backup archive digest is invalid")
      else (do
        actual ← calculate_backup_archive_digest path
        (if not (actual == expected)
            then throw (text "backup archive digest does not match expected digest")
            else return tt))
