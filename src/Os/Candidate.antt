-- ===== src/Os/Candidate.antt =====
-- The replacement of a document by a candidate beside it, as the methods `WriteCandidate`,
-- `ReplaceCandidate` and `Save` of src/config_store.go and src/backup_set_state.go write it twice,
-- with other messages.
pub mod Outcome
use gosync.Base.{
  String, Bool, true, false, not, Option, none, some, ◌==◌, string_Eq, if◌then◌else◌, Error, text,
  wrap, Result, ok, err,
}
use gosync.Os.{Os, FileInfo}
use gosync.Os.Monad.{
  Io, after, within_result, attempt_result, caught_result, ignored_result, ◌>>=◌, ◌>>◌, return,
  throw, within, attempt, caught, ignored, lift, raise, when,
}

-- What the messages of a store say.
pub record Messages : Type 0 where
  pub encode : String
  pub create_directory : String
  pub create_candidate : String
  pub set_permissions : String
  pub write : String
  pub close : String
  pub not_beside : String
  pub replace : String
  pub replace_existing : String
  pub replace_removed : String

abbrev pub is_failure : Option Error → Bool
is_failure none = false
is_failure (some e) = true

module _ (os : Os) (m : Messages) where
  -- Permissions, content and close; a failure before the close closes the handle.
  unfoldable pub fill_candidate : os.Handle → String → Io os.World (Unit {0})
  fill_candidate file encoded = do
    chmod_error ← attempt (os.chmod file 0o600)
    when (is_failure chmod_error) (ignored (os.close file))
    within m.set_permissions (raise chmod_error)
    write_error ← attempt (os.write file encoded)
    when (is_failure write_error) (ignored (os.close file))
    within m.write (raise write_error)
    within m.close (os.close file)

  -- The candidate's path. `directory` is made with permissions 0700.
  unfoldable pub write_document : String → String → Result String → Io os.World String
  unfolding fill_candidate
  write_document directory pattern encoded = do
    content ← within m.encode (lift encoded)
    within m.create_directory (os.mkdir_all directory 0o700)
    (file, candidate_path) ← within m.create_candidate (os.create_temp directory pattern)
    failure ← attempt (fill_candidate file content)
    when (is_failure failure) (ignored (os.remove candidate_path))
    raise failure
    return candidate_path

  -- Behind a rename that failed: the active document is removed, and the rename tried again.
  unfoldable pub replace_existing :
      String → String → Error → Result FileInfo → Io os.World (Unit {0})
  replace_existing active candidate_path e (err e') = throw (wrap m.replace e)
  replace_existing active candidate_path e (ok u) = do
    within m.replace_existing (os.remove active)
    within m.replace_removed (os.rename candidate_path active)

  unfoldable pub replace_failed : String → String → Option Error → Io os.World (Unit {0})
  unfolding replace_existing
  replace_failed active candidate_path none = return tt
  replace_failed active candidate_path (some e) = do
    present ← caught (os.stat active)
    replace_existing active candidate_path e present

  unfoldable pub replace_document : String → String → Io os.World (Unit {0})
  unfolding replace_failed
  replace_document active candidate_path =
      if not (os.clean (os.dir candidate_path) == os.clean (os.dir active))
      then throw (text m.not_beside)
      else do
        failure ← attempt (os.rename candidate_path active)
        replace_failed active candidate_path failure

  -- The deferred `os.Remove` follows the replacement, whatever its result.
  unfoldable pub save_document : String → String → String → Result String → Io os.World (Unit {0})
  unfolding write_document replace_document
  save_document directory pattern active encoded = do
    candidate_path ← write_document directory pattern encoded
    replaced ← caught (replace_document active candidate_path)
    ignored (os.remove candidate_path)
    lift replaced
