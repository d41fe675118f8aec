-- ===== src/Remote/Scoped.antt =====
-- Of src/remote_contract.go: the destination that confines a protocol's operations to a selected root. It is
-- open: `newScopedRemoteDestination` refuses operations that are nil.
pub mod Confined
use gosync.Base.{
  String, Bool, true, false, not, ◌||◌, Option, none, some, ◌==◌, string_Eq, if◌then◌else◌, Error,
  text, wrap, Result, ok, err, ◌<>◌, ℕ, List, [], ◌∷◌, nat_Eq, codes,
}
use gosync.Os.Monad.{Io, after, within_result, ◌>>=◌, ◌>>◌, return, throw, within, lift, raise}
use gosync.Remote.Paths.{Texts, relative_path_error, has_prefix, starts_with, ends_in_slash}
use gosync.Remote.Contract.{
  RemoteDirectoryInspection, RemoteCapabilities, validate_remote_directory_inspection,
}

-- `RemoteProtocolOperations`; `Reader` is what a file is read from, and written from.
pub record Operations (World : Type 0) : Type 1 where
  pub Reader : Type 0
  pub inspect_directory : String → Io World RemoteDirectoryInspection
  pub read_file : String → Io World (Option Reader)
  pub write_file : String → Reader → Io World (Unit {0})
  pub create_directory : String → Io World (Unit {0})
  pub delete_file : String → Io World (Unit {0})
  pub delete_directory : String → Io World (Unit {0})
  pub publish : String → String → Io World (Unit {0})
  pub capabilities : Io World RemoteCapabilities
  pub close : Io World (Unit {0})

-- `strings.TrimSuffix(root, "/") + "/"`, and `strings.HasPrefix` with it.
unfoldable pub is_below : String → String → Bool
unfolding starts_with ends_in_slash
is_below root path =
    if ends_in_slash (codes root) then has_prefix path root else has_prefix path (root <> "/")

module _ (texts : Texts) (join_path : String → String → String) where
  -- `resolvePath`, behind the test that the destination is open; "" is the root.
  unfoldable pub resolve_path : String → String → Bool → Result String
  unfolding relative_path_error is_below
  resolve_path root value allow_root =
      if value == ""
      then (if allow_root
          then ok root
          else err (text "remote operation cannot replace or delete the selected root"))
      else elim (relative_path_error texts value) [
        | some e ↦ err e
        | none ↦
            if is_below root (join_path root value)
            then ok (join_path root value)
            else err (text "remote operation escapes the selected directory")
      ]

  module _ (World : Type 0) (operations : Operations World) (root : String) where
    unfoldable pub inspect : Io World RemoteDirectoryInspection
    unfolding validate_remote_directory_inspection
    inspect = do
      inspection ← within "inspect selected remote directory" (operations.inspect_directory root)
      raise (validate_remote_directory_inspection texts inspection)
      return inspection

    abbrev pub present : Option operations.Reader → Io World operations.Reader
    present (some reader) = return reader
    present none = throw (text "remote read returned no file stream")

    unfoldable pub read_file : String → Io World operations.Reader
    unfolding resolve_path
    read_file path = do
      selected ← lift (resolve_path root path false)
      reader ← within "read remote file %q" (operations.read_file selected)
      present reader

    unfoldable pub write_file : String → Option operations.Reader → Io World (Unit {0})
    unfolding resolve_path
    write_file path none = throw (text "remote file contents are required")
    write_file path (some contents) = do
      selected ← lift (resolve_path root path false)
      within "write remote file %q" (operations.write_file selected contents)

    unfoldable pub create_directory : String → Io World (Unit {0})
    unfolding resolve_path
    create_directory path = do
      selected ← lift (resolve_path root path true)
      within "create remote directory %q" (operations.create_directory selected)

    unfoldable pub delete_file : String → Io World (Unit {0})
    unfolding resolve_path
    delete_file path = do
      selected ← lift (resolve_path root path false)
      within "delete remote file %q" (operations.delete_file selected)

    unfoldable pub delete_directory : String → Io World (Unit {0})
    unfolding resolve_path
    delete_directory path = do
      selected ← lift (resolve_path root path false)
      within "delete remote directory %q" (operations.delete_directory selected)

    -- Behind the two resolutions.
    unfoldable pub publish_selected : String → String → Io World (Unit {0})
    publish_selected candidate final =
        if candidate == final
        then throw (text "remote publication candidate and final paths must be distinct")
        else within "publish remote file" (operations.publish candidate final)

    unfoldable pub publish : String → String → Io World (Unit {0})
    unfolding resolve_path publish_selected
    publish candidate final = do
      selected_candidate ←
          within "resolve remote publication candidate" (lift (resolve_path root candidate false))
      selected_final ←
          within "resolve remote publication destination" (lift (resolve_path root final false))
      publish_selected selected_candidate selected_final

    unfoldable pub server_capabilities : Io World RemoteCapabilities
    server_capabilities = within "inspect remote server capabilities" operations.capabilities

    unfoldable pub close_destination : Io World (Unit {0})
    close_destination = within "close remote destination" operations.close
