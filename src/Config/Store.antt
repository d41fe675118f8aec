-- ===== src/Config/Store.antt =====
-- src/config_store.go: the active configuration is replaced by a candidate beside it. `encode` is
-- `encodeConfiguration`.
use gosync.Base.{String, Result}
use gosync.Os.{Os}
use gosync.Os.Monad.{Io}
use gosync.Os.Candidate.{Messages, write_document, replace_document, save_document}
use gosync.Config.Domain.{ConfigurationSnapshot}

pub record ConfigurationStore : Type 0 where
  pub path : String

abbrev pub messages : Messages
messages = record {
  encode = "encode configuration candidate";
  create_directory = "create configuration directory";
  create_candidate = "create configuration candidate";
  set_permissions = "set configuration candidate permissions";
  write = "write configuration candidate";
  close = "close configuration candidate";
  not_beside = "configuration candidate must be beside active configuration";
  replace = "replace configuration file";
  replace_existing = "replace existing configuration file";
  replace_removed = "replace configuration file after removing previous document";
}

module _ (os : Os) (encode : ConfigurationSnapshot → Result String) where
  unfoldable pub write_candidate : ConfigurationStore → ConfigurationSnapshot → Io os.World String
  unfolding write_document
  write_candidate store c = write_document os messages (os.dir store.path) ".config-*" (encode c)

  unfoldable pub replace_candidate : ConfigurationStore → String → Io os.World (Unit {0})
  unfolding replace_document
  replace_candidate store candidate_path = replace_document os messages store.path candidate_path

  unfoldable pub save : ConfigurationStore → ConfigurationSnapshot → Io os.World (Unit {0})
  unfolding save_document
  save store c = save_document os messages (os.dir store.path) ".config-*" store.path (encode c)
