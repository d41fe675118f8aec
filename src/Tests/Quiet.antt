-- ===== src/Tests/Quiet.antt =====
-- An operating system of which every call succeeds and changes nothing, over any type of worlds.
use gosync.Base.{ℕ, false, [], none}
use gosync.Os.{Os, FileInfo, directory_type}
use gosync.Os.Monad.{return}

abbrev pub directory_information : FileInfo
directory_information = record {
  type_of = directory_type;
  permissions = 493;
  size = 1;
  modification_time = 7;
}

abbrev pub quiet_os : Type 0 → Os
quiet_os W = record {
  World = W;
  Handle = ℕ;
  is_not_exist = λ e. false;
  is_exist = λ e. false;
  join_path = λ a b. b;
  dir = λ a. "d";
  base = λ a. a;
  extension = λ a. ".zip";
  clean = λ a. a;
  lstat = λ p. return directory_information;
  stat = λ p. return directory_information;
  mkdir_all = λ p m. return tt;
  remove_all = λ p. return tt;
  remove = λ p. return tt;
  rename = λ p q. return tt;
  read_dir = λ p. return [];
  read_file = λ p. return "";
  open_read = λ p. return 5;
  open_write = λ p m. return 5;
  open_exclusive = λ p m. return 5;
  open_append = λ p m. return 5;
  copy = λ d s. return tt;
  create_temp = λ d p. return (5, "t");
  chmod = λ h m. return tt;
  write = λ h s. return tt;
  write_bytes = λ h s w. (w, (0, none));
  close = λ h. return tt;
}
