-- ===== src/Os.antt =====
-- The operating system as the program uses it: the calls of Go's packages `os`, `io` and
-- `path/filepath`, over an unknown world. What a theorem assumes of a call is a hypothesis of its own.
pub mod Monad
pub mod Candidate
use gosync.Base.{ℕ, String, Bool, List, Option, Error, Result}
use gosync.Os.Monad.{Io}

-- `fs.FileMode`: the type of an entry.
pub data FileType : Type 0 where
  directory_type regular_type symlink_type special_type : FileType

pub record FileInfo : Type 0 where
  pub type_of : FileType
  pub permissions : ℕ
  pub size : ℕ
  pub modification_time : ℕ

pub record Os : Type 1 where
  pub World : Type 0
  pub Handle : Type 0
  -- `os.IsNotExist`, `os.IsExist`
  pub is_not_exist : Error → Bool
  pub is_exist : Error → Bool
  -- `filepath.Join`, `filepath.Dir`, `filepath.Clean`
  pub join_path : String → String → String
  pub dir : String → String
  -- `filepath.Base`, `filepath.Ext`
  pub base : String → String
  pub extension : String → String
  pub clean : String → String
  pub lstat : String → Io World FileInfo
  pub stat : String → Io World FileInfo
  pub mkdir_all : String → ℕ → Io World (Unit {0})
  pub remove_all : String → Io World (Unit {0})
  pub remove : String → Io World (Unit {0})
  pub rename : String → String → Io World (Unit {0})
  -- The names of the entries.
  pub read_dir : String → Io World (List String)
  pub read_file : String → Io World String
  pub open_read : String → Io World Handle
  -- `os.OpenFile(path, os.O_CREATE|os.O_WRONLY|os.O_TRUNC, permissions)`
  pub open_write : String → ℕ → Io World Handle
  -- The flags `os.O_CREATE|os.O_EXCL|os.O_WRONLY`, and `os.O_CREATE|os.O_WRONLY|os.O_APPEND`.
  pub open_exclusive : String → ℕ → Io World Handle
  pub open_append : String → ℕ → Io World Handle
  -- `io.Copy(destination, source)`
  pub copy : Handle → Handle → Io World (Unit {0})
  -- `os.CreateTemp`: the handle, and its name.
  pub create_temp : String → String → Io World (Handle × String)
  pub chmod : Handle → ℕ → Io World (Unit {0})
  pub write : Handle → String → Io World (Unit {0})
  -- `File.Write`: the number of bytes written, and the error.
  pub write_bytes : Handle → String → World → World × (ℕ × Option Error)
  pub close : Handle → Io World (Unit {0})
