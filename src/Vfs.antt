-- ===== src/Vfs.antt =====
-- vfs/vfs.go: the interface of a file system, as operations over a store `S`. A reader is the bytes
-- that it yields and whether it then fails. Contexts are never cancelled inside an operation.
pub mod Mode
pub mod Null
pub mod ReadOnly
use s3ftpgateway.Base.{ℕ, ◌≡◌, Bool, List, Bytes, Result, ok}

-- The errors that the program tells apart: `os.ErrNotExist`, `os.ErrExist`, `os.ErrPermission`, and
-- any other.
pub data FsError : Type 0 where
  not_exist exist permission other : FsError

-- The field `Op` of `os.PathError`.
pub data Op : Type 0 where
  op_open op_stat op_readdir op_create op_mkdir op_remove : Op

-- An `os.PathError`, or an error passed on as it is: that of the reader that was to be stored, or
-- one of the service behind the files.
pub data VfsError : Type 0 where
  path_error : Op → Bytes → FsError → VfsError
  read_error : VfsError

abbrev pub cause : VfsError → FsError
cause (path_error op path e) = e
cause read_error = other

-- `os.FileInfo`. `mode` holds the nine permission bits; the bit `os.ModeDir` is `is_dir`. `mod_time`
-- is in seconds.
pub record FileInfo : Type 0 where
  pub name : Bytes
  pub size : ℕ
  pub mode : ℕ
  pub mod_time : ℕ
  pub is_dir : Bool

-- `io.Reader`
pub record Reader : Type 0 where
  pub content : Bytes
  pub fails : Bool

pub record FileSystem (S : Type 0) : Type 0 where
  pub open_file : S → Bytes → Result VfsError Bytes
  pub lstat : S → Bytes → Result VfsError FileInfo
  pub stat : S → Bytes → Result VfsError FileInfo
  pub read_dir : S → Bytes → Result VfsError (List FileInfo)
  pub create : S → Bytes → Reader → Result VfsError (Unit {0}) × S
  pub mkdir : S → Bytes → Result VfsError (Unit {0}) × S
  pub remove : S → Bytes → Result VfsError (Unit {0}) × S
  pub to_string : Bytes

-- A file system that keeps files: after a successful Create, Open gives what was stored.
pub record Keeps {S : Type 0} (fs : FileSystem S) : Type 0 where
  pub gives :
      (s s' : S) (name : Bytes) (body : Reader)
      → fs.create s name body ≡ (ok tt, s')
      → fs.open_file s' name ≡ ok body.content
