-- ===== src/Vfs/Null.antt =====
-- vfs/null.go: the file system that holds nothing and forgets what is written.
use s3ftpgateway.Base.{List, [], ◌∷◌, if◌then◌else◌, Bytes, codes, beq, ◌||◌, Result, ok, err}
use s3ftpgateway.Vfs.{
  not_exist, op_open, op_stat, op_readdir, VfsError, path_error, read_error, FileInfo, Reader,
  FileSystem,
}

module _ {S : Type 0} where
  null_lstat : S → Bytes → Result VfsError FileInfo
  null_lstat s path = err (path_error op_stat path not_exist)

  null_read_dir : S → Bytes → Result VfsError (List FileInfo)
  null_read_dir s path =
      if beq path [] || beq path (b'/' ∷ [])
      then ok []
      else err (path_error op_readdir path not_exist)

  -- The body is read to its end.
  null_create : S → Bytes → Reader → Result VfsError (Unit {0}) × S
  null_create s name body = (if body.fails then err read_error else ok tt, s)

  unfoldable pub null : FileSystem S
  unfolding null_lstat null_read_dir null_create
  null = record {
    open_file = λ s name. err (path_error op_open name not_exist);
    lstat = null_lstat;
    stat = null_lstat;
    read_dir = null_read_dir;
    create = null_create;
    mkdir = λ s name. (ok tt, s);
    remove = λ s name. (ok tt, s);
    to_string = codes "null";
  }
