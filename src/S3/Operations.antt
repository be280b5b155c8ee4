-- ===== src/S3/Operations.antt =====
-- The operations of vfs/s3fs/s3vfs.go, for the client that `s3` returned to them, a table of MIME types by extension, and the
-- field `Prefix` of the file system.
use s3ftpgateway.Base.{
  ℕ, Bool, true, false, not, ◌||◌, none, some, List, [], ◌∷◌, map, ◌==◌, if◌then◌else◌, Bytes, beq,
  codes, Result, ok, err,
}
use s3ftpgateway.GoPath.{slash}
use s3ftpgateway.Vfs.{
  not_exist, exist, other, Op, op_open, op_stat, op_create, op_mkdir, op_remove, VfsError,
  path_error, read_error, cause, FileInfo, Reader, FileSystem,
}
use s3ftpgateway.S3.{
  AwsError, ListInput, S3Client, filekey, dirkey, filename, fs_error, Entry, common_prefix,
  entry_info, merge_pages, ext, or_octets, first_entry,
}

-- `os.IsNotExist`
abbrev pub is_not_exist : VfsError → Bool
is_not_exist e = elim (cause e) [ not_exist ↦ true | _ ↦ false ]

abbrev pub is_root : Bytes → Bool
is_root path = beq path [] || beq path (slash ∷ [])

-- Listings by directory, of at most `max_keys` entries, and the one that looks for any key at all.
abbrev pub list_input : Bytes → ℕ → ListInput
list_input prefix max_keys = record { prefix = prefix; delimiter = slash ∷ []; max_keys = max_keys }

abbrev pub any_key : Bytes → ListInput
any_key prefix = record { prefix = prefix; delimiter = []; max_keys = 1 }

module _ {S : Type 0} (client : S3Client S) (mime_type : Bytes → Bytes) (prefix : Bytes) where
  -- `Open`
  unfoldable pub open_file : S → Bytes → Result VfsError Bytes
  open_file s name = elim (client.get_object s (filekey prefix name)) [
    | err e ↦ err (path_error op_open (filename name) (fs_error e))
    | ok body ↦ ok body
  ]

  -- `Lstat`, before the entry is read by its methods.
  unfoldable pub lstat_entry : S → Bytes → Result VfsError Entry
  lstat_entry s path =
      if is_root path
      then ok (common_prefix [])
      else (elim (client.list_objects s (list_input (filekey prefix path) 1)) [
        | err e ↦ err (path_error op_stat (filename path) (fs_error e))
        | ok page ↦ elim (first_entry (filekey prefix path) page) [
          | some entry ↦ ok entry
          | none ↦ err (path_error op_stat (filename path) not_exist)
        ]
      ])

  -- `Lstat` and `Stat`
  unfoldable pub lstat : S → Bytes → Result VfsError FileInfo
  lstat s path = elim (lstat_entry s path) [ err e ↦ err e | ok entry ↦ ok (entry_info entry) ]

  -- `ReadDir`, before the entries are read by their methods; `maxKeys` is 1000.
  unfoldable pub read_entries : S → Bytes → Result AwsError (List Entry)
  read_entries s path = merge_pages (client.pages s (list_input (dirkey prefix path) 1000))

  -- `ReadDir`. An error of the paginator is passed on.
  unfoldable pub read_dir : S → Bytes → Result VfsError (List FileInfo)
  read_dir s path = elim (read_entries s path) [
    | err e ↦ err read_error
    | ok es ↦ ok (map entry_info es)
  ]

  abbrev pub written : Op → Bytes → Result AwsError (Unit {0}) × S → Result VfsError (Unit {0}) × S
  written op name (ok u, s) = (ok u, s)
  written op name (err e, s) = (err (path_error op (filename name) other), s)

  abbrev pub store_object : S → Bytes → Reader → Result VfsError (Unit {0}) × S
  store_object s name body =
      written op_create name
        (client.upload s (filekey prefix name) (or_octets (mime_type (ext name))) body)

  -- `Create`
  unfoldable pub create : S → Bytes → Reader → Result VfsError (Unit {0}) × S
  create s name body = elim (lstat s name) [
    | err e ↦ if is_not_exist e then store_object s name body else (err e, s)
    | ok info ↦
        if info.is_dir
        then (err (path_error op_create (filename name) exist), s)
        else store_object s name body
  ]

  abbrev pub put_directory : S → Bytes → Result VfsError (Unit {0}) × S
  put_directory s name = written op_mkdir name (client.put_object s (dirkey prefix name) [])

  -- `Mkdir`
  unfoldable pub mkdir : S → Bytes → Result VfsError (Unit {0}) × S
  mkdir s name = elim (lstat s name) [
    | err e ↦ if is_not_exist e then put_directory s name else (err e, s)
    | ok info ↦ (err (path_error op_create (filename name) exist), s)
  ]

  abbrev pub delete_key : S → Bytes → Result VfsError (Unit {0}) × S
  delete_key s name = written op_remove name (client.delete_object s (filekey prefix name))

  -- `Remove` behind its call of `Lstat`
  abbrev pub remove_found : S → Bytes → FileInfo → Result VfsError (Unit {0}) × S
  remove_found s name info =
      if not info.is_dir
      then delete_key s name
      else (elim (client.list_objects s (any_key (dirkey prefix name))) [
        | err e ↦ (err (path_error op_remove (filename name) other), s)
        | ok page ↦
            if not (page.key_count == 0)
            then (err (path_error op_remove (filename name) other), s)
            else delete_key s name
      ])

  -- `Remove`
  unfoldable pub remove : S → Bytes → Result VfsError (Unit {0}) × S
  remove s name = elim (lstat s name) [ err e ↦ (err e, s) | ok info ↦ remove_found s name info ]

  unfoldable pub s3_fs : FileSystem S
  s3_fs = record {
    open_file = open_file;
    lstat = lstat;
    stat = lstat;
    read_dir = read_dir;
    create = create;
    mkdir = mkdir;
    remove = remove;
    to_string = codes "s3vf";
  }
