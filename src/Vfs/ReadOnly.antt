-- ===== src/Vfs/ReadOnly.antt =====
-- vfs/readonly.go: `ReadOnly` and its file system.
use s3ftpgateway.Base.{
  ◌≡◌, refl, false, Option, none, some, List, [], ◌∷◌, ◌++◌, map, Bytes, codes, Result, ok, err,
  arith,
}
use s3ftpgateway.Vfs.{
  permission, op_create, op_mkdir, op_remove, VfsError, path_error, cause, FileInfo, Reader,
  FileSystem,
}
use s3ftpgateway.Vfs.Mode.{mode_bit, clear_write, clear_write_bits}
use s3ftpgateway.Vfs.Null.{null}

-- `readonlyStat`
abbrev pub readonly_stat : FileInfo → FileInfo
readonly_stat info = record info { mode = clear_write info.mode }

abbrev map_result {ℓ} : {A B : Type ℓ} → (A → B) → Result VfsError A → Result VfsError B
map_result f (ok a) = ok (f a)
map_result f (err e) = err e

module _ {S : Type 0} where
  -- The type `readonly`.
  readonly : FileSystem S → FileSystem S
  readonly fs = record {
    open_file = fs.open_file;
    lstat = λ s path. map_result readonly_stat (fs.lstat s path);
    stat = λ s path. map_result readonly_stat (fs.stat s path);
    read_dir = λ s path. map_result (map readonly_stat) (fs.read_dir s path);
    create = λ s name body. (err (path_error op_create name permission), s);
    mkdir = λ s name. (err (path_error op_mkdir name permission), s);
    remove = λ s name. (err (path_error op_remove name permission), s);
    to_string = codes "readonly " ++ fs.to_string;
  }

  -- `ReadOnly`; a nil file system is `Null`.
  unfoldable pub read_only : Option (FileSystem S) → FileSystem S
  unfolding readonly
  read_only none = readonly null
  read_only (some fs) = readonly fs

-- No information that a read-only file system gives grants anybody to write.
abbrev pub HasNoWrite : FileInfo → Type 0
HasNoWrite info =
    (mode_bit 1 info.mode ≡ false) × (mode_bit 4 info.mode ≡ false) × (mode_bit 7 info.mode ≡ false)

readonly_stat-HasNoWrite : (info : FileInfo) → HasNoWrite (readonly_stat info)
readonly_stat-HasNoWrite info = ground (arith, clear_write_bits info.mode)

-- A call of the interface, and the reply.
pub data Call : Type 0 where
  call_open call_lstat call_stat call_read_dir call_mkdir call_remove : Bytes → Call
  call_create : Bytes → Reader → Call

pub data Reply : Type 0 where
  content : Result VfsError Bytes → Reply
  info : Result VfsError FileInfo → Reply
  listing : Result VfsError (List FileInfo) → Reply
  done : Result VfsError (Unit {0}) → Reply

module _ {S : Type 0} (fs : FileSystem S) where
  pub perform : Call → S → Reply × S
  perform (call_open n) s = (content (fs.open_file s n), s)
  perform (call_lstat n) s = (info (fs.lstat s n), s)
  perform (call_stat n) s = (info (fs.stat s n), s)
  perform (call_read_dir n) s = (listing (fs.read_dir s n), s)
  perform (call_create n r) s = let (res, s') = fs.create s n r in (done res, s')
  perform (call_mkdir n) s = let (res, s') = fs.mkdir s n in (done res, s')
  perform (call_remove n) s = let (res, s') = fs.remove s n in (done res, s')

-- Every write is refused for want of permission, and what is told about files grants no write.
abbrev AllHaveNoWrite : List FileInfo → Type 0
AllHaveNoWrite [] = Unit
AllHaveNoWrite (i ∷ is) = HasNoWrite i × AllHaveNoWrite is

abbrev pub IsHarmless : Reply → Type 0
IsHarmless (content r) = Unit
IsHarmless (info (ok i)) = HasNoWrite i
IsHarmless (info (err e)) = Unit
IsHarmless (listing (ok is)) = AllHaveNoWrite is
IsHarmless (listing (err e)) = Unit
IsHarmless (done (ok u)) = ⊥
IsHarmless (done (err e)) = cause e ≡ permission

map-AllHaveNoWrite : (is : List FileInfo) → AllHaveNoWrite (map readonly_stat is)
map-AllHaveNoWrite [] = tt
map-AllHaveNoWrite (i ∷ is) = (readonly_stat-HasNoWrite i, map-AllHaveNoWrite is)

map_result-IsHarmless :
    (r : Result VfsError FileInfo) → IsHarmless (info (map_result readonly_stat r))
map_result-IsHarmless (ok i) = readonly_stat-HasNoWrite i
map_result-IsHarmless (err e) = tt

map_result-listing :
    (r : Result VfsError (List FileInfo)) → IsHarmless (listing (map_result (map readonly_stat) r))
map_result-listing (ok is) = map-AllHaveNoWrite is
map_result-listing (err e) = tt

module _ {S : Type 0} where
  -- Behind ReadOnly no call of the interface changes the store: creating, making and removing all
  -- fail for want of permission, and no mode that is reported has a write bit.
  pub read_only-IsHarmless :
      (fs : Option (FileSystem S)) (c : Call) (s : S)
      → let (reply, s') = perform (read_only fs) c s in IsHarmless reply × (s' ≡ s)
  unfolding perform read_only
  read_only-IsHarmless none (call_open n) s = (tt, refl)
  read_only-IsHarmless none (call_lstat n) s = (map_result-IsHarmless (null.lstat s n), refl)
  read_only-IsHarmless none (call_stat n) s = (map_result-IsHarmless (null.stat s n), refl)
  read_only-IsHarmless none (call_read_dir n) s = (map_result-listing (null.read_dir s n), refl)
  read_only-IsHarmless (some fs) (call_open n) s = (tt, refl)
  read_only-IsHarmless (some fs) (call_lstat n) s = (map_result-IsHarmless (fs.lstat s n), refl)
  read_only-IsHarmless (some fs) (call_stat n) s = (map_result-IsHarmless (fs.stat s n), refl)
  read_only-IsHarmless (some fs) (call_read_dir n) s = (map_result-listing (fs.read_dir s n), refl)
  read_only-IsHarmless none _ s = (refl, refl)
  read_only-IsHarmless (some fs) _ s = (refl, refl)

  pub read_only-create :
      (fs : Option (FileSystem S)) (s : S) (n : Bytes) (r : Reader)
      → (read_only fs).create s n r ≡ (err (path_error op_create n permission), s)
  unfolding read_only readonly
  read_only-create none s n r = refl
  read_only-create (some fs) s n r = refl

  pub read_only-mkdir :
      (fs : Option (FileSystem S)) (s : S) (n : Bytes)
      → (read_only fs).mkdir s n ≡ (err (path_error op_mkdir n permission), s)
  unfolding read_only readonly
  read_only-mkdir none s n = refl
  read_only-mkdir (some fs) s n = refl

  pub read_only-remove :
      (fs : Option (FileSystem S)) (s : S) (n : Bytes)
      → (read_only fs).remove s n ≡ (err (path_error op_remove n permission), s)
  unfolding read_only readonly
  read_only-remove none s n = refl
  read_only-remove (some fs) s n = refl
