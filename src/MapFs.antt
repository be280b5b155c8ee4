-- ===== src/MapFs.antt =====
-- vfs/mapfs/mapfs.go: the file system over a Go map from names to contents. A directory without
-- files is a name that ends in a slash. The map is an association list; where Go ranges over it,
-- the order is the list's (only `readDir` could tell, when a name is a file and a directory).
pub mod Maps
pub mod Names
pub mod Files
mod Tests
use s3ftpgateway.Base.{
  ℕ, zero, suc, Bool, true, false, ◌||◌, ◌&&◌, not, Option, none, some, List, [], ◌∷◌, ◌++◌, ltb,
  ◌==◌, if◌then◌else◌, length, Bytes, beq, codes, Result, ok, err,
}
use s3ftpgateway.GoMap.{Map, lookup, insert, delete, contains}
use s3ftpgateway.GoPath.{slash, dot, clean, dir, base}
use s3ftpgateway.Text.{has_prefix, trim_prefix, sort_strings}
use s3ftpgateway.Vfs.{
  FsError, not_exist, exist, other, Op, op_open, op_stat, op_readdir, op_create, op_mkdir,
  op_remove, VfsError, path_error, read_error, FileInfo, Reader, FileSystem,
}

module _ {V : Type 0} where
  -- The loops that look for a name below a directory.
  unfoldable pub any_below : Bytes → Map V → Bool
  any_below p [] = false
  any_below p ((j, v) ∷ m) = has_prefix j p || any_below p m

  -- The same, past the directory's own name.
  unfoldable pub any_other_below : Bytes → Map V → Bool
  any_other_below p [] = false
  any_other_below p ((j, v) ∷ m) = (not (beq j p) && has_prefix j p) || any_other_below p m

-- `mapFS`
abbrev pub Store : Type 0
Store = Map Bytes

unfoldable pub filename : Bytes → Bytes
filename p = trim_prefix slash (clean p)

-- `fileInfo` and `dirInfo`, with the methods of `mapFI`. The modification time is Go's zero time.
unfoldable pub file_info : Bytes → Bytes → FileInfo
file_info name contents = record {
  name = base (base name);
  size = length contents;
  mode = 0o644;
  mod_time = 0;
  is_dir = false;
}

unfoldable pub dir_info : Bytes → FileInfo
dir_info name = record {
  name = base (base name);
  size = 0;
  mode = 0o755;
  mod_time = 0;
  is_dir = true;
}

-- `Open`
unfoldable pub open_file : Store → Bytes → Result VfsError Bytes
open_file m name = elim (lookup (filename name) m) [
  | none ↦ err (path_error op_open (filename name) not_exist)
  | some b ↦ ok b
]

abbrev slashed : Bytes → Bytes
slashed p = p ++ slash ∷ []

-- A name that is taken by a directory: its own name, or names below it.
abbrev pub is_directory : Bytes → Store → Bool
is_directory p m = contains (slashed p) m || any_below (slashed p) m

-- `Lstat` and `Stat`
unfoldable pub lstat : Store → Bytes → Result VfsError FileInfo
lstat m name =
    let path = filename name in
    elim (lookup path m) [
      | some b ↦ ok (file_info path b)
      | none ↦
          if is_directory path m
          then ok (dir_info path)
          else err (path_error op_stat (filename path) not_exist)
    ]

unfoldable pub slashdir : Bytes → Bytes
slashdir p =
    let d = dir p in
    if beq d dot then slash ∷ [] else if has_prefix p (slash ∷ []) then d else slash ∷ d

-- The entries of a directory found so far: `fim` in the order of `ents`.
abbrev Entries : Type 0
Entries = Map FileInfo

abbrev add_entry : Bytes → FileInfo → Entries → Entries
add_entry name info es = if contains name es then es else es ++ (name, info) ∷ []

-- The inner loop of `readDir` for one name, from its directory up to the root. `last_base` is empty
-- and `is_file` set in the first round. Each round makes `dir` shorter.
unfoldable pub climb : ℕ → Bytes → Bytes → Bytes → Bool → Bytes → Bytes → Entries → Entries
climb zero path fn b is_file last_base d es = es
climb (suc f) path fn b is_file last_base d es =
    let name = if is_file then base fn else last_base in
    let info = if is_file then file_info fn b else dir_info name in
    let es' = if beq d path then add_entry name info es else es in
    let up = climb f path fn b false (base d) (dir d) es' in if beq d (slash ∷ []) then es' else up

-- `readDir`
unfoldable pub read_entries : Bytes → Store → Entries → Entries
read_entries path [] es = es
read_entries path ((fn, b) ∷ m) es =
    let d = slashdir fn in read_entries path m (climb (suc (length d)) path fn b true [] d es)

abbrev is_empty : Entries → Bool
is_empty [] = true
is_empty (e ∷ es) = false

abbrev keys : Entries → List Bytes
keys [] = []
keys ((k, v) ∷ es) = k ∷ keys es

-- `fim[name]` for each name; every name is there.
pick : Entries → List Bytes → List FileInfo
pick es [] = []
pick es (k ∷ ks) = elim (lookup k es) [ none ↦ pick es ks | some i ↦ i ∷ pick es ks ]

-- `ReadDir`
unfoldable pub read_dir : Store → Bytes → Result VfsError (List FileInfo)
unfolding pick
read_dir m name =
    let path = clean name in
    let es = read_entries path m [] in
    if is_empty es
    then err (path_error op_readdir (filename path) not_exist)
    else ok (pick es (sort_strings (keys es)))

-- `Create`. The test for a directory is on the name as it was given, before `filename`.
unfoldable pub create : Store → Bytes → Reader → Result VfsError (Unit {0}) × Store
create m name body =
    if body.fails
    then (err read_error, m)
    else if is_directory name m
    then (err (path_error op_create (filename name) exist), m)
    else (ok tt, insert (filename name) body.content m)

-- `Mkdir`
unfoldable pub mkdir : Store → Bytes → Result VfsError (Unit {0}) × Store
mkdir m raw =
    let name = filename raw in
    if contains name m || is_directory name m
    then (err (path_error op_mkdir (filename name) exist), m)
    else (ok tt, insert (slashed name) [] m)

-- The entry of the parent directory stays when its last file goes.
abbrev pub keep_parent : Bytes → Store → Store
keep_parent name m = let d = dir name in if beq d dot then m else insert (slashed d) [] m

-- `Remove`
unfoldable pub remove : Store → Bytes → Result VfsError (Unit {0}) × Store
remove m raw =
    let name = filename raw in
    if contains name m
    then (ok tt, keep_parent name (delete name m))
    else if any_other_below (slashed name) m
    then (err (path_error op_remove name other), m)
    else if contains (slashed name) m
    then (ok tt, keep_parent name (delete (slashed name) m))
    else (err (path_error op_remove name not_exist), m)

unfoldable pub map_fs : FileSystem Store
map_fs = record {
  open_file = open_file;
  lstat = lstat;
  stat = lstat;
  read_dir = read_dir;
  create = create;
  mkdir = mkdir;
  remove = remove;
  to_string = codes "mapfs";
}
