-- ===== src/MapFs/Files.antt =====
-- The operations of vfs/mapfs/mapfs.go, by what `Open` and `Stat` tell behind them.
use s3ftpgateway.Base.{
  ◌≡◌, ◌∙◌, refl, ◌↔◌, inl, inr, false, [], ◌∷◌, ◌++◌, if◌then◌else◌, Bytes, beq, beq_iff, beq_refl,
  Result, ok, err, arith, Bool-cases,
}
use s3ftpgateway.GoMap.{insert, delete, contains}
use s3ftpgateway.GoMap.Laws.{lookup-insert, lookup-delete}
use s3ftpgateway.GoPath.{slash, dot, dir}
use s3ftpgateway.Vfs.{
  not_exist, exist, op_open, op_stat, op_mkdir, VfsError, path_error, Reader, Keeps,
}
use s3ftpgateway.MapFs.{
  Store, filename, dir_info, open_file, lstat, create, mkdir, remove, keep_parent, map_fs,
}
use s3ftpgateway.MapFs.Names.{filename-ne-slashed}

-- After a successful Create, Open gives what was stored under that name, and under every other
-- name what it gave before.
pub open_file-create :
    (m m' : Store) (name other_name : Bytes) (body : Reader)
    → create m name body ≡ (ok tt, m')
    → open_file m' other_name ≡ (
        if beq (filename name) (filename other_name)
        then ok body.content
        else open_file m other_name)
unfolding create open_file
open_file-create m m' name other_name body e =
    ground (arith, lookup-insert (filename name) (filename other_name) body.content m)

pub map_fs-Keeps : Keeps map_fs
unfolding map_fs
map_fs-Keeps = record {
  gives = λ m m' name body e.
      open_file-create m m' name name body e ∙ rw (beq_refl (filename name)) refl;
}

-- A directory's entry hides no file.
open_file-insert_slashed :
    (m : Store) (d q : Bytes) → open_file (insert (d ++ slash ∷ []) [] m) q ≡ open_file m q
unfolding open_file
open_file-insert_slashed m d q = ground (
  arith,
  lookup-insert (d ++ slash ∷ []) (filename q) [] m,
  beq_iff (d ++ slash ∷ []) (filename q),
  filename-ne-slashed q d,
)

-- Mkdir succeeds exactly where Stat finds nothing.
pub mkdir_iff :
    (m : Store) (name : Bytes)
    → ((mkdir m name).0 ≡ ok tt)
      ↔ (lstat m name ≡ err (path_error op_stat (filename (filename name)) not_exist))
unfolding mkdir lstat
mkdir_iff m name = (λ h. ground arith, λ h. ground arith)

-- After a successful Mkdir, Stat finds the directory, making it again fails because it exists and
-- changes nothing, and Open gives for every name what it gave before.
pub mkdir_lem :
    (m m' : Store) (name q : Bytes)
    → mkdir m name ≡ (ok tt, m')
    → (lstat m' name ≡ ok (dir_info (filename name)))
      × (mkdir m' name ≡ (err (path_error op_mkdir (filename (filename name)) exist), m'))
      × (open_file m' q ≡ open_file m q)
unfolding mkdir lstat
mkdir_lem m m' name q e =
    let d : Bytes = filename name ++ slash ∷ [] in
    let same : m' ≡ insert d [] m = ground arith in
    (
      ground (
        arith,
        same,
        lookup-insert d (filename name) [] m,
        lookup-insert d d [] m,
        beq_refl d,
        beq_iff d (filename name),
        filename-ne-slashed name (filename name),
      ),
      ground (arith, same, lookup-insert d d [] m, beq_refl d),
      rw same (open_file-insert_slashed m (filename name) q),
    )

open_file-delete :
    (m : Store) (k q : Bytes)
    → open_file (delete k m) q ≡ (
        if beq k (filename q)
        then err (path_error op_open (filename q) not_exist)
        else open_file m q)
unfolding open_file
open_file-delete m k q = ground (arith, lookup-delete k (filename q) m)

open_file-keep_parent :
    (name : Bytes) (m : Store) (q : Bytes) → open_file (keep_parent name m) q ≡ open_file m q
open_file-keep_parent name m q = elim (Bool-cases (beq (dir name) dot)) [
  | inl top ↦ rw top
  | inr nested ↦ rw nested (open_file-insert_slashed m (dir name) q)
]

-- The name that `Remove` takes out of the map opens as a file exactly if it was one.
open_file-none :
    (m : Store) (q : Bytes)
    → contains (filename q) m ≡ false
    → open_file m q ≡ err (path_error op_open (filename q) not_exist)
unfolding open_file
open_file-none m q h = ground arith

-- After a successful Remove the name opens no file, and Open gives for every other name what it
-- gave before.
pub open_file-remove :
    (m m' : Store) (name q : Bytes)
    → remove m name ≡ (ok tt, m')
    → open_file m' q ≡ (
        if beq (filename name) (filename q)
        then err (path_error op_open (filename q) not_exist)
        else open_file m q)
unfolding remove
open_file-remove m m' name q e =
    let n : Bytes = filename name in
    let d : Bytes = n ++ slash ∷ [] in
    ground (
      arith,
      beq_iff n (filename q),
      beq_iff d (filename q),
      filename-ne-slashed q n,
      open_file-keep_parent n (delete n m) q,
      open_file-keep_parent n (delete d m) q,
      open_file-delete m n q,
      open_file-delete m d q,
      open_file-none m q,
    )

-- The store behind a failure is the one before.
abbrev pub KeepsOnError : Store → Result VfsError (Unit {0}) × Store → Type 0
KeepsOnError m (ok _, m') = Unit
KeepsOnError m (err _, m') = m' ≡ m

-- Create, Mkdir and Remove leave every file and directory alone when they fail.
pub failed_write :
    (m : Store) (name : Bytes) (body : Reader)
    → KeepsOnError m (create m name body)
      × KeepsOnError m (mkdir m name)
      × KeepsOnError m (remove m name)
unfolding create mkdir remove
failed_write m name body = (ground arith, ground arith, ground arith)
