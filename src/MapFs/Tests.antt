-- ===== src/MapFs/Tests.antt =====
-- vfs/mapfs and vfs/vfs.go, on a small store.
use s3ftpgateway.Base.{◌≡◌, refl, false, some, [], ◌∷◌, if◌then◌else◌, Bytes, beq, ok, err}
use s3ftpgateway.GoPath.{clean, join_reversed, push_elements, push_element, dir}
use s3ftpgateway.GoMap.{lookup, insert, delete}
use s3ftpgateway.Text.{trim_prefix, split, has_prefix}
use s3ftpgateway.MapFs.{
  any_below, any_other_below, Store, filename, map_fs, open_file, lstat, create, mkdir, dir_info,
}
use s3ftpgateway.MapFs.Files.{open_file-create, mkdir_lem}
use s3ftpgateway.Vfs.ReadOnly.{read_only, perform, call_remove, IsHarmless, read_only-IsHarmless}
use s3ftpgateway.Vfs.{Reader, exist, op_mkdir, path_error}

abbrev a : Bytes
a = 97 ∷ []

abbrev b : Bytes
b = 98 ∷ []

abbrev hello : Reader
hello = record { content = 104 ∷ 105 ∷ []; fails = false }

abbrev store : Store
store = (a, 1 ∷ []) ∷ []

abbrev with_b : Store
with_b = (a, 1 ∷ []) ∷ (b, 104 ∷ 105 ∷ []) ∷ []

abbrev with_d : Store
with_d = (a, 1 ∷ []) ∷ (98 ∷ 47 ∷ [], []) ∷ []

b_created : create store b hello ≡ (ok tt, with_b)
unfolding create lookup beq filename trim_prefix has_prefix clean join_reversed push_elements split
    push_element dir insert delete any_below any_other_below
b_created = refl

b_made : mkdir store b ≡ (ok tt, with_d)
unfolding mkdir lookup beq filename trim_prefix has_prefix clean join_reversed push_elements split
    push_element dir insert delete any_below any_other_below
b_made = refl

open_file-create_example :
    open_file with_b a
    ≡ (if beq (filename b) (filename a) then ok hello.content else open_file store a)
open_file-create_example = open_file-create store with_b b a hello b_created

mkdir_lem_example :
    (lstat with_d b ≡ ok (dir_info (filename b)))
    × (mkdir with_d b ≡ (err (path_error op_mkdir (filename (filename b)) exist), with_d))
    × (open_file with_d a ≡ open_file store a)
mkdir_lem_example = mkdir_lem store with_d b a b_made

read_only-IsHarmless_example :
    let (reply, s') = perform (read_only (some map_fs)) (call_remove a) store in
    IsHarmless reply × (s' ≡ store)
read_only-IsHarmless_example = read_only-IsHarmless (some map_fs) (call_remove a) store
