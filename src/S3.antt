-- ===== src/S3.antt =====
-- vfs/s3fs/s3vfs.go: the file system over an S3 bucket. The client of the AWS SDK with its
-- paginator and its uploader is the record `S3Client`, and the table of MIME types a function: both
-- are parameters. A nil pointer in an answer of S3 reads as the zero value, as `aws.ToString` and
-- its like have it.
pub mod Operations
pub mod Lazy
pub mod Methods
pub mod Bucket
pub mod Files
pub mod Merge
pub mod Directories
pub mod Keys
mod Tests
use s3ftpgateway.Base.{
  ℕ, Bool, true, false, not, ◌&&◌, ◌||◌, Option, none, some, List, [], ◌∷◌, ◌++◌, map, ◌==◌,
  if◌then◌else◌, Bytes, beq, codes, Result, ok, err,
}
use s3ftpgateway.GoPath.{slash, clean, join, base, split_last}
use s3ftpgateway.Text.{trim_prefix, less}
use s3ftpgateway.Vfs.{
  FsError, not_exist, exist, permission, other, Op, op_open, op_stat, op_create, op_mkdir,
  op_remove, VfsError, path_error, read_error, cause, FileInfo, Reader, FileSystem,
}

-- An error of the SDK: an answer of S3 with its HTTP status, or any other.
pub data AwsError : Type 0 where
  response_error : ℕ → AwsError
  other_error : AwsError

-- `types.Object`
pub record Object : Type 0 where
  pub key : Bytes
  pub size : ℕ
  pub last_modified : ℕ

-- `s3.ListObjectsV2Output`
pub record Page : Type 0 where
  pub contents : List Object
  pub common_prefixes : List Bytes
  pub key_count : ℕ

-- `s3.ListObjectsV2Input`
pub record ListInput : Type 0 where
  pub prefix : Bytes
  pub delimiter : Bytes
  pub max_keys : ℕ

-- `s3client`, `uploaderClient` and `s3.NewListObjectsV2Paginator`, for one bucket. `pages` holds
-- what the calls of `NextPage` return.
pub record S3Client (S : Type 0) : Type 0 where
  pub get_object : S → Bytes → Result AwsError Bytes
  pub list_objects : S → ListInput → Result AwsError Page
  pub pages : S → ListInput → List (Result AwsError Page)
  pub upload : S → Bytes → Bytes → Reader → Result AwsError (Unit {0}) × S
  pub put_object : S → Bytes → Bytes → Result AwsError (Unit {0}) × S
  pub delete_object : S → Bytes → Result AwsError (Unit {0}) × S

-- `filekey`, for a file system with the field `Prefix`.
unfoldable pub filekey : Bytes → Bytes → Bytes
filekey prefix name = trim_prefix slash (join prefix (clean (slash ∷ name)))

abbrev pub slashed : Bytes → Bytes
slashed [] = []
slashed (b ∷ bs) = (b ∷ bs) ++ slash ∷ []

-- `dirkey`
unfoldable pub dirkey : Bytes → Bytes → Bytes
dirkey prefix name = slashed (filekey prefix name)

unfoldable pub filename : Bytes → Bytes
filename p = trim_prefix slash (clean p)

abbrev pub fs_error : AwsError → FsError
fs_error (response_error status) =
    if status == 404 then not_exist else if status == 403 then permission else other
fs_error other_error = other

-- `strings.TrimSuffix` of one slash.
trim_slash : Bytes → Bytes
trim_slash [] = []
trim_slash (b ∷ []) = if b == slash then [] else b ∷ []
trim_slash (b ∷ c ∷ cs) = b ∷ trim_slash (c ∷ cs)

-- The types `object` and `commonPrefix`.
pub data Entry : Type 0 where
  object : Object → Entry
  common_prefix : Bytes → Entry

-- Their methods, as the values of `os.FileInfo`. The time of a prefix is Go's zero time.
unfoldable pub entry_info : Entry → FileInfo
unfolding trim_slash
entry_info (object o) = record {
  name = base o.key;
  size = o.size;
  mode = 0o644;
  mod_time = o.last_modified;
  is_dir = false;
}
entry_info (common_prefix p) = record {
  name = base (trim_slash p);
  size = 0;
  mode = 0o755;
  mod_time = 0;
  is_dir = true;
}

-- The loop of `ReadDir` over both lists of a page, with the loops over what is left of them.
unfoldable pub merge : List Object → List Bytes → List Entry
merge [] prefixes = map common_prefix prefixes
merge (c ∷ contents) [] = object c ∷ map object contents
merge (c ∷ contents) (p ∷ prefixes) =
    let first_object = merge contents (p ∷ prefixes) in
    let first_prefix = merge (c ∷ contents) prefixes in
    if less c.key p then object c ∷ first_object else common_prefix p ∷ first_prefix

abbrev add_page : Result AwsError Page → Result AwsError (List Entry) → Result AwsError (List Entry)
add_page (err e) rest = err e
add_page (ok page) (err e) = err e
add_page (ok page) (ok es) = ok (merge page.contents page.common_prefixes ++ es)

-- The loop of `ReadDir` over the pages; it stops at the first error.
unfoldable pub merge_pages : List (Result AwsError Page) → Result AwsError (List Entry)
merge_pages [] = ok []
merge_pages (page ∷ pages) = let rest = merge_pages pages in add_page page rest

-- From the last dot on.
last_dot : Bytes → Bytes
last_dot [] = []
last_dot (b ∷ bs) = elim (last_dot bs) [ [] ↦ if b == b'.' then b ∷ bs else [] | c ∷ cs ↦ c ∷ cs ]

-- `path.Ext`
unfoldable pub ext : Bytes → Bytes
unfolding last_dot split_last
ext p = last_dot (split_last p).1

abbrev or_octets : Bytes → Bytes
or_octets [] = codes "application/octet-stream"
or_octets (b ∷ bs) = b ∷ bs

abbrev pub first_object : Bytes → List Object → Option Entry
first_object file [] = none
first_object file (o ∷ os) = if beq o.key file then some (object o) else none

-- What `Lstat` takes from the page: its first prefix or its first object.
unfoldable pub first_entry : Bytes → Page → Option Entry
first_entry file page = elim page.common_prefixes [
  | [] ↦ first_object file page.contents
  | p ∷ ps ↦
      if beq p (file ++ slash ∷ []) then some (common_prefix p) else first_object file page.contents
]
