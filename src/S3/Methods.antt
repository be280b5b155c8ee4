-- ===== src/S3/Methods.antt =====
-- The methods of `FileSystem` of vfs/s3fs/s3vfs.go with their calls of `s3` and `uploader`, which make
-- the clients at the first call: a panic of these is none. The uploader of a client is a field of
-- `S3Client`.
use s3ftpgateway.Base.{
  ◌≡◌, Bool-cases, Result-cases, inl, inr, Option, none, some, List, false, [], if◌then◌else◌,
  Bytes, Result, ok, err, arith,
}
use s3ftpgateway.S3.Lazy.{Clients, region_of, s3, uploader, s3_again}
use s3ftpgateway.S3.Operations as Operations
use s3ftpgateway.S3.{S3Client, common_prefix, entry_info, filename}
use s3ftpgateway.Vfs.{VfsError, FileInfo, Reader, path_error, op_create, exist}

module _ {S E : Type 0} (new_from_config : Bytes → S3Client S) (get_bucket_region : Result E Bytes)
    (region : Bytes) (mime_type : Bytes → Bytes) (prefix : Bytes) where
  abbrev Called : Type 0 → Type 0
  Called R = Option (R × Clients (S3Client S) (S3Client S))

  abbrev FileClients : Type 0
  FileClients = Clients (S3Client S) (S3Client S)

  -- What stands behind a call of `s3`.
  abbrev behind_s3 : {R : Type 0} → (S3Client S → R) → FileClients → Called R
  behind_s3 f cs = elim (s3 new_from_config (λ c. c) get_bucket_region region cs) [
    | none ↦ none
    | some (c, cs') ↦ some (f c, cs')
  ]

  -- `Open`
  unfoldable pub open_file : S → Bytes → FileClients → Called (Result VfsError Bytes)
  open_file s name = behind_s3 (λ c. Operations.open_file c mime_type prefix s name)

  -- `Lstat` and `Stat`. The root needs no client.
  unfoldable pub lstat : S → Bytes → FileClients → Called (Result VfsError FileInfo)
  lstat s path cs =
      if Operations.is_root path
      then some (ok (entry_info (common_prefix [])), cs)
      else behind_s3 (λ c. Operations.lstat c mime_type prefix s path) cs

  -- `ReadDir`
  unfoldable pub read_dir : S → Bytes → FileClients → Called (Result VfsError (List FileInfo))
  read_dir s path = behind_s3 (λ c. Operations.read_dir c mime_type prefix s path)

  -- `Create`
  unfoldable pub create : S → Bytes → Reader → FileClients → Called (Result VfsError (Unit {0}) × S)
  unfolding lstat
  create s name body cs = elim (lstat s name cs) [
    | none ↦ none
    | some (r, cs') ↦
        let stored : Called (Result VfsError (Unit {0}) × S) =
          elim (uploader new_from_config (λ c. c) get_bucket_region region cs') [
            | none ↦ none
            | some (u, cs'') ↦ some (Operations.store_object u mime_type prefix s name body, cs'')
          ] in
        elim r [
          | err e ↦ if Operations.is_not_exist e then stored else some ((err e, s), cs')
          | ok info ↦
              if info.is_dir
              then some ((err (path_error op_create (filename name) exist), s), cs')
              else stored
        ]
  ]

  -- `Mkdir`
  unfoldable pub mkdir : S → Bytes → FileClients → Called (Result VfsError (Unit {0}) × S)
  unfolding lstat
  mkdir s name cs = elim (lstat s name cs) [
    | none ↦ none
    | some (err e, cs') ↦
        if Operations.is_not_exist e
        then behind_s3 (λ c. Operations.put_directory c mime_type prefix s name) cs'
        else some ((err e, s), cs')
    | some (ok info, cs') ↦ some ((err (path_error op_create (filename name) exist), s), cs')
  ]

  -- `Remove`
  unfoldable pub remove : S → Bytes → FileClients → Called (Result VfsError (Unit {0}) × S)
  unfolding lstat
  remove s name cs = elim (lstat s name cs) [
    | none ↦ none
    | some (err e, cs') ↦ some ((err e, s), cs')
    | some (ok info, cs') ↦
        behind_s3 (λ c. Operations.remove_found c mime_type prefix s name info) cs'
  ]

  module _ (cs cs' : FileClients) (c : S3Client S)
      (made : s3 new_from_config (λ u. u) get_bucket_region region cs ≡ some (c, cs')) where
    again : s3 new_from_config (λ u. u) get_bucket_region region cs' ≡ some (c, cs')
    again = s3_again new_from_config (λ u. u) get_bucket_region region region cs cs' c made

    -- Where s3 returns a client, the methods do with it what Operations has.
    open_file_lem :
        (s : S) (name : Bytes)
        → open_file s name cs ≡ some (Operations.open_file c mime_type prefix s name, cs')
    unfolding open_file
    open_file_lem s name = ground (arith, made)

    read_dir_lem :
        (s : S) (path : Bytes)
        → read_dir s path cs ≡ some (Operations.read_dir c mime_type prefix s path, cs')
    unfolding read_dir
    read_dir_lem s path = ground (arith, made)

    lstat_lem :
        (s : S) (path : Bytes)
        → Operations.is_root path ≡ false
        → lstat s path cs ≡ some (Operations.lstat c mime_type prefix s path, cs')
    unfolding lstat
    lstat_lem s path below = ground (arith, made, below)

    remove_lem :
        (s : S) (name : Bytes)
        → Operations.is_root name ≡ false
        → remove s name cs ≡ some (Operations.remove c mime_type prefix s name, cs')
    unfolding remove Operations.remove
    remove_lem s name below = ground (arith, lstat_lem s name below, again)

    mkdir_lem :
        (s : S) (name : Bytes)
        → Operations.is_root name ≡ false
        → mkdir s name cs ≡ some (Operations.mkdir c mime_type prefix s name, cs')
    unfolding mkdir Operations.mkdir
    mkdir_lem s name below = ground (arith, lstat_lem s name below, again)

    uploader_lem :
        cs'.uploaderapi ≡ none
        → uploader new_from_config (λ u. u) get_bucket_region region cs'
          ≡ some (c, record cs' { uploaderapi = some c })
    unfolding uploader
    uploader_lem fresh = ground (arith, again, fresh)

    create_lem :
        (s : S) (name : Bytes) (body : Reader)
        → Operations.is_root name ≡ false
        → cs'.uploaderapi ≡ none
        → (cs'' : FileClients) × (create s name body cs
            ≡ some (Operations.create c mime_type prefix s name body, cs''))
    unfolding create Operations.create
    create_lem s name body below fresh =
        let l = lstat_lem s name below in
        let u = uploader_lem fresh in
        let uploads : FileClients = record cs' { uploaderapi = some c } in
        elim (Result-cases (Operations.lstat c mime_type prefix s name)) [
          | inl (info, e) ↦ elim (Bool-cases info.is_dir) [
            | inl dir ↦ (cs', ground (arith, l, e, dir))
            | inr file ↦ (uploads, ground (arith, l, u, e, file))
          ]
          | inr (x, e) ↦ elim (Bool-cases (Operations.is_not_exist x)) [
            | inl missing ↦ (uploads, ground (arith, l, u, e, missing))
            | inr failed ↦ (cs', ground (arith, l, e, failed))
          ]
        ]

  -- Without a client, and where the region is not to be had, a method that needs one panics.
  open_file-panics :
      (s : S) (name : Bytes) (cs : FileClients)
      → cs.s3api ≡ none
      → region_of new_from_config (λ (u : S3Client S). u) get_bucket_region region ≡ none
      → open_file s name cs ≡ none
  unfolding open_file s3
  open_file-panics s name cs unmade unknown = ground (arith, unmade, unknown)
