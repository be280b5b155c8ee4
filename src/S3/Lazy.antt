-- ===== src/S3/Lazy.antt =====
-- vfs/s3fs/s3vfs.go: `s3` and `uploader`, which make their clients at the first call. A panic is none.
use s3ftpgateway.Base.{
  ◌≡◌, Option, none, some, [], if◌then◌else◌, Bytes, beq, Result, ok, err, arith,
}

-- The fields of `FileSystem` that the two functions fill in.
pub record Clients (C U : Type 0) : Type 0 where
  pub s3api : Option C
  pub uploaderapi : Option U

module _ {C U E : Type 0} (new_from_config : Bytes → C) (new_uploader : C → U)
    (get_bucket_region : Result E Bytes) where
  -- The region of the configuration, or that of the bucket.
  abbrev pub region_of : Bytes → Option Bytes
  region_of region =
      if beq region []
      then (elim get_bucket_region [ err e ↦ none | ok r ↦ some r ])
      else some region

  -- `s3`, from the region of the configuration.
  unfoldable pub s3 : Bytes → Clients C U → Option (C × Clients C U)
  s3 region cs = elim cs.s3api [
    | some c ↦ some (c, cs)
    | none ↦ elim (region_of region) [
      | none ↦ none
      | some r ↦ some (new_from_config r, record cs { s3api = some (new_from_config r) })
    ]
  ]

  -- `uploader`
  unfoldable pub uploader : Bytes → Clients C U → Option (U × Clients C U)
  unfolding s3
  uploader region cs = elim (s3 region cs) [
    | none ↦ none
    | some (c, cs') ↦ elim cs'.uploaderapi [
      | some u ↦ some (u, cs')
      | none ↦ some (new_uploader c, record cs' { uploaderapi = some (new_uploader c) })
    ]
  ]

  -- The first client stays, whatever region is asked for later.
  pub s3_again :
      (r r' : Bytes) (cs cs' : Clients C U) (c : C)
      → s3 r cs ≡ some (c, cs')
      → s3 r' cs' ≡ some (c, cs')
  unfolding s3
  s3_again r r' cs cs' c e = ground arith
