-- ===== src/S3/Files.antt =====
-- Create, Open and Remove of vfs/s3fs/s3vfs.go, over the contents of the bucket.
use s3ftpgateway.Base.{
  ◌≡◌, ◌∙◌, refl, beq_refl, false, Option, none, some, if◌then◌else◌, Bytes, beq, Result, ok, err,
  arith, Option-cases, inl, inr,
}
use s3ftpgateway.Vfs.{VfsError, Op, not_exist, op_open, path_error, Reader, Keeps}
use s3ftpgateway.S3.{S3Client, AwsError, filekey, filename}
use s3ftpgateway.S3.Operations.{written, store_object, delete_key, open_file, create, remove, s3_fs}
use s3ftpgateway.S3.Bucket.{IsBucket}

module _ {S : Type 0} (client : S3Client S) (mime_type : Bytes → Bytes) (prefix : Bytes) where
  -- What Open gives, by the content under the key.
  abbrev pub opened : Bytes → Option Bytes → Result VfsError Bytes
  opened name (some c) = ok c
  opened name none = err (path_error op_open (filename name) not_exist)

  written-ok :
      (op : Op) (name : Bytes) (r : Result AwsError (Unit {0}) × S) (s' : S)
      → written client mime_type prefix op name r ≡ (ok tt, s')
      → r ≡ (ok tt, s')
  written-ok op name (ok u, s) s' e = ground arith
  written-ok op name (err x, s) s' e = cc

  -- A successful Create has uploaded the body under the key of the name.
  create-uploads :
      (s s' : S) (name : Bytes) (body : Reader)
      → create client mime_type prefix s name body ≡ (ok tt, s')
      → store_object client mime_type prefix s name body ≡ (ok tt, s')
  unfolding create
  create-uploads s s' name body e = ground arith

  -- A successful Remove has deleted the key of the name.
  remove-deletes :
      (s s' : S) (name : Bytes)
      → remove client mime_type prefix s name ≡ (ok tt, s')
      → delete_key client mime_type prefix s name ≡ (ok tt, s')
  unfolding remove
  remove-deletes s s' name e = ground arith

  module _ (content : S → Bytes → Option Bytes) (bucket : IsBucket client content) where
    open_file-content :
        (s : S) (name : Bytes)
        → open_file client mime_type prefix s name ≡ opened name (content s (filekey prefix name))
    unfolding open_file
    open_file-content s name = elim (Option-cases (content s (filekey prefix name))) [
      | inl missing ↦ ground (arith, bucket.get_missing s (filekey prefix name) missing)
      | inr (c, found) ↦ ground (arith, bucket.get_found s (filekey prefix name) c found)
    ]

    -- Over a bucket with the documented behaviour, after a successful Create: the body was read
    -- without an error, Open gives it under each name with the same key, and under every other
    -- name what it gave before.
    pub opened-create :
        (s s' : S) (name q : Bytes) (body : Reader)
        → create client mime_type prefix s name body ≡ (ok tt, s')
        → (body.fails ≡ false)
          × (open_file client mime_type prefix s' q ≡ (
              if beq (filekey prefix name) (filekey prefix q)
              then ok body.content
              else open_file client mime_type prefix s q))
    opened-create s s' name q body e =
        let (reads, content') =
          bucket.uploaded s s' (filekey prefix name) _ body
            (written-ok _ name _ s' (create-uploads s s' name body e)) in
        (
          reads,
          ground
              (arith, content' (filekey prefix q), open_file-content s q, open_file-content s' q),
        )

    -- Over a bucket with the documented behaviour, after a successful Remove: Open fails with not-
    -- exist under each name with the same key, and under every other name it gives what it gave
    -- before.
    pub opened-remove :
        (s s' : S) (name q : Bytes)
        → remove client mime_type prefix s name ≡ (ok tt, s')
        → open_file client mime_type prefix s' q ≡ (
            if beq (filekey prefix name) (filekey prefix q)
            then err (path_error op_open (filename q) not_exist)
            else open_file client mime_type prefix s q)
    opened-remove s s' name q e =
        let content' =
          bucket.deleted s s' (filekey prefix name)
            (written-ok _ name _ s' (remove-deletes s s' name e)) in
        ground (arith, content' (filekey prefix q), open_file-content s q, open_file-content s' q)

    pub s3_fs-Keeps : Keeps (s3_fs client mime_type prefix)
    unfolding s3_fs
    s3_fs-Keeps = record {
      gives = λ s s' name body e.
          (opened-create s s' name name body e).1 ∙ rw (beq_refl (filekey prefix name)) refl;
    }
