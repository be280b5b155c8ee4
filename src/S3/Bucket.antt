-- ===== src/S3/Bucket.antt =====
-- What vfs/s3fs/s3vfs.go relies on of a bucket: the documented behaviour of S3's requests, by the
-- contents that stand under its keys.
use s3ftpgateway.Base.{
  ◌≡◌, true, false, Option, none, some, List, ◌∷◌, if◌then◌else◌, Bytes, beq, ok, err,
}
use s3ftpgateway.Text.{has_prefix}
use s3ftpgateway.Vfs.{Reader}
use s3ftpgateway.S3.{response_error, Page, S3Client}
use s3ftpgateway.S3.Operations.{list_input, any_key}

module _ {S : Type 0} (client : S3Client S) (content : S → Bytes → Option Bytes) where
  -- A request that writes may fail; nothing is assumed of it then. A read gives the object or the
  -- status 404, and a listing, where it succeeds, tells of objects that are there.
  pub record IsBucket : Type 0 where
    pub get_found : (s : S) (k c : Bytes) → content s k ≡ some c → client.get_object s k ≡ ok c
    pub get_missing :
        (s : S) (k : Bytes) → content s k ≡ none → client.get_object s k ≡ err (response_error 404)
    pub uploaded :
        (s s' : S) (k t : Bytes) (r : Reader)
        → client.upload s k t r ≡ (ok tt, s')
        → (r.fails ≡ false)
          × ((j : Bytes) → content s' j ≡ (if beq k j then some r.content else content s j))
    pub deleted :
        (s s' : S) (k : Bytes)
        → client.delete_object s k ≡ (ok tt, s')
        → (j : Bytes) → content s' j ≡ (if beq k j then none else content s j)
    pub first_prefix :
        (s : S) (p q : Bytes) (qs : List Bytes) (page : Page)
        → client.list_objects s (list_input p 1) ≡ ok page
        → page.common_prefixes ≡ q ∷ qs
        → (k : Bytes) × (c : Bytes) × (content s k ≡ some c) × (has_prefix k q ≡ true)
    pub no_keys :
        (s : S) (p k : Bytes) (page : Page)
        → client.list_objects s (any_key p) ≡ ok page
        → page.key_count ≡ 0
        → has_prefix k p ≡ true
        → content s k ≡ none
