-- ===== src/S3/Directories.antt =====
-- Remove of vfs/s3fs/s3vfs.go on directories.
use s3ftpgateway.Base.{
  ◌≡◌, ◌≢◌, refl, true, false, Option, some, List, [], ◌∷◌, ◌++◌, Bytes, beq_iff, ok, err, arith,
  Option-cases, Result-cases, inl, inr,
}
use s3ftpgateway.GoPath.{slash}
use s3ftpgateway.Vfs.{other, op_remove, path_error, FileInfo}
use s3ftpgateway.S3.{
  S3Client, Page, filekey, dirkey, filename, Entry, Object, entry_info, first_entry, slashed,
  first_object,
}
use s3ftpgateway.S3.Operations.{is_root, list_input, any_key, lstat_entry, lstat, remove}
use s3ftpgateway.S3.Bucket.{IsBucket}

first_object-is_dir :
    (file : Bytes) (os : List Object) (e : Entry)
    → first_object file os ≡ some e
    → (entry_info e).is_dir ≡ false
unfolding entry_info
first_object-is_dir file [] e h = cc
first_object-is_dir file (o ∷ os) e h = ground arith

-- A directory is found only as the first prefix of the page.
first_entry-is_dir :
    (file : Bytes) (page : Page) (e : Entry)
    → first_entry file page ≡ some e
    → (entry_info e).is_dir ≡ true
    → (qs : List Bytes) × (page.common_prefixes ≡ (file ++ slash ∷ []) ∷ qs)
unfolding first_entry
first_entry-is_dir file page e h d = go page.common_prefixes refl
  where
    go :
        (ps : List Bytes)
        → page.common_prefixes ≡ ps
        → (qs : List Bytes) × (page.common_prefixes ≡ (file ++ slash ∷ []) ∷ qs)
    go [] p = absurd (ground (arith, first_object-is_dir file page.contents e))
    go (q ∷ qs) p = (
      qs,
      ground (arith, beq_iff q (file ++ slash ∷ []), first_object-is_dir file page.contents e),
    )

slashed-append : (p : Bytes) → p ≢ [] → slashed p ≡ p ++ slash ∷ []
slashed-append [] h = absurd (h refl)
slashed-append (b ∷ bs) h = refl

module _ {S : Type 0} (client : S3Client S) (mime_type : Bytes → Bytes) (prefix : Bytes) where
  lstat-is_dir :
      (s : S) (name : Bytes) (info : FileInfo)
      → is_root name ≡ false
      → lstat client mime_type prefix s name ≡ ok info
      → info.is_dir ≡ true
      → (page : Page) × (qs : List Bytes) × (client.list_objects s
            (list_input (filekey prefix name) 1)
          ≡ ok page)
        × (page.common_prefixes ≡ (filekey prefix name ++ slash ∷ []) ∷ qs)
  unfolding lstat lstat_entry
  lstat-is_dir s name info r h d =
      elim (Result-cases (client.list_objects s (list_input (filekey prefix name) 1))) [
        | inr (x, fails) ↦ absurd (ground arith)
        | inl (page, listed) ↦ elim (Option-cases (first_entry (filekey prefix name) page)) [
          | inl missing ↦ absurd (ground arith)
          | inr (e, found) ↦
              let (qs, at) = first_entry-is_dir (filekey prefix name) page e found (ground arith) in
              (page, qs, listed, at)
        ]
      ]

  module _ (content : S → Bytes → Option Bytes) (bucket : IsBucket client content) where
    -- Over a bucket with the documented behaviour: where Lstat finds a directory, other than the
    -- root and with a key that is not empty, Remove fails with an error that is not of a known
    -- kind and changes nothing, even if the directory is empty.
    pub remove_directory :
        (s : S) (name : Bytes) (info : FileInfo)
        → lstat client mime_type prefix s name ≡ ok info
        → info.is_dir ≡ true
        → is_root name ≡ false
        → filekey prefix name ≢ []
        → remove client mime_type prefix s name
          ≡ (err (path_error op_remove (filename name) other), s)
    unfolding remove dirkey
    remove_directory s name info found d root key =
        let (page, qs, listed, at) = lstat-is_dir s name info root found d in
        let file = filekey prefix name in
        let (k, c, there, below) =
          bucket.first_prefix s file (file ++ slash ∷ []) qs page listed at in
        let same = slashed-append file key in
        elim (Result-cases (client.list_objects s (any_key (slashed file)))) [
          | inr (x, fails) ↦ ground arith
          | inl (keys, some_key) ↦ ground (arith, bucket.no_keys s (slashed file) k keys some_key)
        ]
