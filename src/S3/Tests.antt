-- ===== src/S3/Tests.antt =====
-- vfs/s3fs/s3vfs.go on a bucket that is a map, and on a listing of two pages.
use s3ftpgateway.Base.{
  ℕ, ◌≡◌, ◌≢◌, ◌⊎◌, refl, true, false, Option, none, some, List, [], ◌∷◌, ◌==◌, map, if◌then◌else◌,
  Bytes, beq, beq_iff, beq_refl, codes, ok, err, arith, Bool-cases, inl, inr,
}
use s3ftpgateway.GoMap.{lookup, insert, delete}
use s3ftpgateway.GoMap.Laws.{lookup-insert, lookup-delete}
use s3ftpgateway.GoPath.{
  slash, clean, join, base, join_reversed, push_elements, push_element, is_abs,
}
use s3ftpgateway.MapFs.{Store}
use s3ftpgateway.Text.{trim_prefix, split, has_prefix, less}
use s3ftpgateway.Vfs.{other, not_exist, op_open, op_remove, path_error, FileInfo, Reader}
use s3ftpgateway.S3.{
  response_error, other_error, Object, Page, ListInput, S3Client, filekey, dirkey, filename, Entry,
  entry_info, first_entry, ext,
}
use s3ftpgateway.S3.Operations.{
  list_input, any_key, open_file, lstat_entry, lstat, read_dir, create, remove,
}
use s3ftpgateway.S3.Bucket.{IsBucket}
use s3ftpgateway.S3.Files.{opened-create, opened-remove}
use s3ftpgateway.S3.Directories.{remove_directory}
use s3ftpgateway.S3.Keys.{filekey-has_prefix}
use s3ftpgateway.S3.Merge.{IsSorted, AreInOrder, all_entries, read_dir-merges}
use mathlib.Core.List.{Perm}

cons_some : ℕ → Option Bytes → Option Bytes
cons_some b none = none
cons_some b (some bs) = some (b ∷ bs)

up_to_slash : Bytes → Option Bytes
up_to_slash [] = none
up_to_slash (b ∷ bs) = if b == slash then some (b ∷ []) else cons_some b (up_to_slash bs)

-- A key up to the first slash behind the prefix, if there is one.
roll_up : Bytes → Bytes → Option Bytes
roll_up k [] = up_to_slash k
roll_up [] (p ∷ ps) = none
roll_up (b ∷ bs) (p ∷ ps) = cons_some b (roll_up bs ps)

up_to_slash-has_prefix : (k q : Bytes) → up_to_slash k ≡ some q → has_prefix k q ≡ true
unfolding up_to_slash cons_some has_prefix
up_to_slash-has_prefix k [] e = refl
up_to_slash-has_prefix [] (q ∷ qs) e = cc
up_to_slash-has_prefix (b ∷ bs) (q ∷ qs) e = ground (arith, up_to_slash-has_prefix bs qs)

roll_up-has_prefix : (k p q : Bytes) → roll_up k p ≡ some q → has_prefix k q ≡ true
unfolding roll_up cons_some has_prefix
roll_up-has_prefix k p [] e = refl
roll_up-has_prefix k [] (q ∷ qs) e = up_to_slash-has_prefix k (q ∷ qs) e
roll_up-has_prefix [] (p ∷ ps) (q ∷ qs) e = cc
roll_up-has_prefix (b ∷ bs) (p ∷ ps) (q ∷ qs) e = ground (arith, roll_up-has_prefix bs ps qs)

abbrev one_object : Bytes → Page
one_object k = record {
  contents = record { key = k; size = 0; last_modified = 0 } ∷ [];
  common_prefixes = [];
  key_count = 1;
}

abbrev page_of : Bytes → Bytes → Bytes → Page
page_of k p [] = one_object k
page_of k p (d ∷ ds) = elim (roll_up k p) [
  | none ↦ one_object k
  | some q ↦ record { contents = []; common_prefixes = q ∷ []; key_count = 1 }
]

-- One entry at most.
first_page : ListInput → Store → Page
first_page inp [] = record { contents = []; common_prefixes = []; key_count = 0 }
first_page inp ((k, v) ∷ m) =
    if has_prefix k inp.prefix then page_of k inp.prefix inp.delimiter else first_page inp m

abbrev bucket : S3Client Store
bucket = record {
  get_object = λ s k. elim (lookup k s) [ none ↦ err (response_error 404) | some c ↦ ok c ];
  list_objects = λ s inp. ok (first_page inp s);
  pages = λ s inp. ok (first_page inp s) ∷ [];
  upload = λ s k t r. if r.fails then (err other_error, s) else (ok tt, insert k r.content s);
  put_object = λ s k b. (ok tt, insert k b s);
  delete_object = λ s k. (ok tt, delete k s);
}

abbrev content : Store → Bytes → Option Bytes
content s k = lookup k s

first_page-prefix :
    (s : Store) (p q : Bytes) (qs : List Bytes)
    → (first_page (list_input p 1) s).common_prefixes ≡ q ∷ qs
    → (k : Bytes) × (c : Bytes) × (lookup k s ≡ some c) × (has_prefix k q ≡ true)
unfolding first_page lookup
first_page-prefix [] p q qs e = cc
first_page-prefix ((k, v) ∷ m) p q qs e = elim (Bool-cases (has_prefix k p)) [
  | inl here ↦ (k, v, ground (arith, beq_refl k), roll_up-has_prefix k p q (ground arith))
  | inr there ↦
      let (j, c, at, below) = first_page-prefix m p q qs (ground arith) in
      elim (Bool-cases (beq k j)) [
        | inl same ↦ (j, v, rw same refl, below)
        | inr differ ↦ (j, c, ground arith, below)
      ]
]

first_page-no_keys :
    (s : Store) (p k : Bytes)
    → (first_page (any_key p) s).key_count ≡ 0
    → has_prefix k p ≡ true
    → lookup k s ≡ none
unfolding first_page lookup
first_page-no_keys [] p k e h = refl
first_page-no_keys ((j, v) ∷ m) p k e h = ground (arith, beq_iff j k, first_page-no_keys m p k)

bucket-IsBucket : IsBucket bucket content
bucket-IsBucket = record {
  get_found = λ s k c e. ground arith;
  get_missing = λ s k e. ground arith;
  uploaded = λ s s' k t r e. (ground arith, λ j. ground (arith, lookup-insert k j r.content s));
  deleted = λ s s' k e j. ground (arith, lookup-delete k j s);
  first_prefix = λ s p q qs page e f. first_page-prefix s p q qs (ground arith);
  no_keys = λ s p k page e z h. first_page-no_keys s p k (ground arith) h;
}

abbrev readme : Bytes
readme = codes "a.txt"

abbrev docs : Bytes
docs = codes "docs"

abbrev hello : Reader
hello = record { content = 104 ∷ 105 ∷ []; fails = false }

-- One file and, below a directory, the object that `Mkdir` puts there.
abbrev store : Store
store = (codes "a.txt", 1 ∷ []) ∷ (codes "docs/", []) ∷ []

abbrev with_new : Store
with_new = (codes "a.txt", 104 ∷ 105 ∷ []) ∷ (codes "docs/", []) ∷ []

abbrev no_type : Bytes → Bytes
no_type e = []

created : create bucket no_type [] store readme hello ≡ (ok tt, with_new)
unfolding create lstat lstat_entry first_entry filekey dirkey filename entry_info first_page lookup
    insert beq codes has_prefix trim_prefix clean join base split join_reversed push_elements
    push_element roll_up up_to_slash cons_some ext
created = refl

removed : remove bucket no_type [] store readme ≡ (ok tt, (codes "docs/", []) ∷ [])
unfolding remove lstat lstat_entry first_entry filekey dirkey filename entry_info first_page lookup
    delete beq codes has_prefix trim_prefix clean join base split join_reversed push_elements
    push_element roll_up up_to_slash cons_some
removed = refl

abbrev docs_info : FileInfo
docs_info = record { name = docs; size = 0; mode = 0o755; mod_time = 0; is_dir = true }

docs_found : lstat bucket no_type [] store docs ≡ ok docs_info
unfolding lstat lstat_entry first_entry filekey dirkey filename entry_info first_page lookup beq
    codes has_prefix trim_prefix clean join base split join_reversed push_elements push_element
    roll_up up_to_slash cons_some
docs_found = refl

docs_key : filekey [] docs ≢ []
unfolding filekey codes has_prefix trim_prefix clean join split join_reversed push_elements
    push_element beq
docs_key e = cc

opened-create_example :
    (hello.fails ≡ false)
    × (open_file bucket no_type [] with_new docs ≡ (
        if beq (filekey [] readme) (filekey [] docs)
        then ok hello.content
        else open_file bucket no_type [] store docs))
opened-create_example =
    opened-create bucket no_type [] content bucket-IsBucket store with_new readme docs hello created

opened-remove_example : open_file bucket no_type [] ((codes "docs/", []) ∷ []) readme ≡ (
    if beq (filekey [] readme) (filekey [] readme)
    then err (path_error op_open (filename readme) not_exist)
    else open_file bucket no_type [] store readme)
opened-remove_example =
    opened-remove bucket no_type [] content bucket-IsBucket store ((codes "docs/", []) ∷ []) readme
      readme removed

remove_directory_example :
    remove bucket no_type [] store docs ≡ (err (path_error op_remove (filename docs) other), store)
unfolding beq codes
remove_directory_example =
    remove_directory bucket no_type [] content bucket-IsBucket store docs docs_info docs_found refl
      refl docs_key

abbrev listed : Bytes → Object
listed k = record { key = k; size = 1; last_modified = 0 }

-- A directory between two files, and a directory on the next page.
abbrev two_pages : List Page
two_pages =
    record {
      contents = listed (codes "a") ∷ listed (codes "c") ∷ [];
      common_prefixes = codes "b/" ∷ [];
      key_count = 3;
    }
    ∷ record { contents = []; common_prefixes = codes "d/" ∷ []; key_count = 1 }
    ∷ []

abbrev paged : S3Client Store
paged = record bucket { pages = λ s inp. map ok two_pages }

two_pages-AreInOrder : AreInOrder two_pages
unfolding less codes
two_pages-AreInOrder = (
  ((refl, tt), (tt, tt)),
  (tt, tt),
  ((refl, tt), ((refl, tt), ((refl, tt), tt))),
  (tt, (tt, tt), (tt, tt), tt),
)

read_dir-merges_example :
    (es : List Entry) × (read_dir paged no_type [] store [] ≡ ok (map entry_info es))
    × Perm es (all_entries two_pages)
    × IsSorted es
read_dir-merges_example =
    read_dir-merges paged no_type [] store [] two_pages refl two_pages-AreInOrder

abbrev home : Bytes
home = codes "home"

home-key : filekey home [] ≢ codes "."
unfolding filekey codes has_prefix trim_prefix clean join split join_reversed push_elements
    push_element beq is_abs
home-key e = cc

-- A name that tries to climb out of the prefix.
filekey-has_prefix_example :
    (filekey home (codes "../../etc") ≡ filekey home [])
    ⊎ (has_prefix (filekey home (codes "../../etc")) (dirkey home []) ≡ true)
unfolding codes
filekey-has_prefix_example = filekey-has_prefix home (codes "../../etc") home-key
