-- ===== src/S3/Merge.antt =====
-- The loops of `ReadDir` in vfs/s3fs/s3vfs.go: what they list, and in which order.
use s3ftpgateway.Base.{
  ◌≡◌, refl, ap, ◌∙◌, false, List, [], ◌∷◌, ◌++◌, map, append-nil, Bytes, ok, arith, Bool-cases,
  inl, inr,
}
use s3ftpgateway.Text.{less}
use s3ftpgateway.Text.Order.{not_less_trans, less-asym}
use s3ftpgateway.S3.{
  S3Client, Object, Page, Entry, object, common_prefix, entry_info, merge, merge_pages, dirkey,
}
use s3ftpgateway.S3.Operations.{list_input, read_entries, read_dir}
use mathlib.Core.List.{Perm, perm_middle}
use mathlib.Core.List.Perm

-- The key or the prefix.
abbrev pub entry_key : Entry → Bytes
entry_key (object o) = o.key
entry_key (common_prefix p) = p

abbrev pub All : (Entry → Type 0) → List Entry → Type 0
All P [] = Unit
All P (e ∷ es) = P e × All P es

abbrev pub NotBelow : Bytes → Entry → Type 0
NotBelow k e = less (entry_key e) k ≡ false

-- No key is less than an earlier one.
abbrev pub IsSorted : List Entry → Type 0
IsSorted [] = Unit
IsSorted (e ∷ es) = All (NotBelow (entry_key e)) es × IsSorted es

-- The entries of a page, and of several.
abbrev pub page_entries : List Object → List Bytes → List Entry
page_entries contents prefixes = map object contents ++ map common_prefix prefixes

abbrev pub all_entries : List Page → List Entry
all_entries [] = []
all_entries (p ∷ ps) = page_entries p.contents p.common_prefixes ++ all_entries ps

merge-Perm :
    (contents : List Object) (prefixes : List Bytes)
    → Perm (merge contents prefixes) (page_entries contents prefixes)
unfolding merge
merge-Perm [] prefixes = Perm.rfl
merge-Perm (c ∷ contents) [] = rw append-nil Perm.rfl
merge-Perm (c ∷ contents) (p ∷ prefixes) = elim (Bool-cases (less c.key p)) [
  | inl first ↦ rw first (Perm.cons (object c) (merge-Perm contents (p ∷ prefixes)))
  | inr later ↦ rw later (
      Perm.trans (Perm.cons (common_prefix p) (merge-Perm (c ∷ contents) prefixes))
        (Perm.symm (perm_middle (map object (c ∷ contents)) (map common_prefix prefixes))))
]

module _ (P : Entry → Type 0) where
  All-append : (xs ys : List Entry) → All P xs → All P ys → All P (xs ++ ys)
  All-append [] ys h k = k
  All-append (x ∷ xs) ys h k = (h.0, All-append xs ys h.1 k)

  append-All : (xs ys : List Entry) → All P (xs ++ ys) → All P xs × All P ys
  append-All [] ys h = (tt, h)
  append-All (x ∷ xs) ys h = let (l, r) = append-All xs ys h.1 in ((h.0, l), r)

  All-merge :
      (contents : List Object) (prefixes : List Bytes)
      → All P (map object contents)
      → All P (map common_prefix prefixes)
      → All P (merge contents prefixes)
  unfolding merge
  All-merge [] prefixes h k = k
  All-merge (c ∷ contents) [] h k = h
  All-merge (c ∷ contents) (p ∷ prefixes) h k = elim (Bool-cases (less c.key p)) [
    | inl first ↦ rw first (h.0, All-merge contents (p ∷ prefixes) h.1 k)
    | inr later ↦ rw later (k.0, All-merge (c ∷ contents) prefixes h k.1)
  ]

All-trans :
    (a b : Bytes) (es : List Entry) → less b a ≡ false → All (NotBelow b) es → All (NotBelow a) es
All-trans a b [] p h = tt
All-trans a b (e ∷ es) p h = (not_less_trans a b (entry_key e) p h.0, All-trans a b es p h.1)

merge-IsSorted :
    (contents : List Object) (prefixes : List Bytes)
    → IsSorted (map object contents)
    → IsSorted (map common_prefix prefixes)
    → IsSorted (merge contents prefixes)
unfolding merge
merge-IsSorted [] prefixes h k = k
merge-IsSorted (c ∷ contents) [] h k = h
merge-IsSorted (c ∷ contents) (p ∷ prefixes) h k = elim (Bool-cases (less c.key p)) [
  | inl first ↦
      let after : less p c.key ≡ false = less-asym c.key p first in
      rw first (
        All-merge _ contents (p ∷ prefixes) h.0
            (after, All-trans c.key p (map common_prefix prefixes) after k.0),
        merge-IsSorted contents (p ∷ prefixes) h.1 k,
      )
  | inr later ↦ rw later (
    All-merge _ (c ∷ contents) prefixes (later, All-trans p c.key (map object contents) later h.0)
        k.0,
    merge-IsSorted (c ∷ contents) prefixes h k.1,
  )
]

append-IsSorted :
    (xs ys : List Entry)
    → IsSorted xs
    → IsSorted ys
    → All (λ e. All (NotBelow (entry_key e)) ys) xs
    → IsSorted (xs ++ ys)
append-IsSorted [] ys h k a = k
append-IsSorted (x ∷ xs) ys h k a = (All-append _ xs ys h.0 a.0, append-IsSorted xs ys h.1 k a.1)

-- The entries of the pages, each page merged.
abbrev merged : List Page → List Entry
merged [] = []
merged (p ∷ ps) = merge p.contents p.common_prefixes ++ merged ps

merge_pages-ok : (ps : List Page) → merge_pages (map ok ps) ≡ ok (merged ps)
unfolding merge_pages
merge_pages-ok [] = refl
merge_pages-ok (p ∷ ps) = rw (merge_pages-ok ps) refl

merged-Perm : (ps : List Page) → Perm (merged ps) (all_entries ps)
merged-Perm [] = Perm.rfl
merged-Perm (p ∷ ps) = Perm.append (merge-Perm p.contents p.common_prefixes) (merged-Perm ps)

-- A listing in the order of the keys: each list of a page, and the pages one after the other.
abbrev pub AreInOrder : List Page → Type 0
AreInOrder [] = Unit
AreInOrder (p ∷ ps) =
    IsSorted (map object p.contents)
    × IsSorted (map common_prefix p.common_prefixes)
    × All (λ e. All (NotBelow (entry_key e)) (all_entries ps))
        (page_entries p.contents p.common_prefixes)
    × AreInOrder ps

All-merged : (P : Entry → Type 0) (ps : List Page) → All P (all_entries ps) → All P (merged ps)
All-merged P [] h = tt
All-merged P (p ∷ ps) h =
    let (here, there) =
      append-All P (page_entries p.contents p.common_prefixes) (all_entries ps) h in
    let (objects, prefixes) = append-All P (map object p.contents) _ here in
    All-append P (merge p.contents p.common_prefixes) (merged ps)
      (All-merge P p.contents p.common_prefixes objects prefixes) (All-merged P ps there)

All-map : (P Q : Entry → Type 0) (es : List Entry) → ((e : Entry) → P e → Q e) → All P es → All Q es
All-map P Q [] f h = tt
All-map P Q (e ∷ es) f h = (f e h.0, All-map P Q es f h.1)

merged-IsSorted : (ps : List Page) → AreInOrder ps → IsSorted (merged ps)
merged-IsSorted [] h = tt
merged-IsSorted (p ∷ ps) (objects, prefixes, before, rest) =
    let P : Entry → Type 0 = λ e. All (NotBelow (entry_key e)) (merged ps) in
    let (l, r) =
      append-All P (map object p.contents) _
        (All-map _ P _ (λ e. All-merged (NotBelow (entry_key e)) ps) before) in
    append-IsSorted (merge p.contents p.common_prefixes) (merged ps)
      (merge-IsSorted p.contents p.common_prefixes objects prefixes) (merged-IsSorted ps rest)
      (All-merge P p.contents p.common_prefixes l r)

module _ {S : Type 0} (client : S3Client S) (mime_type : Bytes → Bytes) (prefix : Bytes) where
  read_entries-merged :
      (s : S) (path : Bytes) (ps : List Page)
      → client.pages s (list_input (dirkey prefix path) 1000) ≡ map ok ps
      → read_entries client mime_type prefix s path ≡ ok (merged ps)
  unfolding read_entries
  read_entries-merged s path ps listed = ap merge_pages listed ∙ merge_pages-ok ps

  -- If the paginator gives pages without an error, whose objects and prefixes are in the order of
  -- their keys within each page and from page to page: ReadDir succeeds, and its entries are a
  -- permutation of all the objects and prefixes of the pages, in the order of their keys.
  pub read_dir-merges :
      (s : S) (path : Bytes) (ps : List Page)
      → client.pages s (list_input (dirkey prefix path) 1000) ≡ map ok ps
      → AreInOrder ps
      → (es : List Entry) × (read_dir client mime_type prefix s path ≡ ok (map entry_info es))
        × Perm es (all_entries ps)
        × IsSorted es
  unfolding read_dir
  read_dir-merges s path ps listed order = (
    merged ps,
    ground (arith, read_entries-merged s path ps listed),
    merged-Perm ps,
    merged-IsSorted ps order,
  )
