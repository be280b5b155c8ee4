-- ===== src/S3/Keys.antt =====
-- The keys of vfs/s3fs/s3vfs.go: `filekey` and `dirkey` below the field `Prefix`.
use s3ftpgateway.Base.{
  ℕ, ◌≡◌, ◌≢◌, refl, ap, subst, ◌∙◌, ◌⊎◌, inl, inr, Bool, true, false, List, [], ◌∷◌, ◌++◌, ◌==◌,
  if◌then◌else◌, Bytes, arith,
}
use s3ftpgateway.GoPath.{
  slash, dot, push_element, push_elements, join_reversed, is_abs, clean, join, or_dot,
}
use s3ftpgateway.GoPath.Clean.{
  All, IsPlain, elements, elements-IsPlain, clean-elements, is_abs-slash,
}
use s3ftpgateway.GoPath.Parts.{
  IsStep, parts, parts-IsStep, push_elements-join, trim-join_reversed, join_reversed-append,
}
use s3ftpgateway.Text.{split, trim_prefix, has_prefix}
use s3ftpgateway.S3.{filekey, dirkey, slashed}

has_prefix-nil : (s : Bytes) → has_prefix s [] ≡ true
unfolding has_prefix
has_prefix-nil [] = refl
has_prefix-nil (x ∷ xs) = refl

has_prefix-append : (a b c : Bytes) → has_prefix (a ++ b) (a ++ c) ≡ has_prefix b c
unfolding has_prefix
has_prefix-append [] b c = refl
has_prefix-append (x ∷ xs) b c = ground (arith, has_prefix-append xs b c)

-- The elements of a name, which is taken from the root.
abbrev pub name_elements : Bytes → List Bytes
name_elements name = elements (slash ∷ name)

abbrev or_dot_if : Bool → Bytes → Bytes
or_dot_if true p = p
or_dot_if false p = or_dot p

-- A path of some elements, without the slash of the root.
trim-rooted :
    (r : Bool) (es : List Bytes)
    → All IsStep es
    → trim_prefix slash (if r then slash ∷ join_reversed es [] else or_dot (join_reversed es []))
      ≡ or_dot_if r (join_reversed es [])
trim-rooted true es h = unfold trim_prefix in refl
trim-rooted false [] h = unfold trim_prefix join_reversed in refl
trim-rooted false (e ∷ es) h = go (join_reversed (e ∷ es) []) (trim-join_reversed e es [] h)
  where
    go : (j : Bytes) → trim_prefix slash j ≡ j → trim_prefix slash (or_dot j) ≡ or_dot j
    go [] k = unfold trim_prefix in refl
    go (x ∷ xs) k = k

All-IsStep : (es ps : List Bytes) → All IsPlain es → All IsStep ps → All IsStep (es ++ ps)
All-IsStep [] ps h k = k
All-IsStep (e ∷ es) ps h k = ((h.0.0.0, h.0.0.2), All-IsStep es ps h.1 k)

-- The path of the prefix with the elements of a name, as `Clean` reads it.
abbrev body : Bool → Bytes → Bytes → Bytes
body r prefix name =
    join_reversed
      (push_elements r []
        (split slash (prefix ++ slash ∷ slash ∷ join_reversed (name_elements name) [])))
      []

filekey-body :
    (b : ℕ) (bs name : Bytes)
    → filekey (b ∷ bs) name
      ≡ trim_prefix slash (
          if b == slash
          then slash ∷ body (b == slash) (b ∷ bs) name
          else or_dot (body (b == slash) (b ∷ bs) name))
unfolding filekey join
filekey-body b bs name =
    ap (λ n. trim_prefix slash (clean ((b ∷ bs) ++ slash ∷ n)))
      (clean-elements (slash ∷ name) (is_abs-slash name))
    ∙ unfold clean is_abs in refl

-- The elements of the name stand behind those of the prefix.
filekey-elements :
    (b : ℕ) (bs name : Bytes)
    → filekey (b ∷ bs) name
      ≡ or_dot_if (b == slash) (join_reversed (name_elements name ++ parts (b ∷ bs)) [])
filekey-elements b bs name =
    let r = b == slash in
    let plain = elements-IsPlain (slash ∷ name) in
    let all = name_elements name ++ push_elements r [] (split slash (b ∷ bs)) in
    filekey-body b bs name
    ∙ ap
        (λ es.
          trim_prefix slash
            (if r then slash ∷ join_reversed es [] else or_dot (join_reversed es [])))
        (push_elements-join r (b ∷ bs) (name_elements name) plain)
    ∙ trim-rooted r all
        (All-IsStep (name_elements name) _ plain (unfold is_abs in parts-IsStep (b ∷ bs)))
    ∙ unfold is_abs in refl

-- What stands behind a path and a slash is below it, unless that path is ".".
is_below :
    (r : Bool) (p rest : Bytes)
    → or_dot_if r p ≢ dot
    → has_prefix (or_dot_if r (p ++ slash ∷ rest)) (slashed (or_dot_if r p)) ≡ true
is_below true [] rest ne = has_prefix-nil (slash ∷ rest)
is_below false [] rest ne = absurd (ne refl)
is_below true (x ∷ xs) rest ne =
    has_prefix-append (x ∷ xs) (slash ∷ rest) (slash ∷ [])
    ∙ unfold has_prefix in has_prefix-nil rest
is_below false (x ∷ xs) rest ne =
    has_prefix-append (x ∷ xs) (slash ∷ rest) (slash ∷ [])
    ∙ unfold has_prefix in has_prefix-nil rest

abbrev IsKept : Bytes → Bytes → Type 0
IsKept root key = (key ≡ root) ⊎ (has_prefix key (slashed root) ≡ true)

joined-IsKept :
    (r : Bool) (es ps : List Bytes)
    → or_dot_if r (join_reversed ps []) ≢ dot
    → IsKept (or_dot_if r (join_reversed ps [])) (or_dot_if r (join_reversed (es ++ ps) []))
joined-IsKept r [] ps ne = inl refl
joined-IsKept true (e ∷ es) [] ne = inr (unfold join_reversed in has_prefix-nil _)
joined-IsKept false (e ∷ es) [] ne = absurd (unfold join_reversed in ne refl)
joined-IsKept r (e ∷ es) (p ∷ ps) ne =
    inr (rw (join_reversed-append es e p ps []) (is_below r (join_reversed (p ∷ ps) []) _ ne))

root_key :
    (b : ℕ) (bs : Bytes)
    → filekey (b ∷ bs) [] ≡ or_dot_if (b == slash) (join_reversed (parts (b ∷ bs)) [])
root_key b bs = filekey-elements b bs [] ∙ unfold split push_elements push_element in refl

-- Where the key of the root is not the single dot: whatever name a file has, its key on the bucket
-- is the key of the root, or it begins with the key of the root directory, its slash included. No
-- name climbs out of the prefix.
pub filekey-has_prefix :
    (prefix name : Bytes)
    → filekey prefix [] ≢ dot
    → (filekey prefix name ≡ filekey prefix [])
      ⊎ (has_prefix (filekey prefix name) (dirkey prefix []) ≡ true)
unfolding dirkey
filekey-has_prefix [] name ne = inr (
    unfold filekey join clean trim_prefix split push_elements push_element join_reversed is_abs in
    has_prefix-nil _)
filekey-has_prefix (b ∷ bs) name ne =
    rw (filekey-elements b bs name, root_key b bs)
      (joined-IsKept (b == slash) (name_elements name) (parts (b ∷ bs))
        (subst (λ k. k ≢ dot) (root_key b bs) ne))
