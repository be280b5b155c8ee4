-- ===== src/MapFs/Names.antt =====
-- Keys of the map of vfs/mapfs/mapfs.go: names of files, and names of directories with a slash.
use s3ftpgateway.Base.{
  ℕ, ◌≡◌, ◌≢◌, refl, ◌∙◌, Bool, true, false, List, [], ◌∷◌, ◌++◌, ◌==◌, Bytes, append-nil, arith,
  Bool-cases, inl, inr,
}
use s3ftpgateway.GoPath.{slash, push_elements, join_reversed, clean, or_dot}
use s3ftpgateway.GoPath.Clean.{All, HasNoSlash, split-HasNoSlash}
use s3ftpgateway.GoPath.Parts.{IsStep, push_elements-IsStep}
use s3ftpgateway.Text.{split, trim_prefix}
use s3ftpgateway.MapFs.{filename}

abbrev ends_slash : Bytes → Bool
ends_slash [] = false
ends_slash (b ∷ []) = b == slash
ends_slash (b ∷ c ∷ cs) = ends_slash (c ∷ cs)

ends_slash-append : (xs ys : Bytes) (y : ℕ) → ends_slash (xs ++ y ∷ ys) ≡ ends_slash (y ∷ ys)
ends_slash-append [] ys y = refl
ends_slash-append (x ∷ []) ys y = refl
ends_slash-append (x ∷ z ∷ xs) ys y = ends_slash-append (z ∷ xs) ys y

ends_slash-HasNoSlash : (e : Bytes) → HasNoSlash e → ends_slash e ≡ false
ends_slash-HasNoSlash [] h = refl
ends_slash-HasNoSlash (b ∷ []) h = ground arith
ends_slash-HasNoSlash (b ∷ c ∷ cs) h = ends_slash-HasNoSlash (c ∷ cs) h.1

ends_slash-cons :
    (b : ℕ) (e rest : Bytes) → e ≢ [] → ends_slash (b ∷ (e ++ rest)) ≡ ends_slash (e ++ rest)
ends_slash-cons b [] rest h = absurd (h refl)
ends_slash-cons b (c ∷ cs) rest h = refl

ends_slash-join_reversed :
    (e : Bytes) (es : List Bytes) (rest : Bytes)
    → e ≢ []
    → All IsStep es
    → ends_slash (join_reversed (e ∷ es) rest) ≡ ends_slash (e ++ rest)
unfolding join_reversed
ends_slash-join_reversed e [] rest h hs = refl
ends_slash-join_reversed e (f ∷ es) rest h hs =
    ends_slash-join_reversed f es (slash ∷ (e ++ rest)) hs.0.0 hs.1
    ∙ ends_slash-append f (e ++ rest) slash
    ∙ ends_slash-cons slash e rest h

joined-ends_slash : (es : List Bytes) → All IsStep es → ends_slash (join_reversed es []) ≡ false
joined-ends_slash [] h = unfold join_reversed in refl
joined-ends_slash (e ∷ es) h =
    ends_slash-join_reversed e es [] h.0.0 h.1 ∙ rw append-nil (ends_slash-HasNoSlash e h.0.1)

trim_prefix-ends_slash :
    (s : Bytes) → ends_slash s ≡ false → ends_slash (trim_prefix slash s) ≡ false
unfolding trim_prefix
trim_prefix-ends_slash [] h = refl
trim_prefix-ends_slash (b ∷ []) h = ground arith
trim_prefix-ends_slash (b ∷ c ∷ cs) h = ground arith

or_dot-ends_slash : (s : Bytes) → ends_slash s ≡ false → ends_slash (or_dot s) ≡ false
or_dot-ends_slash [] h = refl
or_dot-ends_slash (b ∷ bs) h = h

body-ends_slash :
    (r : Bool) (p : Bytes)
    → ends_slash (join_reversed (push_elements r [] (split slash p)) []) ≡ false
body-ends_slash r p =
    joined-ends_slash (push_elements r [] (split slash p))
      (push_elements-IsStep r [] (split slash p) tt (split-HasNoSlash p))

pub filename-ends_slash : (p : Bytes) → ends_slash (filename p) ≡ false
unfolding filename clean trim_prefix
filename-ends_slash [] = refl
filename-ends_slash (b ∷ bs) = elim (Bool-cases (b == slash)) [
  | inl rooted ↦ rw rooted (body-ends_slash true (b ∷ bs))
  | inr relative ↦
      let body : Bytes = join_reversed (push_elements false [] (split slash (b ∷ bs))) [] in
      rw relative (
        trim_prefix-ends_slash (or_dot body)
          (or_dot-ends_slash body (body-ends_slash false (b ∷ bs))))
]

-- No file has the name under which a directory is entered.
pub filename-ne-slashed : (p d : Bytes) → filename p ≢ d ++ slash ∷ []
filename-ne-slashed p d e = cc (filename-ends_slash p, ends_slash-append d [] slash, e)
