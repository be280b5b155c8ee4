-- ===== src/GoPath/Parts.antt =====
-- `Clean` and `Join` on any path, by their elements; a relative path may keep ".." in front.
use s3ftpgateway.Base.{
  ℕ, ◌≡◌, ◌≢◌, refl, sym, ap, ◌∙◌, Bool, List, [], ◌∷◌, ◌++◌, Bytes, append-nil, append_assoc,
  arith,
}
use s3ftpgateway.Text.{split, push_head, trim_prefix}
use s3ftpgateway.GoPath.{slash, push_element, push_elements, join_reversed, is_abs}
use s3ftpgateway.GoPath.Clean.{
  HasNoSlash, IsPlain, All, split-HasNoSlash, push_elements-nil, push_elements-join_reversed,
}

-- An element of any path.
abbrev pub IsStep : Bytes → Type 0
IsStep e = (e ≢ []) × HasNoSlash e

push_element-IsStep :
    (r : Bool) (es : List Bytes) (e : Bytes)
    → All IsStep es
    → HasNoSlash e
    → All IsStep (push_element r es e)
unfolding push_element
push_element-IsStep r es [] h n = h
push_element-IsStep r [] (b ∷ bs) h n = ground arith
push_element-IsStep r (x ∷ xs) (b ∷ bs) h n = ground arith

pub push_elements-IsStep :
    (r : Bool) (es ws : List Bytes)
    → All IsStep es
    → All HasNoSlash ws
    → All IsStep (push_elements r es ws)
unfolding push_elements
push_elements-IsStep r es [] h n = h
push_elements-IsStep r es (w ∷ ws) h n =
    push_elements-IsStep r (push_element r es w) ws (push_element-IsStep r es w h n.0) n.1

-- The elements of a path, the last one first.
abbrev pub parts : Bytes → List Bytes
parts p = push_elements (is_abs p) [] (split slash p)

pub parts-IsStep : (p : Bytes) → All IsStep (parts p)
parts-IsStep p = push_elements-IsStep (is_abs p) [] (split slash p) tt (split-HasNoSlash p)

push_head-append :
    (b : ℕ) (ws vs : List Bytes) → ws ≢ [] → push_head b (ws ++ vs) ≡ push_head b ws ++ vs
push_head-append b [] vs h = absurd (h refl)
push_head-append b (w ∷ ws) vs h = refl

push_head-ne : (b : ℕ) (ws : List Bytes) → push_head b ws ≢ []
push_head-ne b [] e = cc
push_head-ne b (w ∷ ws) e = cc

split-ne : (p : Bytes) → split slash p ≢ []
unfolding split
split-ne [] e = cc
split-ne (b ∷ bs) e = ground (arith, push_head-ne b (split slash bs))

-- A slash parts a path in two.
split-slash : (p q : Bytes) → split slash (p ++ slash ∷ q) ≡ split slash p ++ split slash q
unfolding split
split-slash [] q = refl
split-slash (b ∷ bs) q =
    ground
      (arith, split-slash bs q, push_head-append b (split slash bs) (split slash q) (split-ne bs))

push_elements-append :
    (r : Bool) (es ws vs : List Bytes)
    → push_elements r es (ws ++ vs) ≡ push_elements r (push_elements r es ws) vs
unfolding push_elements
push_elements-append r es [] vs = refl
push_elements-append r es (w ∷ ws) vs = push_elements-append r (push_element r es w) ws vs

-- A path before a canonical one: the elements of the second come behind those of the first.
pub push_elements-join :
    (r : Bool) (p : Bytes) (es : List Bytes)
    → All IsPlain es
    → push_elements r [] (split slash (p ++ slash ∷ slash ∷ join_reversed es []))
      ≡ es ++ push_elements r [] (split slash p)
push_elements-join r p es h =
    let body : Bytes = join_reversed es [] in
    let first = push_elements r [] (split slash p) in
    ap (push_elements r []) (split-slash p (slash ∷ body))
    ∙ push_elements-append r [] (split slash p) (split slash (slash ∷ body))
    ∙ ap (push_elements r first) (split-slash [] body)
    ∙ unfold split in
      push_elements-nil r first (split slash body) ∙ push_elements-join_reversed r first es h

-- The path of some elements begins with an element, and so not with a slash.
pub trim-join_reversed :
    (e : Bytes) (es : List Bytes) (rest : Bytes)
    → All IsStep (e ∷ es)
    → trim_prefix slash (join_reversed (e ∷ es) rest) ≡ join_reversed (e ∷ es) rest
unfolding join_reversed trim_prefix
trim-join_reversed [] [] rest h = absurd (h.0.0 refl)
trim-join_reversed (b ∷ bs) [] rest h = ground arith
trim-join_reversed e (f ∷ es) rest h = trim-join_reversed f es (slash ∷ (e ++ rest)) h.1

join_reversed-rest :
    (es : List Bytes) (rest : Bytes) → join_reversed es rest ≡ join_reversed es [] ++ rest
unfolding join_reversed
join_reversed-rest [] rest = refl
join_reversed-rest (e ∷ []) rest = ap (λ x. x ++ rest) (sym (append-nil e))
join_reversed-rest (e ∷ f ∷ es) rest =
    join_reversed-rest (f ∷ es) (slash ∷ (e ++ rest))
    ∙ rw (join_reversed-rest (f ∷ es) (slash ∷ (e ++ [])), append-nil e, append_assoc) refl

-- The path of more elements begins with the path of the first ones and a slash.
pub join_reversed-append :
    (xs : List Bytes) (x p : Bytes) (ps : List Bytes) (rest : Bytes)
    → join_reversed ((x ∷ xs) ++ p ∷ ps) rest
      ≡ join_reversed (p ∷ ps) [] ++ slash ∷ join_reversed (x ∷ xs) rest
unfolding join_reversed
join_reversed-append [] x p ps rest = join_reversed-rest (p ∷ ps) (slash ∷ (x ++ rest))
join_reversed-append (y ∷ xs) x p ps rest = join_reversed-append xs y p ps (slash ∷ (x ++ rest))
