-- ===== src/GoPath/Clean.antt =====
-- `Clean` on absolute paths, by their elements.
use s3ftpgateway.Base.{
  ◌≡◌, ◌≢◌, refl, sym, ap, ◌∙◌, Bool, true, false, List, [], ◌∷◌, ◌++◌, ◌==◌, Bytes, beq_iff,
  append-nil, arith, Bool-cases, inl, inr,
}
use s3ftpgateway.Text.{split, push_head}
use s3ftpgateway.GoPath.{
  slash, dot, dot_dot, push_element, push_elements, join_reversed, is_abs, clean, split_last, dir,
  join,
}

abbrev pub HasNoSlash : Bytes → Type 0
HasNoSlash [] = Unit
HasNoSlash (b ∷ bs) = (b ≢ slash) × HasNoSlash bs

-- An element of a cleaned path; below the root it is not "..".
abbrev pub IsPart : Bytes → Type 0
IsPart e = (e ≢ []) × (e ≢ dot) × HasNoSlash e

abbrev pub IsPlain : Bytes → Type 0
IsPlain e = IsPart e × (e ≢ dot_dot)

abbrev pub All : (Bytes → Type 0) → List Bytes → Type 0
All P [] = Unit
All P (e ∷ es) = P e × All P es

pub split-HasNoSlash : (p : Bytes) → All HasNoSlash (split slash p)
unfolding split
split-HasNoSlash [] = (tt, tt)
split-HasNoSlash (b ∷ bs) = elim (Bool-cases (b == slash)) [
  | inl yes_slash ↦ rw yes_slash (tt, split-HasNoSlash bs)
  | inr no_slash ↦ rw no_slash (push (split slash bs) (split-HasNoSlash bs) (ground arith))
]
  where
    push : (ws : List Bytes) → All HasNoSlash ws → b ≢ slash → All HasNoSlash (push_head b ws)
    push [] h ne = ((ne, tt), tt)
    push (w ∷ ws) h ne = ((ne, h.0), h.1)

push_element-IsPlain :
    (es : List Bytes) (e : Bytes)
    → All IsPlain es
    → HasNoSlash e
    → All IsPlain (push_element true es e)
unfolding push_element
push_element-IsPlain es [] h n = h
push_element-IsPlain [] (b ∷ bs) h n =
    ground (arith, beq_iff (b ∷ bs) dot, beq_iff (b ∷ bs) dot_dot)
push_element-IsPlain (x ∷ xs) (b ∷ bs) h n =
    ground (arith, beq_iff (b ∷ bs) dot, beq_iff (b ∷ bs) dot_dot, beq_iff x dot_dot)

push_elements-IsPlain :
    (es ws : List Bytes)
    → All IsPlain es
    → All HasNoSlash ws
    → All IsPlain (push_elements true es ws)
unfolding push_elements
push_elements-IsPlain es [] h n = h
push_elements-IsPlain es (w ∷ ws) h n =
    push_elements-IsPlain (push_element true es w) ws (push_element-IsPlain es w h n.0) n.1

-- The elements of an absolute path, the last one first.
abbrev pub elements : Bytes → List Bytes
elements p = push_elements true [] (split slash p)

pub elements-IsPlain : (p : Bytes) → All IsPlain (elements p)
elements-IsPlain p = push_elements-IsPlain [] (split slash p) tt (split-HasNoSlash p)

is_abs-nil : is_abs [] ≡ false
unfolding is_abs
is_abs-nil = refl

pub clean-elements : (p : Bytes) → is_abs p ≡ true → clean p ≡ slash ∷ join_reversed (elements p) []
clean-elements [] h = absurd (ground (arith, is_abs-nil))
clean-elements (b ∷ bs) h = unfold clean in rw h

-- The elements back in the order of the path, in front of `ws`.
abbrev rev_onto : List Bytes → List Bytes → List Bytes
rev_onto [] ws = ws
rev_onto (e ∷ es) ws = rev_onto es (e ∷ ws)

split-append : (e r : Bytes) → HasNoSlash e → split slash (e ++ slash ∷ r) ≡ e ∷ split slash r
unfolding split
split-append [] r h = refl
split-append (b ∷ bs) r h = ground (arith, split-append bs r h.1)

split-HasNoSlash_self : (e : Bytes) → HasNoSlash e → split slash e ≡ e ∷ []
unfolding split
split-HasNoSlash_self [] h = refl
split-HasNoSlash_self (b ∷ bs) h = ground (arith, split-HasNoSlash_self bs h.1)

split-join_reversed :
    (e : Bytes) (es more : List Bytes) (rest : Bytes)
    → All HasNoSlash (e ∷ es)
    → split slash (e ++ rest) ≡ e ∷ more
    → split slash (join_reversed (e ∷ es) rest) ≡ rev_onto es (e ∷ more)
unfolding join_reversed
split-join_reversed e [] more rest h s = s
split-join_reversed e (f ∷ es) more rest h s =
    split-join_reversed f es (e ∷ more) (slash ∷ (e ++ rest)) h.1
      (split-append f (e ++ rest) h.1.0 ∙ ap (◌∷◌ f) s)

pub push_element-plain :
    (r : Bool) (es : List Bytes) (e : Bytes) → IsPlain e → push_element r es e ≡ e ∷ es
unfolding push_element
push_element-plain r es [] h = absurd (h.0.0 refl)
push_element-plain r es (b ∷ bs) h = ground (arith, beq_iff (b ∷ bs) dot, beq_iff (b ∷ bs) dot_dot)

push_elements-cons :
    (r : Bool) (es ws : List Bytes) (e : Bytes)
    → push_elements r es (e ∷ ws) ≡ push_elements r (push_element r es e) ws
unfolding push_elements
push_elements-cons r es ws e = refl

pub push_elements-nil :
    (r : Bool) (es ws : List Bytes) → push_elements r es ([] ∷ ws) ≡ push_elements r es ws
unfolding push_elements push_element
push_elements-nil r es ws = refl

push_elements-rev_onto :
    (r : Bool) (es acc ws : List Bytes)
    → All IsPlain es
    → push_elements r acc (rev_onto es ws) ≡ push_elements r (es ++ acc) ws
push_elements-rev_onto r [] acc ws h = refl
push_elements-rev_onto r (e ∷ es) acc ws h =
    push_elements-rev_onto r es acc (e ∷ ws) h.1
    ∙ push_elements-cons r (es ++ acc) ws e
    ∙ ap (λ xs. push_elements r xs ws) (push_element-plain r (es ++ acc) e h.0)

All-HasNoSlash : (es : List Bytes) → All IsPlain es → All HasNoSlash es
All-HasNoSlash [] h = tt
All-HasNoSlash (e ∷ es) h = (h.0.0.2, All-HasNoSlash es h.1)

-- Plain elements are read back, behind those that are there, from the path that they make.
pub push_elements-join_reversed :
    (r : Bool) (acc es : List Bytes)
    → All IsPlain es
    → push_elements r acc (split slash (join_reversed es [])) ≡ es ++ acc
push_elements-join_reversed r acc [] h =
    unfold split push_elements push_element join_reversed in refl
push_elements-join_reversed r acc (e ∷ es) h =
    let free = All-HasNoSlash (e ∷ es) h in
    ap (push_elements r acc)
      (split-join_reversed e es [] [] free (rw append-nil (split-HasNoSlash_self e free.0)))
    ∙ push_elements-rev_onto r es acc (e ∷ []) h.1
    ∙ push_elements-cons r (es ++ acc) [] e
    ∙ ap (λ xs. push_elements r xs []) (push_element-plain r (es ++ acc) e h.0)
    ∙ (unfold push_elements in refl)

elements-join_reversed :
    (es : List Bytes) → All IsPlain es → elements (slash ∷ join_reversed es []) ≡ es
elements-join_reversed es h =
    ap (push_elements true []) (split-append [] (join_reversed es []) tt)
    ∙ push_elements-nil true [] (split slash (join_reversed es []))
    ∙ push_elements-join_reversed true [] es h
    ∙ append-nil es

pub is_abs-slash : (r : Bytes) → is_abs (slash ∷ r) ≡ true
unfolding is_abs
is_abs-slash r = refl

-- An absolute path with no empty, "." or ".." element and no slash at its end but the root's.
pub record IsCanonical (p : Bytes) : Type 0 where
  pub parts : List Bytes
  pub plain : All IsPlain parts
  pub path_eq : p ≡ slash ∷ join_reversed parts []

pub IsCanonical-is_abs : {p : Bytes} → IsCanonical p → is_abs p ≡ true
IsCanonical-is_abs h = rw h.path_eq (is_abs-slash (join_reversed h.parts []))

-- `Clean` makes an absolute path canonical: no ".." is left that could climb above the root.
pub clean-IsCanonical : (p : Bytes) → is_abs p ≡ true → IsCanonical (clean p)
clean-IsCanonical p h = record {
  parts = elements p;
  plain = elements-IsPlain p;
  path_eq = clean-elements p h;
}

-- A canonical path is clean.
pub clean_canonical : (p : Bytes) → IsCanonical p → clean p ≡ p
clean_canonical p h =
    let q : Bytes = slash ∷ join_reversed h.parts [] in
    ap clean h.path_eq
    ∙ clean-elements q (is_abs-slash (join_reversed h.parts []))
    ∙ ap (λ es. slash ∷ join_reversed es []) (elements-join_reversed h.parts h.plain)
    ∙ sym h.path_eq

pub clean_idem : (p : Bytes) → is_abs p ≡ true → clean (clean p) ≡ clean p
clean_idem p h = clean_canonical (clean p) (clean-IsCanonical p h)

split_last-is_abs : (p : Bytes) → is_abs p ≡ true → is_abs (split_last p).0 ≡ true
unfolding is_abs split_last
split_last-is_abs [] h = cc
split_last-is_abs (b ∷ bs) h = ground arith

-- The directory of an absolute path is canonical.
pub dir-IsCanonical : (p : Bytes) → is_abs p ≡ true → IsCanonical (dir p)
dir-IsCanonical p h = unfold dir in clean-IsCanonical (split_last p).0 (split_last-is_abs p h)

is_abs-append : (p q : Bytes) → is_abs p ≡ true → is_abs (p ++ q) ≡ true
unfolding is_abs
is_abs-append [] q h = cc
is_abs-append (b ∷ bs) q h = h

-- A path joined to an absolute one is canonical.
pub join-IsCanonical : (p q : Bytes) → is_abs p ≡ true → IsCanonical (join p q)
join-IsCanonical [] q h = absurd (ground (arith, is_abs-nil))
join-IsCanonical (b ∷ bs) q h =
    unfold join in clean-IsCanonical ((b ∷ bs) ++ slash ∷ q) (is_abs-append (b ∷ bs) (slash ∷ q) h)
