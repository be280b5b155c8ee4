-- ===== src/Command/Name.antt =====
-- The name in `ParseCommand` of ftp/command.go.
use s3ftpgateway.Base.{
  ◌≡◌, ◌≢◌, refl, ap, ◌∙◌, false, some, none, ◌⊎◌, inl, inr, append-nil, [], ◌∷◌, ◌++◌, Bytes,
  arith,
}
use s3ftpgateway.Command.{cut_space, as_command, parse_command}
use s3ftpgateway.Text.{is_space, to_upper, trim_space, trim_right}

-- No white space.
abbrev pub IsSolid : Bytes → Type 0
IsSolid [] = Unit
IsSolid (b ∷ bs) = (is_space b ≡ false) × IsSolid bs

trim_right-append : (w s : Bytes) → IsSolid w → trim_right (w ++ s) ≡ w ++ trim_right s
unfolding trim_right
trim_right-append [] s h = refl
trim_right-append (b ∷ bs) s h = ground (arith, trim_right-append bs s)

cut_space-IsSolid : (w : Bytes) → IsSolid w → cut_space w ≡ none
cut_space-IsSolid [] h = refl
cut_space-IsSolid (b ∷ bs) h = ground (arith, cut_space-IsSolid bs h.1)

cut_space-solid :
    (w rest : Bytes) → IsSolid w → cut_space (w ++ b' ' ∷ rest) ≡ some (w, b' ' ∷ rest)
cut_space-solid [] rest h = refl
cut_space-solid (b ∷ bs) rest h = ground (arith, cut_space-solid bs rest h.1)

-- Behind a space there is nothing left, or the space stays.
trim_right-space :
    (p : Bytes)
    → (trim_right (b' ' ∷ p) ≡ []) ⊎ ((rest : Bytes) × (trim_right (b' ' ∷ p) ≡ b' ' ∷ rest))
unfolding trim_right
trim_right-space p = go (trim_right p)
  where
    go :
        (q : Bytes)
        → (elim q [ [] ↦ [] | c ∷ cs ↦ b' ' ∷ c ∷ cs ] ≡ [])
          ⊎ ((rest : Bytes) × (elim q [ [] ↦ [] | c ∷ cs ↦ b' ' ∷ c ∷ cs ] ≡ b' ' ∷ rest))
    go [] = inl refl
    go (c ∷ cs) = inr (c ∷ cs, refl)

trim_space-solid : (w s : Bytes) → w ≢ [] → IsSolid w → trim_space (w ++ s) ≡ w ++ trim_right s
unfolding trim_space
trim_space-solid [] s ne h = absurd (ne refl)
trim_space-solid (b ∷ bs) s ne h = rw h.0 (trim_right-append (b ∷ bs) s h)

name-as_command :
    (w s : Bytes)
    → IsSolid w
    → (s ≡ []) ⊎ ((rest : Bytes) × (s ≡ b' ' ∷ rest))
    → (as_command (w ++ s) (cut_space (w ++ s))).name ≡ to_upper w
name-as_command w s h (inl e) = rw (e, append-nil, cut_space-IsSolid w h) refl
name-as_command w s h (inr (rest, e)) = rw (e, cut_space-solid w rest h) refl

-- Whatever stands behind the first space, the name is what stands before it.
pub parse_command-name :
    (w p : Bytes) → w ≢ [] → IsSolid w → (parse_command (w ++ b' ' ∷ p)).name ≡ to_upper w
unfolding parse_command
parse_command-name w p ne h =
    ap (λ t. (as_command t (cut_space t)).name) (trim_space-solid w (b' ' ∷ p) ne h)
    ∙ name-as_command w (trim_right (b' ' ∷ p)) h (trim_right-space p)
