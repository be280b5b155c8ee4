-- ===== src/Command/Parse.antt =====
-- `Command.String` and `ParseCommand` of ftp/command.go.
use s3ftpgateway.Base.{ℕ, ◌≡◌, ◌≢◌, refl, false, none, some, [], ◌∷◌, ◌++◌, Bytes, arith}
use s3ftpgateway.Text.{is_space, upper, to_upper, trim_space, trim_right}
use s3ftpgateway.Command.{Command, command_string, cut_space, parse_command}

-- No white space, and no lower case letter.
abbrev pub IsWord : Bytes → Type 0
IsWord [] = Unit
IsWord (b ∷ bs) = (is_space b ≡ false) × (upper b ≡ b) × IsWord bs

-- The last byte is no white space.
abbrev pub EndsInWord : Bytes → Type 0
EndsInWord [] = Unit
EndsInWord (b ∷ []) = is_space b ≡ false
EndsInWord (b ∷ c ∷ cs) = EndsInWord (c ∷ cs)

-- No white space at either end.
abbrev pub IsTrimmed : Bytes → Type 0
IsTrimmed [] = Unit
IsTrimmed (b ∷ bs) = (is_space b ≡ false) × EndsInWord (b ∷ bs)

trim_right-EndsInWord : (s : Bytes) → EndsInWord s → trim_right s ≡ s
unfolding trim_right
trim_right-EndsInWord [] h = refl
trim_right-EndsInWord (b ∷ []) h = rw h
trim_right-EndsInWord (b ∷ c ∷ cs) h = ground (arith, trim_right-EndsInWord (c ∷ cs) h)

EndsInWord-append :
    (s : Bytes) (b : ℕ) (bs : Bytes) → EndsInWord (b ∷ bs) → EndsInWord (s ++ b ∷ bs)
EndsInWord-append [] b bs h = h
EndsInWord-append (c ∷ []) b bs h = h
EndsInWord-append (c ∷ d ∷ s) b bs h = EndsInWord-append (d ∷ s) b bs h

IsWord-EndsInWord : (s : Bytes) → IsWord s → EndsInWord s
IsWord-EndsInWord [] h = tt
IsWord-EndsInWord (b ∷ []) h = h.0
IsWord-EndsInWord (b ∷ c ∷ cs) h = IsWord-EndsInWord (c ∷ cs) h.2

trim_space-IsTrimmed : (s : Bytes) → IsTrimmed s → trim_space s ≡ s
unfolding trim_space
trim_space-IsTrimmed [] h = refl
trim_space-IsTrimmed (b ∷ bs) h = rw h.0 (trim_right-EndsInWord (b ∷ bs) h.1)

trim_space-space : (s : Bytes) → trim_space (b' ' ∷ s) ≡ trim_space s
unfolding trim_space
trim_space-space s = refl

to_upper-IsWord : (s : Bytes) → IsWord s → to_upper s ≡ s
unfolding to_upper
to_upper-IsWord [] h = refl
to_upper-IsWord (b ∷ bs) h = cc (h.1, to_upper-IsWord bs h.2)

cut_space-IsWord : (s : Bytes) → IsWord s → cut_space s ≡ none
cut_space-IsWord [] h = refl
cut_space-IsWord (b ∷ bs) h = ground (arith, cut_space-IsWord bs h.2)

cut_space-append : (s arg : Bytes) → IsWord s → cut_space (s ++ b' ' ∷ arg) ≡ some (s, b' ' ∷ arg)
cut_space-append [] arg h = refl
cut_space-append (b ∷ bs) arg h = ground (arith, cut_space-append bs arg h.2)

-- A command whose name is a non-empty upper case word and whose argument has no white space at its
-- ends is parsed back from its text.
pub parse_command-command_string :
    (c : Command)
    → c.name ≢ []
    → IsWord c.name
    → IsTrimmed c.arg
    → parse_command (command_string c) ≡ c
parse_command-command_string c ne w t = parse c.name c.arg ne w t
  where
    parse :
        (name arg : Bytes)
        → name ≢ []
        → IsWord name
        → IsTrimmed arg
        → parse_command (command_string (record { name = name; arg = arg }))
          ≡ record { name = name; arg = arg }
    parse [] arg ne w t = absurd (ne refl)
    parse (b ∷ bs) [] ne w t =
        unfold parse_command command_string in
        rw (
          trim_space-IsTrimmed (b ∷ bs) (w.0, IsWord-EndsInWord (b ∷ bs) w),
          cut_space-IsWord (b ∷ bs) w,
          to_upper-IsWord (b ∷ bs) w,
        )
    parse (b ∷ bs) (a ∷ args) ne w t =
        unfold parse_command command_string in
        rw (
          trim_space-IsTrimmed (b ∷ (bs ++ b' ' ∷ a ∷ args))
              (w.0, EndsInWord-append (b ∷ bs) b' ' (a ∷ args) t.1),
          cut_space-append (b ∷ bs) (a ∷ args) w,
          to_upper-IsWord (b ∷ bs) w,
          trim_space-space (a ∷ args),
          trim_space-IsTrimmed (a ∷ args) t,
        )
