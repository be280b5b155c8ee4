-- ===== src/Reply/Read.antt =====
-- Replies seen from the client, which reads them as RFC 959 says.
use s3ftpgateway.Base.{
  ℕ, ◌≤◌, ◌<◌, ◌≡◌, ◌≢◌, refl, ap, ◌∙◌, ◌&&◌, Option, none, some, List, [], ◌∷◌, ◌++◌, ◌==◌,
  if◌then◌else◌, append_assoc, Bytes, beq, beq_refl, arith,
}
use s3ftpgateway.Reply.{code_text, last_line, first_line}
use s3ftpgateway.Text.Decimal.{three_digits, decimal_three}
use s3ftpgateway.Text.{push_head}

-- The lines of a text, at CR LF; behind the last end there is one more line.
pub lines_of : Bytes → List Bytes
lines_of [] = [] ∷ []
lines_of (b ∷ []) = (b ∷ []) ∷ []
lines_of (b ∷ d ∷ bs) =
    let here = lines_of bs in
    let there = lines_of (d ∷ bs) in
    if b == b'\r' && d == b'\n' then [] ∷ here else push_head b there

-- A line of a longer reply: the last one has the code and a space.
data Line : Type 0 where
  ended going : Bytes → Line

line_of : Bytes → Bytes → Line
line_of code (a ∷ b ∷ c ∷ sep ∷ text) =
    if beq code (a ∷ b ∷ c ∷ [])
    then (if sep == b' '
        then ended text
        else if sep == b'-'
        then going text
        else going (a ∷ b ∷ c ∷ sep ∷ text))
    else going (a ∷ b ∷ c ∷ sep ∷ text)
line_of code l = going l

-- The texts up to the last line, and the lines behind it.
abbrev add_line :
    Line → List Bytes → Option (List Bytes × List Bytes) → Option (List Bytes × List Bytes)
add_line (ended text) ls more = some (text ∷ [], ls)
add_line (going text) ls none = none
add_line (going text) ls (some (ms, rest)) = some (text ∷ ms, rest)

read_more : Bytes → List Bytes → Option (List Bytes × List Bytes)
read_more code [] = none
read_more code (l ∷ ls) = let more = read_more code ls in add_line (line_of code l) ls more

-- A reply: its code, its texts, and the lines behind it. A minus behind the code announces more.
pub read_reply : List Bytes → Option (Bytes × List Bytes × List Bytes)
read_reply ((a ∷ b ∷ c ∷ sep ∷ text) ∷ ls) =
    if sep == b' '
    then some (a ∷ b ∷ c ∷ [], text ∷ [], ls)
    else if sep == b'-'
    then (elim (read_more (a ∷ b ∷ c ∷ []) ls) [
      | none ↦ none
      | some (ms, rest) ↦ some (a ∷ b ∷ c ∷ [], text ∷ ms, rest)
    ])
    else none
read_reply _ = none

-- What goes over the wire.
abbrev pub reply_text : ℕ → List Bytes → Bytes
reply_text code [] = last_line code []
reply_text code (m ∷ []) = last_line code m
reply_text code (m ∷ n ∷ ms) = first_line code m ++ reply_text code (n ∷ ms)

-- Text without CR.
abbrev pub IsText : Bytes → Type 0
IsText [] = Unit
IsText (b ∷ bs) = (b ≢ b'\r') × IsText bs

abbrev pub AreTexts : List Bytes → Type 0
AreTexts [] = Unit
AreTexts (m ∷ ms) = IsText m × AreTexts ms

lines_of-cons : (b : ℕ) (bs : Bytes) → b ≢ b'\r' → lines_of (b ∷ bs) ≡ push_head b (lines_of bs)
unfolding lines_of
lines_of-cons b [] h = refl
lines_of-cons b (d ∷ bs) h = ground arith

lines_of-line :
    (l rest : Bytes) → IsText l → lines_of (l ++ (b'\r' ∷ b'\n' ∷ rest)) ≡ l ∷ lines_of rest
lines_of-line [] rest h = unfold lines_of in refl
lines_of-line (b ∷ bs) rest h =
    lines_of-cons b (bs ++ (b'\r' ∷ b'\n' ∷ rest)) h.0
    ∙ ap (push_head b) (lines_of-line bs rest h.1)

pub code_text-three : (code : ℕ) → 100 ≤ code → code < 1000 → code_text code ≡ three_digits code
unfolding code_text
code_text-three code lo hi = rw (decimal_three code lo hi)

-- A line of the reply as the client splits it off.
abbrev numbered : ℕ → ℕ → Bytes → Bytes
numbered code sep msg = three_digits code ++ sep ∷ msg

module _ (code : ℕ) (lo : 100 ≤ code) (hi : code < 1000) where
  lines_of-numbered :
      (sep : ℕ) (msg rest : Bytes)
      → sep ≢ b'\r'
      → IsText msg
      → lines_of ((code_text code ++ (sep ∷ (msg ++ (b'\r' ∷ b'\n' ∷ [])))) ++ rest)
        ≡ numbered code sep msg ∷ lines_of rest
  lines_of-numbered sep msg rest s h =
      rw (code_text-three code lo hi, append_assoc msg (b'\r' ∷ b'\n' ∷ []) rest)
        (lines_of-line (numbered code sep msg) rest
          (omega arith, (omega arith, (omega arith, (s, h)))))

  line_of-ended : (msg : Bytes) → line_of (three_digits code) (numbered code b' ' msg) ≡ ended msg
  unfolding line_of
  line_of-ended msg = rw (beq_refl (three_digits code))

  line_of-going : (msg : Bytes) → line_of (three_digits code) (numbered code b'-' msg) ≡ going msg
  unfolding line_of
  line_of-going msg = rw (beq_refl (three_digits code))

  read_more-reply_text :
      (m : Bytes) (ms : List Bytes) (rest : Bytes)
      → AreTexts (m ∷ ms)
      → read_more (three_digits code) (lines_of (reply_text code (m ∷ ms) ++ rest))
        ≡ some (m ∷ ms, lines_of rest)
  unfolding read_more
  read_more-reply_text m [] rest h =
      rw (lines_of-numbered b' ' m rest (omega arith) h.0, line_of-ended m) refl
  read_more-reply_text m (n ∷ ms) rest h =
      rw
        (
          append_assoc (first_line code m) (reply_text code (n ∷ ms)) rest,
          lines_of-numbered b'-' m (reply_text code (n ∷ ms) ++ rest) (omega arith) h.0,
          line_of-going m,
          read_more-reply_text n ms rest h.1,
        )
        refl

  pub read_reply-reply_text :
      (m : Bytes) (ms : List Bytes) (rest : Bytes)
      → AreTexts (m ∷ ms)
      → read_reply (lines_of (reply_text code (m ∷ ms) ++ rest))
        ≡ some (three_digits code, m ∷ ms, lines_of rest)
  unfolding read_reply
  read_reply-reply_text m [] rest h = rw (lines_of-numbered b' ' m rest (omega arith) h.0) refl
  read_reply-reply_text m (n ∷ ms) rest h =
      rw
        (
          append_assoc (first_line code m) (reply_text code (n ∷ ms)) rest,
          lines_of-numbered b'-' m (reply_text code (n ∷ ms) ++ rest) (omega arith) h.0,
          read_more-reply_text n ms rest h.1,
        )
        refl
