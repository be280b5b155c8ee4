-- ===== src/Telnet/Total.antt =====
-- The loop of `Read` in ftp/telnet.go: its fuel, its buffer and its input.
use native.Mathlib.Nat.{zero-add}
use s3ftpgateway.Base.{
  Bytes, ℕ, zero, suc, ◌+◌, ◌≤◌, ◌<◌, ◌≡◌, refl, Bool, true, false, Option, none, some, [], ◌∷◌,
  ◌++◌, length, length-append, arith,
}
use s3ftpgateway.Telnet.{
  TelnetConn, Reading, read_loop, read, skip_to_se, read_round, read_code, after, resume_at,
}

-- The read returned, with at most `size` bytes, and these and what is left of the input are no more
-- than `total` bytes. Without an error all the bytes count, and there are some if there is room.
abbrev pub Returns : ℕ → ℕ → Reading → Type 0
Returns size total none = ⊥
Returns size total (some (r, c)) =
    (r.count ≤ length r.bytes)
    × (length r.bytes ≤ size)
    × (length r.bytes + length c.input ≤ total)
    × (r.error ≡ none → (r.count ≡ length r.bytes) × (0 < size → 0 < length r.bytes))

abbrev Shorter : ℕ → Option Bytes → Type 0
Shorter n none = Unit
Shorter n (some rest) = length rest < n

skip_to_se-Shorter : (found : Bool) (bs : Bytes) → Shorter (suc (length bs)) (skip_to_se found bs)
unfolding skip_to_se
skip_to_se-Shorter found [] = tt
skip_to_se-Shorter true (b ∷ bs) = ground (arith, skip_to_se-Shorter false bs)
skip_to_se-Shorter false (b ∷ bs) =
    ground (arith, skip_to_se-Shorter true bs, skip_to_se-Shorter false bs)

Shorter-le : {n m : ℕ} (found : Option Bytes) → Shorter n found → n ≤ m → Shorter m found
Shorter-le none h le = tt
Shorter-le (some rest) h le = omega arith

abbrev with_input : Bytes → TelnetConn → TelnetConn
with_input bs c = record c { input = bs }

module _ (size left : ℕ) (skip : TelnetConn → Reading) (push : ℕ → TelnetConn → Reading)
    (got : Bytes)
    (skips : (c : TelnetConn) → length c.input < left → Returns size (length got + left) (skip c))
    (pushes : (b : ℕ) (c : TelnetConn)
      → length c.input < left
      → Returns size (length got + left) (push b c))
    (room : length got < size) where
  after-Returns :
      (found : Option Bytes) (c : TelnetConn)
      → Shorter left found
      → Returns size (length got + left) (after skip got c (resume_at c found))
  unfolding after
  after-Returns none c h = ground arith
  after-Returns (some rest) c h = skips (with_input rest c) h

  read_code-Returns :
      (code : ℕ) (bs : Bytes) (c : TelnetConn)
      → suc (length bs) < left
      → Returns size (length got + left) (read_code skip push got code (with_input bs c))
  unfolding read_code
  read_code-Returns code [] c h =
      ground (arith, skips (with_input [] c), pushes 255 (with_input [] c))
  read_code-Returns code (b ∷ bs) c h = ground (
    arith,
    skip_to_se-Shorter false bs,
    after-Returns (skip_to_se false bs) (with_input (b ∷ bs) c)
        (Shorter-le (skip_to_se false bs) (skip_to_se-Shorter false bs) (omega arith)),
    skips (record c { input = bs; willopt = c.willopt ++ b ∷ [] }),
    skips (record c { input = bs; doopt = c.doopt ++ b ∷ [] }),
    skips (with_input bs c),
    skips (with_input (b ∷ bs) c),
    pushes 255 (with_input (b ∷ bs) c),
  )

  read_round-Returns :
      (bs : Bytes) (c : TelnetConn)
      → length bs ≡ left
      → Returns size (length got + left) (read_round skip push got (with_input bs c))
  unfolding read_round
  read_round-Returns [] c h = ground arith
  read_round-Returns (b ∷ []) c h =
      ground (arith, length-append got (b ∷ []), pushes b (with_input [] c))
  read_round-Returns (b ∷ code ∷ bs) c h = ground (
    arith,
    length-append got (b ∷ []),
    pushes b (with_input (code ∷ bs) c),
    read_code-Returns code bs c,
  )

read_loop-Returns :
    (f room : ℕ) (got : Bytes) (c : TelnetConn)
    → length c.input < f
    → Returns (length got + room) (length got + length c.input) (read_loop f room got c)
unfolding read_loop
read_loop-Returns zero room got c h = elim h [ ]
read_loop-Returns (suc f) zero got c h = omega arith
read_loop-Returns (suc f) (suc room) got c h =
    read_round-Returns (length got + suc room) (length c.input) (read_loop f (suc room) got)
      (λ b. read_loop f room (got ++ b ∷ [])) got
      (λ c' lt. ground (arith, read_loop-Returns f (suc room) got c' (omega arith)))
      (λ b c' lt. ground (
        arith,
        length-append got (b ∷ []),
        read_loop-Returns f room (got ++ b ∷ []) c' (omega arith),
      ))
      (omega arith) c.input c refl

-- Read returns on every input, whatever its commands and wherever it breaks off. It stores no more
-- than the buffer holds and counts no more than it stored; what it stored and the input that is
-- left are together no more than the input; and without an error all that it stored counts, and
-- this is not nothing if the buffer has room.
pub read-Returns : (size : ℕ) (c : TelnetConn) → Returns size (length c.input) (read size c)
unfolding read
read-Returns size c =
    simp zero-add at (read_loop-Returns (suc (length c.input)) size [] c (omega arith))
