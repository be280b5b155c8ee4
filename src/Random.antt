-- ===== src/Random.antt =====
-- ftp/random.go: the source of random numbers for the ports, over eight bytes of `crypto/rand`. A
-- failed read panics, which is none here.
use s3ftpgateway.Base.{
  ℕ, suc, ◌≡◌, ◌⊎◌, ◌+◌, ◌*◌, ◌%◌, ◌^◌, ◌≤◌, ◌<◌, subst, Option, none, some, [], ◌∷◌, Bytes, length,
  arith,
}

big_endian : ℕ → Bytes → ℕ
big_endian acc [] = acc
big_endian acc (b ∷ bs) = big_endian (acc * 256 + b) bs

-- `Uint64`
unfoldable pub uint64 : Option Bytes → Option ℕ
unfolding big_endian
uint64 none = none
uint64 (some buf) = some (big_endian 0 buf)

-- `Int63`; the mask `math.MaxInt64` keeps the remainder.
unfoldable pub int63 : Option Bytes → Option ℕ
unfolding big_endian
int63 none = none
int63 (some buf) = some (big_endian 0 buf % 2 ^ 63)

abbrev AllBytes : Bytes → Type 0
AllBytes [] = Unit
AllBytes (b ∷ bs) = (b < 256) × AllBytes bs

scale : (acc b p : ℕ) → b < 256 → (acc * 256 + b + 1) * p ≤ (acc + 1) * (p * 256)
scale acc b p h = grind arith

big_endian-le :
    (acc : ℕ) (bs : Bytes) → AllBytes bs → big_endian acc bs + 1 ≤ (acc + 1) * 256 ^ length bs
unfolding big_endian
big_endian-le acc [] h = omega arith
big_endian-le acc (b ∷ bs) h =
    let step : (acc * 256 + b + 1) * 256 ^ length bs ≤ (acc + 1) * (256 ^ length bs * 256) =
      scale acc b (256 ^ length bs) h.0 in
    let ih = big_endian-le (acc * 256 + b) bs h.1 in
    let pow : 256 ^ suc (length bs) ≡ 256 ^ length bs * 256 = omega arith in rw pow (omega arith)

-- Eight bytes make a number of 64 bits, and `Int63` keeps 63 of them: neither value overflows its
-- type, and `Int63` is never negative.
pub random_bounds :
    (buf : Bytes) (n i : ℕ)
    → AllBytes buf
    → length buf ≡ 8
    → uint64 (some buf) ≡ some n
    → int63 (some buf) ≡ some i
    → (n < 2 ^ 64) × (i < 2 ^ 63) × ((i ≡ n) ⊎ (n ≡ i + 2 ^ 63))
unfolding uint64 int63
random_bounds buf n i h eight e f =
    let le : big_endian 0 buf + 1 ≤ (0 + 1) * 256 ^ 8 =
      subst (λ k. big_endian 0 buf + 1 ≤ (0 + 1) * 256 ^ k) eight (big_endian-le 0 buf h) in
    (ground arith, ground arith, ground arith)
