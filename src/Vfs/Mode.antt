-- ===== src/Vfs/Mode.antt =====
-- Permission bits of a file mode.
use s3ftpgateway.Base.{ℕ, ◌-◌, ◌*◌, ◌/◌, ◌%◌, ◌^◌, ◌≡◌, Bool, ◌==◌, arith}

-- The bit of weight 2 ^ k.
abbrev pub mode_bit : ℕ → ℕ → Bool
mode_bit k mode = mode / 2 ^ k % 2 == 1

abbrev clear_bit : ℕ → ℕ → ℕ
clear_bit k mode = mode - 2 ^ k * (mode / 2 ^ k % 2)

-- `mode &^ 0222`
abbrev pub clear_write : ℕ → ℕ
clear_write mode = clear_bit 1 (clear_bit 4 (clear_bit 7 mode))

-- Clearing one bit keeps what stands below and above it.
clear_7 :
    (m : ℕ)
    → (clear_bit 7 m / 128 % 2 ≡ 0)
      × (clear_bit 7 m / 256 ≡ m / 256)
      × (clear_bit 7 m % 128 ≡ m % 128)
clear_7 m = (omega arith, omega arith, omega arith)

clear_4 :
    (m : ℕ)
    → (clear_bit 4 m / 16 % 2 ≡ 0) × (clear_bit 4 m / 32 ≡ m / 32) × (clear_bit 4 m % 16 ≡ m % 16)
clear_4 m = (omega arith, omega arith, omega arith)

clear_1 :
    (m : ℕ)
    → (clear_bit 1 m / 2 % 2 ≡ 0) × (clear_bit 1 m / 4 ≡ m / 4) × (clear_bit 1 m % 2 ≡ m % 2)
clear_1 m = (omega arith, omega arith, omega arith)

keeps :
    (m a b c : ℕ)
    → a / 128 % 2 ≡ 0
    → a / 256 ≡ m / 256
    → a % 128 ≡ m % 128
    → b / 16 % 2 ≡ 0
    → b / 32 ≡ a / 32
    → b % 16 ≡ a % 16
    → c / 2 % 2 ≡ 0
    → c / 4 ≡ b / 4
    → c % 2 ≡ b % 2
    → (c / 2 % 2 ≡ 0)
      × (c / 16 % 2 ≡ 0)
      × (c / 128 % 2 ≡ 0)
      × (c / 256 ≡ m / 256)
      × (c / 32 % 4 ≡ m / 32 % 4)
      × (c / 4 % 4 ≡ m / 4 % 4)
      × (c % 2 ≡ m % 2)
keeps m a b c p q r s t u v w x = omega arith

-- The three write bits are off, and the other six stay.
pub clear_write_bits :
    (m : ℕ)
    → (clear_write m / 2 % 2 ≡ 0)
      × (clear_write m / 16 % 2 ≡ 0)
      × (clear_write m / 128 % 2 ≡ 0)
      × (clear_write m / 256 ≡ m / 256)
      × (clear_write m / 32 % 4 ≡ m / 32 % 4)
      × (clear_write m / 4 % 4 ≡ m / 4 % 4)
      × (clear_write m % 2 ≡ m % 2)
clear_write_bits m =
    let a : ℕ = clear_bit 7 m in
    let b : ℕ = clear_bit 4 a in
    let (p, q, r) = clear_7 m in
    let (s, t, u) = clear_4 a in
    let (v, w, x) = clear_1 b in keeps m a b (clear_bit 1 b) p q r s t u v w x
