-- ===== src/Text/Decimal.antt =====
-- What `%d` prints for numbers of three digits.
use s3ftpgateway.Base.{ℕ, suc, ◌+◌, ◌/◌, ◌%◌, ◌≤◌, ◌<◌, ◌≡◌, [], ◌∷◌, Bytes, arith}
use s3ftpgateway.Text.{decimal, decimal_from}

abbrev pub three_digits : ℕ → Bytes
three_digits n = (b'0' + n / 10 / 10) ∷ (b'0' + (n / 10) % 10) ∷ (b'0' + n % 10) ∷ []

pub decimal_three : (n : ℕ) → 100 ≤ n → n < 1000 → decimal n ≡ three_digits n
unfolding decimal decimal_from
decimal_three (suc (suc k)) lo hi = ground arith
decimal_three _ lo hi = absurd (omega arith)
