-- ===== src/UserList/Search.antt =====
-- Bisection, as `sort.Search` does it.
use s3ftpgateway.Base.{
  ℕ, zero, suc, ◌+◌, ◌-◌, ◌/◌, ◌≤◌, ◌<◌, ◌≡◌, Bool, true, false, ltb, arith, Bool-cases, inl, inr,
}
use s3ftpgateway.UserList.{search_loop, search_least}

-- The tests up to `r` fail, those from `r` on hold.
pub record Splits (n : ℕ) (f : ℕ → Bool) (r : ℕ) : Type 0 where
  pub inside : r ≤ n
  pub below : (i : ℕ) → i < r → f i ≡ false
  pub above : (i : ℕ) → r ≤ i → i < n → f i ≡ true

module _ (n : ℕ) (f : ℕ → Bool) (mono : (i j : ℕ) → i ≤ j → j < n → f i ≡ true → f j ≡ true) where
  search_loop-Splits :
      (k i j : ℕ)
      → j - i < k
      → i ≤ j
      → j ≤ n
      → ((m : ℕ) → m < i → f m ≡ false)
      → ((m : ℕ) → j ≤ m → m < n → f m ≡ true)
      → Splits n f (search_loop k f i j)
  unfolding search_loop
  search_loop-Splits zero i j fuel le inside below above = elim fuel [ ]
  search_loop-Splits (suc k) i j fuel le inside below above = elim (Bool-cases (ltb i j)) [
    | inr done ↦
        rw done (record {
          inside = ground arith;
          below = below;
          above = λ m p q. above m (ground arith) q;
        })
    | inl more ↦ elim (Bool-cases (f ((i + j) / 2))) [
      | inl holds ↦
          rw (more, holds)
            (search_loop-Splits k i ((i + j) / 2) (ground arith) (ground arith) (ground arith) below
              (λ m p q. mono ((i + j) / 2) m p q holds))
      | inr fails ↦
          rw (more, fails)
            (search_loop-Splits k ((i + j) / 2 + 1) j (ground arith) (ground arith) inside
              (λ m p. ground (arith, mono m ((i + j) / 2))) above)
    ]
  ]

  pub search_least-Splits : Splits n f (search_least n f)
  unfolding search_least
  search_least-Splits =
      search_loop-Splits (suc n) 0 n (omega arith) (omega arith) (omega arith)
        (λ m p. absurd (omega arith)) (λ m p q. absurd (omega arith))
