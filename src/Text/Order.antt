-- ===== src/Text/Order.antt =====
-- The order of strings: bytes, from the first on.
use s3ftpgateway.Base.{◌≡◌, refl, true, false, [], ◌∷◌, Bytes, arith}
use s3ftpgateway.Text.{less}

pub less_irrefl : (a : Bytes) → less a a ≡ false
unfolding less
less_irrefl [] = refl
less_irrefl (x ∷ a) = ground (arith, less_irrefl a)

-- "Not less" is transitive.
pub not_less_trans : (a b c : Bytes) → less b a ≡ false → less c b ≡ false → less c a ≡ false
unfolding less
not_less_trans [] b [] p q = refl
not_less_trans [] b (z ∷ c) p q = refl
not_less_trans (x ∷ a) [] c p q = ground arith
not_less_trans (x ∷ a) (y ∷ b) [] p q = ground arith
not_less_trans (x ∷ a) (y ∷ b) (z ∷ c) p q = ground (arith, not_less_trans a b c)

pub less_trans : (a b c : Bytes) → less a b ≡ true → less b c ≡ true → less a c ≡ true
unfolding less
less_trans a [] [] p q = ground arith
less_trans a (y ∷ b) [] p q = ground arith
less_trans [] [] (z ∷ c) p q = ground arith
less_trans (x ∷ a) [] (z ∷ c) p q = ground arith
less_trans [] (y ∷ b) (z ∷ c) p q = refl
less_trans (x ∷ a) (y ∷ b) (z ∷ c) p q = ground (arith, less_trans a b c)

pub less-asym : (a b : Bytes) → less a b ≡ true → less b a ≡ false
unfolding less
less-asym [] b p = ground arith
less-asym (x ∷ a) [] p = ground arith
less-asym (x ∷ a) (y ∷ b) p = ground (arith, less-asym a b)

pub less-antisym : (a b : Bytes) → less a b ≡ false → less b a ≡ false → a ≡ b
unfolding less
less-antisym [] [] p q = refl
less-antisym [] (y ∷ b) p q = ground arith
less-antisym (x ∷ a) [] p q = ground arith
less-antisym (x ∷ a) (y ∷ b) p q = ground (arith, less-antisym a b)
