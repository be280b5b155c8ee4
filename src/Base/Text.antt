-- ===== src/Base/Text.antt =====
-- Go strings as lists of bytes, with equality as a Boolean test.
use Prim.Native.Char.{code}
use Prim.Native.Nat.{ℕ}
use Prim.Native.String.{String}
use mathlib.Core.Path.{◌≡◌, refl}
use mathlib.Core.Logic.{◌↔◌}
use mathlib.Core.Bool.{Bool, true, false, ◌&&◌}
use mathlib.Core.List.{List, [], ◌∷◌}
use native.Mathlib.Omega.{arith}
use s3ftpgateway.Base.Tests.{◌==◌}

abbrev pub Bytes : Type 0
Bytes = List ℕ

-- The bytes of an ASCII text.
unfoldable pub codes : String → Bytes
codes String.[] = []
codes (String.◌∷◌ c s) = code c ∷ codes s

-- `a == b` on strings.
unfoldable pub beq : Bytes → Bytes → Bool
beq [] [] = true
beq (a ∷ as') (b ∷ bs) = a == b && beq as' bs
beq _ _ = false

pub beq_iff : (a b : Bytes) → (beq a b ≡ true) ↔ (a ≡ b)
unfolding beq
beq_iff (x ∷ a) (y ∷ b) = ground (arith, beq_iff a b)
beq_iff _ _ = ground arith

pub beq_refl : (a : Bytes) → beq a a ≡ true
beq_refl a = (beq_iff a a).1 refl
